-- ===== src/Examples/Sending.antt =====
-- The theorems on src/PacketMuxer.cpp and src/ComPacket.h at concrete inputs.
use packetcomms.Base.{ℕ, ◌≤◌, ◌≡◌, refl, List, [], ◌∷◌, ◌++◌, true, false, ◌==◌, done, arith}
use packetcomms.Wire.{little, store_u32, htonl}
use packetcomms.IdManager.{reserved}
use packetcomms.ComPacket.{ComPacket, from_buffer, get_data_size}
use packetcomms.Frame.{frames}
use packetcomms.TxQueues.{queue, put, in_order, cleared}
use packetcomms.Transport.Script.{Sink, some_bytes, fail, sink, sink_laws}
use packetcomms.Muxer.{Muxer, write_bytes, send_packet, send_all, send_pass}
use packetcomms.Muxer.Write.{Wrote, write_bytes_lem}
use packetcomms.Muxer.Pass.{send_pass_lem}

-- A transport that first takes nothing, then three bytes, and then all.
abbrev slow : Sink
slow = record { script = some_bytes 0 ∷ some_bytes 3 ∷ []; taken = [] }

abbrev ping : ComPacket
ping = from_buffer 2 (7 ∷ 8 ∷ [])

abbrev pong : ComPacket
pong = from_buffer 3 (9 ∷ [])

-- Three packets wait, and the counter of sent packets is about to wrap.
abbrev busy : Muxer sink
busy = record {
  packet_ids = reserved;
  num_posted = 2;
  num_sent = 4294967295;
  tx_queues = (2, ping ∷ ping ∷ []) ∷ (3, pong ∷ []) ∷ [];
  transport = slow;
  transport_error = false;
}

abbrev broken : Muxer sink
broken = record busy { transport_error = true }

abbrev order : List ℕ
order = 3 ∷ 2 ∷ []

send_pass_lem_example :
    (m' : Muxer sink) × (send_pass sink little 20 order busy ≡ done m')
    × (m'.transport_error ≡ false
        → (sink_laws.sent m'.transport
            ≡ sink_laws.sent busy.transport ++ frames (in_order order busy.tx_queues))
          × (m'.tx_queues ≡ cleared order busy.tx_queues))
    × (sink_laws.patience m'.transport ≤ sink_laws.patience busy.transport)
send_pass_lem_example =
    send_pass_lem sink sink_laws little 20 2 order busy (omega arith) (((λ e. cc), tt), (tt, tt))
      (
        (((λ e. cc), omega arith), (((λ e. cc), omega arith), tt)),
        ((((λ e. cc), omega arith), tt), tt),
      )
      (omega arith)

write_bytes_lem_example :
    (s' : Sink) × (left : ℕ) × (write_bytes sink 6 false slow (1 ∷ 2 ∷ 3 ∷ 4 ∷ [])
      ≡ done (s', left == 0, left))
    × Wrote sink sink_laws slow (1 ∷ 2 ∷ 3 ∷ 4 ∷ []) s' left
write_bytes_lem_example = write_bytes_lem sink sink_laws 6 slow (1 ∷ 2 ∷ 3 ∷ 4 ∷ []) (omega arith)

-- A queue of one packet on a transport that fails at once.
abbrev failing : Muxer sink
failing = record busy {
  tx_queues = (3, pong ∷ []) ∷ [];
  transport = record { script = fail ∷ []; taken = [] };
}

abbrev failed : Muxer sink
failed = record busy {
  num_sent = 0;
  tx_queues = (3, []) ∷ [];
  transport = record { script = []; taken = 0 ∷ 0 ∷ 0 ∷ 1 ∷ 9 ∷ [] };
  transport_error = true;
}

failing_run : send_pass sink little 20 (3 ∷ []) failing ≡ done failed
unfolding send_pass send_all send_packet write_bytes store_u32 htonl queue put get_data_size
failing_run = refl
