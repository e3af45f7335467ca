-- ===== src/Examples/Together.antt =====
-- A muxer and a demuxer at the ends of a connection, on hosts of different byte orders.
use packetcomms.Base.{ℕ, ◌+◌, ◌≤◌, ◌≡◌, refl, List, [], ◌∷◌, false, length, done, arith}
use packetcomms.Wire.{little, big, network_bytes, store_u32, htonl}
use packetcomms.IdManager.{reserved}
use packetcomms.ComPacket.{ComPacket, from_buffer, get_data_size}
use packetcomms.ControlMessage.{underlying}
use packetcomms.Frame.{frame}
use packetcomms.TxQueues.{queue, put, in_order}
use packetcomms.Transport.Script.{late, at_most, sink, sink_laws, source, source_laws}
use packetcomms.Muxer.{Muxer, write_bytes, send_packet, send_all, send_pass}
use packetcomms.Muxer.Thread.Hello.{hello_packet}
use packetcomms.Demuxer.{Demuxer, receive_loop}
use packetcomms.Demuxer.Deliver.{Received}
use packetcomms.Delivery.{IsCarried, delivery}

abbrev ping : ComPacket
ping = from_buffer 2 (7 ∷ 8 ∷ [])

abbrev said : List ℕ
said = 0 ∷ 0 ∷ 0 ∷ 1 ∷ 0 ∷ 0 ∷ 0 ∷ 1 ∷ 254 ∷ []

abbrev all_said : List ℕ
all_said = 0 ∷ 0 ∷ 0 ∷ 1 ∷ 0 ∷ 0 ∷ 0 ∷ 1 ∷ 254 ∷ 0 ∷ 0 ∷ 0 ∷ 2 ∷ 0 ∷ 0 ∷ 0 ∷ 2 ∷ 7 ∷ 8 ∷ []

abbrev before : Muxer sink
before = record {
  packet_ids = reserved;
  num_posted = 2;
  num_sent = 1;
  tx_queues = (1, []) ∷ (2, ping ∷ []) ∷ [];
  transport = record { script = []; taken = said };
  transport_error = false;
}

abbrev after : Muxer sink
after = record before {
  num_sent = 2;
  tx_queues = (1, []) ∷ (2, []) ∷ [];
  transport = record { script = []; taken = all_said };
}

abbrev other_end : Demuxer source
other_end = record {
  packet_ids = reserved;
  subscribers = (2, record { address = 1; type = 2 } ∷ []) ∷ [];
  transport = record { script = at_most 3 ∷ late ∷ []; coming = all_said };
  transport_error = false;
  next_address = 2;
  delivered = [];
}

hello_said : said ≡ frame hello_packet
unfolding frame network_bytes underlying
hello_said = refl

sent_all : send_pass sink little 6 (1 ∷ 2 ∷ []) before ≡ done after
unfolding send_pass send_all send_packet write_bytes store_u32 htonl queue put get_data_size
sent_all = refl

ping-IsCarried : IsCarried 2 ping
ping-IsCarried = record {
  sendable = record { valid = λ e. cc; type_fits = omega arith; size_fits = omega arith };
  short = omega arith;
}

delivery_example :
    (k : ℕ) × (d' : Demuxer source) × (k
      ≤ source_laws.patience other_end.transport + length (in_order (1 ∷ 2 ∷ []) before.tx_queues))
    × (receive_loop source big k 8 other_end ≡ done d')
    × Received source source_laws big other_end (in_order (1 ∷ 2 ∷ []) before.tx_queues) d'
delivery_example =
    delivery sink sink_laws source source_laws little big 6 8 2 (1 ∷ 2 ∷ []) before after other_end
      hello_said (omega arith) (((λ e. cc), tt), (tt, tt)) (tt, ((ping-IsCarried, tt), tt))
      (omega arith) (omega arith) sent_all refl refl refl refl (omega arith)
