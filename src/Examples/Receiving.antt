-- ===== src/Examples/Receiving.antt =====
-- The theorems on the receive loop of src/PacketDemuxer.cpp at concrete inputs.
use packetcomms.Base.{
  ℕ, ◌+◌, ◌≤◌, ◌≡◌, refl, inl, List, [], ◌∷◌, ◌++◌, true, false, length, some, pos, done, throws,
  faults, arith,
}
use packetcomms.Wire.{little, big, network_bytes}
use packetcomms.IdManager.{reserved}
use packetcomms.ComPacket.{ComPacket, from_buffer}
use packetcomms.ControlMessage.{underlying}
use packetcomms.Frame.{frame, frames, IsSendable}
use packetcomms.Transport.{Reader}
use packetcomms.Transport.Script.{Wait, late, at_most, Source, source, source_laws}
use packetcomms.Demuxer.{Demuxer, read_bytes, receive_packet, receive_loop}
use packetcomms.Demuxer.Read.{complete, read_bytes_lem}
use packetcomms.Demuxer.Receive.{receive_packet-frame}
use packetcomms.Demuxer.Deliver.{Received}
use packetcomms.Demuxer.Hello.{
  receive_loop_lem, receive_loop_refuses, receive_loop_unchecked, receive_loop_faults,
}
use packetcomms.Demuxer.Faults.{receive_packet_throws}

abbrev greeting : ComPacket
greeting = from_buffer 1 (254 ∷ [])

abbrev empty_greeting : ComPacket
empty_greeting = from_buffer 1 []

abbrev ping : ComPacket
ping = from_buffer 2 (7 ∷ 8 ∷ [])

ping-IsSendable : IsSendable ping
ping-IsSendable = record { valid = λ e. cc; type_fits = omega arith; size_fits = omega arith }

greeting-IsSendable : IsSendable greeting
greeting-IsSendable = record { valid = λ e. cc; type_fits = omega arith; size_fits = omega arith }

-- Two subscribers of packets of type 2, over some bytes that come as the script says.
abbrev listening : List Wait → List ℕ → Demuxer source
listening script coming = record {
  packet_ids = reserved;
  subscribers = (2, record { address = 1; type = 2 } ∷ record { address = 2; type = 2 } ∷ []) ∷ [];
  transport = record { script = script; coming = coming };
  transport_error = false;
  next_address = 3;
  delivered = [];
}

-- Reads that bring one byte and then three, and a wait that times out.
abbrev slow : List Wait
slow = at_most 1 ∷ late ∷ at_most 3 ∷ []

abbrev in_time : Demuxer source
in_time = listening slow (frames (greeting ∷ ping ∷ ping ∷ []))

receive_loop_lem_example :
    (k : ℕ) × (d' : Demuxer source) × (k
      ≤ source_laws.patience in_time.transport + length (ping ∷ ping ∷ []))
    × (receive_loop source little k 9 in_time ≡ done d')
    × Received source source_laws little in_time (ping ∷ ping ∷ []) d'
receive_loop_lem_example =
    receive_loop_lem source source_laws little 9 2 in_time greeting (ping ∷ ping ∷ []) refl
      (refl, [], unfold underlying in refl)
      (greeting-IsSendable, (ping-IsSendable, (ping-IsSendable, tt)))
      (omega arith, (omega arith, (omega arith, tt))) refl refl (omega arith)

abbrev unexpected : Demuxer source
unexpected = listening slow (frame ping ++ (1 ∷ 2 ∷ []))

receive_loop_refuses_example :
    (d' : Demuxer source) × (receive_loop source big 5 9 unexpected ≡ done d')
    × (d'.transport_error ≡ true)
    × (d'.delivered ≡ unexpected.delivered)
receive_loop_refuses_example =
    receive_loop_refuses source source_laws big 9 5 unexpected ping (1 ∷ 2 ∷ []) refl
      ping-IsSendable (inl (λ e. cc)) refl refl (omega arith)

abbrev too_late : Demuxer source
too_late = listening (late ∷ []) (frames (ping ∷ []))

receive_loop_unchecked_example :
    (k : ℕ) × (d' : Demuxer source) × (receive_loop source little k 7 too_late ≡ done d')
    × Received source source_laws little too_late (ping ∷ []) d'
receive_loop_unchecked_example =
    receive_loop_unchecked source source_laws little 7 2 too_late (ping ∷ []) refl
      (ping-IsSendable, tt) (omega arith, tt) refl refl (omega arith)

abbrev nothing_said : Demuxer source
nothing_said = listening [] (frame empty_greeting ++ [])

receive_loop_faults_example : receive_loop source little 3 4 nothing_said ≡ faults
receive_loop_faults_example =
    receive_loop_faults source source_laws little 4 3 nothing_said empty_greeting [] refl refl refl
      refl refl (omega arith)

receive_packet-frame_example :
    (s : Source) × (receive_packet source little 9 unexpected 1000
      ≡ done (record unexpected { transport = s }, some ping))
    × (source_laws.pending s ≡ 1 ∷ 2 ∷ [])
    × (source_laws.patience s ≤ source_laws.patience unexpected.transport)
receive_packet-frame_example =
    receive_packet-frame source source_laws little 9 1000 unexpected ping (1 ∷ 2 ∷ []) refl
      ping-IsSendable refl refl (omega arith)

abbrev greeted : Demuxer source
greeted = listening slow (frames (ping ∷ greeting ∷ []))

abbrev dripping : Source
dripping = record { script = slow; coming = 1 ∷ 2 ∷ 3 ∷ 4 ∷ 5 ∷ [] }

read_bytes_lem_example :
    (s' : Source) × (read_bytes source 7 false false dripping 4 []
      ≡ done (complete source source_laws s' ([] ++ (1 ∷ 2 ∷ 3 ∷ 4 ∷ []))))
    × (source_laws.pending s' ≡ 5 ∷ [])
    × (source_laws.patience s' ≤ source_laws.patience dripping)
read_bytes_lem_example =
    read_bytes_lem source source_laws 7 4 dripping [] (1 ∷ 2 ∷ 3 ∷ 4 ∷ []) (5 ∷ []) refl refl
      (omega arith)

-- A reader that counts the calls that bring nothing.
abbrev quiet_reader : Reader
quiet_reader = record {
  State = ℕ;
  set_blocking = λ s b. s;
  read = λ s max. (s + 1, pos 0, []);
  ready_for_reading = λ s ms. (s, true);
}

abbrev hung_up : Demuxer quiet_reader
hung_up = record {
  packet_ids = reserved;
  subscribers = [];
  transport = 0;
  transport_error = false;
  next_address = 1;
  delivered = [];
}

abbrev huge : Demuxer source
huge = listening [] (network_bytes 5 ++ (network_bytes 2147483648 ++ []))

receive_packet_throws_example : receive_packet source little 4 huge 1000 ≡ throws
receive_packet_throws_example =
    receive_packet_throws source source_laws little 4 1000 huge 5 2147483648 [] refl (omega arith)
      (omega arith) (omega arith) refl refl (omega arith)

abbrev invalid : Demuxer source
invalid = listening [] (network_bytes 0 ++ (network_bytes 1 ++ ((6 ∷ []) ++ [])))
