-- ===== src/Examples/Sockets.antt =====
-- The theorems on src/network/Socket.cpp as a transport at concrete inputs.
pub mod System
use packetcomms.Base.{
  none, ℕ, zero, suc, ◌+◌, ◌-◌, ◌≤◌, ◌<◌, ◌≡◌, ◌≢◌, refl, sym, append-nil, List, [], ◌∷◌, ◌++◌,
  ◌&&◌, Bool, true, false, ℤ, pos, negsuc, minus_one, take, drop, length, take-append-drop,
  take_all, ◌==◌, some, done, stuck, arith,
}
use packetcomms.Wire.{little, big}
use packetcomms.IdManager.{reserved}
use packetcomms.ComPacket.{ComPacket, from_buffer}
use packetcomms.Frame.{frame, IsSendable}
use packetcomms.Muxer.{write_bytes}
use packetcomms.Demuxer.{Demuxer, receive_packet, receive_timeout}
use packetcomms.Demuxer.Interruption.{interrupted_packet}
use packetcomms.Demuxer.Interruption.Spin.{spun, between, behind_loop, spinning_thread_ends}
use packetcomms.Demuxer.Thread.{Reach}
use packetcomms.Network.Posix.{Posix, Errno, eagain, IoResult, PollResult, SockAddr}
use packetcomms.Network.Socket.{
  would_block, is_one, ready_for_reading, wait_for_single_event, has_event, read, mask_would_block,
}
use packetcomms.Network.Socket.Stream.{
  socket_writer, socket_reader, SendsInOrder, socket_write_bytes, socket_hangs,
}
use packetcomms.Network.Socket.Receives.{ReceivesInOrder, socket_receive_packet}
use packetcomms.Examples.Sockets.System.{
  Link, connected, ended, connected-SendsInOrder, connected-ReceivesInOrder,
}

abbrev slow : Link
slow = record { delays = 2; taken = []; coming = [] }

abbrev message : List ℕ
message = 8 ∷ 9 ∷ []

message_written :
    (s' : Link) × (left : ℕ) × (write_bytes (socket_writer connected (pos 3)) 4 false slow message
      ≡ done (s', left == 0, left))
    × ((left ≤ length message)
        × (s'.taken ≡ [] ++ take (length message - left) message)
        × (s'.delays ≤ 2))
message_written =
    socket_write_bytes connected (pos 3) connected-SendsInOrder 4 slow message (omega arith)

abbrev ping : ComPacket
ping = from_buffer 2 (7 ∷ 8 ∷ [])

ping-IsSendable : IsSendable ping
ping-IsSendable = record { valid = λ e. cc; type_fits = omega arith; size_fits = omega arith }

abbrev listening : Demuxer (socket_reader connected (pos 3))
listening = record {
  packet_ids = reserved;
  subscribers = [];
  transport = record { delays = 0; taken = []; coming = frame ping ++ (1 ∷ []) };
  transport_error = false;
  next_address = 1;
  delivered = [];
}

readable : (ready_for_reading connected (pos 3) listening.transport 1000).1 ≡ true
unfolding ready_for_reading wait_for_single_event has_event
readable = refl

ping_received :
    (s : Link) × (receive_packet (socket_reader connected (pos 3)) little 6 listening 1000
      ≡ done (record listening { transport = s }, some ping))
    × (s.coming ≡ 1 ∷ [])
    × (s.delays ≤ 0)
ping_received =
    socket_receive_packet connected (pos 3) connected-ReceivesInOrder little 6 1000 listening ping
      (1 ∷ []) refl ping-IsSendable refl readable (omega arith)

abbrev pub deserted : Demuxer (socket_reader ended (pos 3))
deserted = record {
  packet_ids = reserved;
  subscribers = [];
  transport = record { delays = 0; taken = []; coming = [] };
  transport_error = false;
  next_address = 1;
  delivered = [];
}

socket_hangs_example : receive_packet (socket_reader ended (pos 3)) big 50 deserted 1000 ≡ stuck
socket_hangs_example =
    socket_hangs ended (pos 3) big 50 1000 deserted (λ s max. refl) refl refl refl

-- The destructor sets the flag when the receive thread has tested it three times.
spinning_thread_ends_example :
    (interrupted_packet (socket_reader ended (pos 3)) big 3 deserted.transport receive_timeout
      ≡ done (deserted.transport, none))
    × Reach
        (socket_reader ended (pos 3))
        big
        50
        (between (socket_reader ended (pos 3)) deserted)
        (behind_loop (socket_reader ended (pos 3)) deserted deserted.transport)
unfolding read mask_would_block ready_for_reading wait_for_single_event has_event spun
spinning_thread_ends_example =
    spinning_thread_ends (socket_reader ended (pos 3)) (λ s max. refl) big 50 3 deserted refl refl
