-- ===== src/Examples/Ends.antt =====
-- The threads of a muxer and of a demuxer at the two ends of a connection, at a concrete input: a
-- packet is posted before Hello, and the pass sends Hello first.
use packetcomms.Base.{
  ◌%◌, ◌^◌, ℕ, ◌≢◌, ◌≡◌, refl, inl, inr, List, [], ◌∷◌, ◌++◌, true, false, some, done, All, arith,
}
use packetcomms.Wire.{little, big, load_u32, ntohl, store_u32, htonl}
use packetcomms.IdManager.{IdManager, reserved, new_id_manager, add_names, find, to_id}
use packetcomms.ComPacket.{ComPacket, from_buffer, preallocated, get_data_size}
use packetcomms.ControlMessage.{hello, underlying}
use packetcomms.Frame.{IsSendable}
use packetcomms.Subscribers.{Subscriber, lookup, insert}
use packetcomms.TxQueues
use packetcomms.TxQueues.{queue, put, total, Visits}
use packetcomms.TxQueues.Types.{of_type}
use packetcomms.Transport.Script.{some_bytes, sink, sink_laws, source, source_laws}
use packetcomms.Muxer.{
  Muxer, new_muxer, emplace_packet, send_control_message, write_bytes, send_packet, send_all,
  send_pass,
}
use packetcomms.Muxer.Thread.{
  greeted, ready, System as Sender, start as start_sender, posts, greets as greets_peer, locks,
  sends, waiting, Reach as SenderReach, here as sender_here, next as sender_next,
}
use packetcomms.Muxer.Thread.Fifo.{posted, posted_by, packet_of}
use packetcomms.Muxer.Thread.Invariant.{IsCounted}
use packetcomms.Muxer.Lifetime.Steps.{BySender}
use packetcomms.Muxer.Thread.Progress.{Drained, waiting_packets_sent}
use packetcomms.Demuxer.{
  Demuxer, new_demuxer, subscribe, read_bytes, receive_data, receive_header, receive_packet,
  receive_timeout, hello_timeout, check_hello, get_control_message, receive_hello_message,
}
use packetcomms.Demuxer.Thread.{
  idle, delivering, System, start, open_queue, call, greets, gets, calls, Reach, here, next,
}
use packetcomms.Demuxer.Thread.Handed.{handed}
use packetcomms.Delivery.Threads.{called_as_posted}

abbrev pub ids : IdManager
ids = record { map = ("pose", 2) ∷ reserved.map; reverse = reserved.reverse ++ ("pose" ∷ []) }

abbrev pub pose : ComPacket
pose = from_buffer 2 (7 ∷ [])

abbrev pub greeting : ComPacket
greeting = from_buffer 1 (254 ∷ [])

abbrev pub pose_bytes : List ℕ
pose_bytes = 0 ∷ 0 ∷ 0 ∷ 2 ∷ 0 ∷ 0 ∷ 0 ∷ 1 ∷ 7 ∷ []

abbrev pub all_bytes : List ℕ
all_bytes = 0 ∷ 0 ∷ 0 ∷ 1 ∷ 0 ∷ 0 ∷ 0 ∷ 1 ∷ 254 ∷ pose_bytes

abbrev pub fresh : Muxer sink
fresh = record {
  packet_ids = ids;
  num_posted = 0;
  num_sent = 0;
  tx_queues = [];
  transport = record { script = some_bytes 2 ∷ []; taken = [] };
  transport_error = false;
}

abbrev pub one_posted : Muxer sink
one_posted = record fresh { num_posted = 1; tx_queues = (2, pose ∷ []) ∷ [] }

abbrev pub two_posted : Muxer sink
two_posted = record fresh { num_posted = 2; tx_queues = (2, pose ∷ []) ∷ (1, greeting ∷ []) ∷ [] }

abbrev pub two_sent : Muxer sink
two_sent = record two_posted {
  num_sent = 2;
  tx_queues = (2, []) ∷ (1, []) ∷ [];
  transport = record { script = []; taken = all_bytes };
}

pub fresh_made :
    new_muxer sink ("pose" ∷ []) (record { script = some_bytes 2 ∷ []; taken = [] }) ≡ done fresh
unfolding new_muxer new_id_manager add_names find
fresh_made = refl

pub pose_emplaced : emplace_packet sink fresh "pose" (7 ∷ []) ≡ done one_posted
unfolding emplace_packet to_id find TxQueues.emplace
pose_emplaced = refl

pub hello_emplaced : send_control_message sink one_posted hello ≡ done two_posted
unfolding send_control_message emplace_packet to_id find TxQueues.emplace underlying
hello_emplaced = refl

pub both_sent : send_pass sink little 6 (1 ∷ 2 ∷ []) two_posted ≡ done two_sent
unfolding send_pass send_all send_packet write_bytes store_u32 htonl queue put get_data_size
both_sent = refl

pub visits : Visits (1 ∷ 2 ∷ []) two_posted.tx_queues
visits = record { once = (((λ e. cc), tt), (tt, tt)); every = (inr (inl refl), (inl refl, tt)) }

abbrev pub sender_done : Sender sink
sender_done = record { muxer = two_sent; phase = ready; notified = true }

sender_run : SenderReach sink little 6 (start_sender sink fresh) sender_done
sender_run =
    let first : SenderReach sink little 6 (start_sender sink fresh)
        (record (start_sender sink fresh) { muxer = one_posted; notified = true }) =
      sender_next sender_here (posts "pose" (7 ∷ []) one_posted (λ e. cc) pose_emplaced refl) in
    let second : SenderReach sink little 6 (start_sender sink fresh)
        (record { muxer = two_posted; phase = greeted; notified = true }) =
      sender_next first (greets_peer two_posted refl hello_emplaced refl) in
    let third : SenderReach sink little 6 (start_sender sink fresh)
        (record { muxer = two_posted; phase = ready; notified = true }) =
      sender_next second (locks refl refl) in
    sender_next third (sends (1 ∷ 2 ∷ []) two_sent refl refl refl visits both_sent refl)

abbrev pub client : Subscriber
client = record { address = 1; type = 2 }

abbrev pub alone : List ℕ → Demuxer source
alone coming = record {
  packet_ids = ids;
  subscribers = [];
  transport = record { script = []; coming = coming };
  transport_error = false;
  next_address = 1;
  delivered = [];
}

abbrev pub listening : List ℕ → Demuxer source
listening coming = record (alone coming) { subscribers = (2, client ∷ []) ∷ []; next_address = 2 }

pub alone_made :
    new_demuxer source ("pose" ∷ []) (record { script = []; coming = all_bytes })
    ≡ done (alone all_bytes)
unfolding new_demuxer new_id_manager add_names find
alone_made = refl

pub joined : subscribe source (alone all_bytes) "pose" ≡ done (listening all_bytes, client)
unfolding subscribe to_id find lookup insert
joined = refl

pub hello_got :
    receive_hello_message source big 6 (listening all_bytes) hello_timeout
    ≡ done (listening pose_bytes)
unfolding receive_hello_message check_hello get_control_message receive_packet receive_header
    receive_data read_bytes load_u32 ntohl preallocated get_data_size underlying
hello_got = refl

pub pose_got :
    receive_packet source big 6 (listening pose_bytes) receive_timeout
    ≡ done (listening [], some pose)
unfolding receive_packet receive_header receive_data read_bytes load_u32 ntohl preallocated
    get_data_size
pose_got = refl

abbrev receiver_done : System source
receiver_done = record {
  demuxer = record (listening []) { delivered = (1, pose) ∷ [] };
  phase = delivering pose [];
}

receiver_run : Reach source big 6 (start source (listening all_bytes)) receiver_done
unfolding open_queue lookup insert call
receiver_run =
    let first : Reach source big 6 (start source (listening all_bytes))
        (record { demuxer = listening pose_bytes; phase = idle }) =
      next here (greets (listening pose_bytes) refl hello_got refl) in
    let second : Reach source big 6 (start source (listening all_bytes))
        (record { demuxer = listening []; phase = delivering pose (client ∷ []) }) =
      next first (gets (listening []) pose refl refl pose_got (λ e. cc) refl) in
    next second (calls pose client [] refl refl)

posted-IsSendable : All IsSendable (posted sink little 6 sender_run)
unfolding sender_run posted posted_by packet_of to_id find underlying
posted-IsSendable = (
  record { valid = λ e. cc; type_fits = omega arith; size_fits = omega arith },
  (record { valid = λ e. cc; type_fits = omega arith; size_fits = omega arith }, tt),
)

pose_called :
    (later : List ComPacket) × (of_type 2 (posted sink little 6 sender_run)
      ≡ handed source big 6 1 receiver_done ++ later)
unfolding receiver_run
pose_called =
    called_as_posted sink sink_laws source source_laws little big 6 6 ("pose" ∷ []) ("pose" ∷ [])
      (record { script = some_bytes 2 ∷ []; taken = [] })
      (record { script = []; coming = all_bytes }) fresh sender_done sender_run (alone all_bytes)
      (listening all_bytes) "pose" client receiver_done receiver_run fresh_made refl refl
      posted-IsSendable alone_made joined (λ e. cc) refl (((tt, tt), tt), tt)

-- The send thread waits, and both packets are in their queues.
abbrev asleep : Sender sink
asleep = record { muxer = two_posted; phase = waiting; notified = true }

two_posted-IsCounted : IsCounted two_posted
unfolding total
two_posted-IsCounted = record {
  sent_bounded = omega arith;
  counted = refl;
  distinct = (((λ e. cc), tt), (tt, tt));
}

two_waiting : total two_posted.tx_queues % 2 ^ 32 ≢ 0
unfolding total
two_waiting e = cc

waiting_packets_sent_example :
    (t : Sender sink) × (run : SenderReach sink little 6 asleep t) × BySender sink little 6 run
    × (t.phase ≡ ready)
    × Drained sink sink_laws little 6 two_posted t.muxer
waiting_packets_sent_example =
    waiting_packets_sent sink sink_laws little 6 1 asleep (inr (inr refl)) two_posted-IsCounted
      two_waiting refl (((((λ e. cc), omega arith), tt)), (((((λ e. cc), omega arith), tt)), tt))
      (omega arith)
