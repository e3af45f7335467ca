-- ===== src/Examples/Threads.antt =====
-- The theorems on the threads of src/PacketMuxer.cpp, src/SimpleQueue.h and src/Sync.cpp at concrete
-- inputs.
use packetcomms.Base.{ℕ, ◌≡◌, ◌≢◌, refl, List, [], ◌∷◌, ◌++◌, true, false, done, arith}
use packetcomms.Wire.{little}
use packetcomms.IdManager.{
  IdManager, reserved, new_id_manager, add_names, find, to_id, control_string, control_packet,
}
use packetcomms.ComPacket.{ComPacket, from_buffer}
use packetcomms.ControlMessage.{hello, underlying}
use packetcomms.TxQueues
use packetcomms.TxQueues.{total, queue, in_order, Visits}
use packetcomms.TxQueues.Types.{of_type}
use packetcomms.Frame.{frame, frames}
use packetcomms.Transport.Script.{some_bytes, sink, sink_laws}
use packetcomms.Muxer.{Muxer, new_muxer, emplace_packet, send_control_message, shut_down}
use packetcomms.Muxer.Thread.{
  System, ready, start, destroys, posts, greets, greeted, Reach, here, next,
}
use packetcomms.Muxer.Thread.Invariant.{IsSound, Reach-new_muxer}
use packetcomms.Muxer.Thread.Fifo.{posted, Reach-fifo}
use packetcomms.Muxer.Thread.Shutdown.{untouched, IsHalted, Reach-IsHalted}
use packetcomms.Muxer.Thread.Hello.{IsFresh, hello_packet, hello_overtaken}
use packetcomms.Muxer.Lifetime.Steps.{Undestroyed}
use packetcomms.SimpleQueue
use packetcomms.SimpleQueue.{SimpleQueue, new_queue, has_lock, emplace}
use packetcomms.SimpleQueue.Invariant
use packetcomms.SimpleQueue.Invariant.{Reach-new_queue}
use packetcomms.Sync
use packetcomms.Sync.{Session}
use packetcomms.Sync.Handshake
use packetcomms.Sync.Handshake.{Reach-start, Completes, handshake_completes}

abbrev pub ids : IdManager
ids = record { map = ("pose", 2) ∷ reserved.map; reverse = reserved.reverse ++ ("pose" ∷ []) }

abbrev pub fresh : Muxer sink
fresh = record {
  packet_ids = ids;
  num_posted = 0;
  num_sent = 0;
  tx_queues = [];
  transport = record { script = some_bytes 2 ∷ []; taken = [] };
  transport_error = false;
}

pub fresh-made :
    new_muxer sink ("pose" ∷ []) (record { script = some_bytes 2 ∷ []; taken = [] }) ≡ done fresh
unfolding new_muxer new_id_manager add_names find
fresh-made = refl

pose_known : to_id ids "pose" ≡ done 2
unfolding to_id find
pose_known = refl

control_known : to_id ids control_string ≡ done control_packet
unfolding to_id find
control_known = refl

fresh-IsFresh : IsFresh sink sink_laws little fresh
fresh-IsFresh = record {
  none_posted = refl;
  none_sent = refl;
  no_queue = refl;
  no_error = refl;
  control_known = control_known;
}

-- The muxer is destroyed before its thread has done anything.
abbrev destroyed : System sink
destroyed = record (start sink fresh) {
  muxer = record fresh { transport_error = true };
  notified = true;
}

early_end : Reach sink little 10 (start sink fresh) destroyed
unfolding shut_down
early_end = next here (destroys (λ e. cc) refl)

Reach-new_muxer_example : IsSound destroyed
Reach-new_muxer_example =
    Reach-new_muxer sink little 10 ("pose" ∷ []) (record { script = some_bytes 2 ∷ []; taken = [] })
      fresh destroyed fresh-made early_end

twice : Reach sink little 10 destroyed destroyed
unfolding shut_down
twice = next here (destroys (λ e. cc) refl)

Reach-IsHalted_example : IsHalted sink fresh.transport (destroyed.muxer)
Reach-IsHalted_example =
    Reach-IsHalted sink little 10 fresh.transport destroyed destroyed twice (refl, untouched)

hello_overtaken_example :
    (m' : Muxer sink) × (run : Reach sink little 9
      (start sink fresh)
      (record { muxer = m'; phase = ready; notified = true }))
    × Undestroyed sink little 9 run
    × (posted sink little 9 run ≡ hello_packet ∷ from_buffer 2 (5 ∷ 6 ∷ []) ∷ [])
    × (m'.transport_error ≡ false
        → (total m'.tx_queues ≡ 0)
          × (sink_laws.sent m'.transport
              ≡ sink_laws.sent fresh.transport
                ++ (frame (from_buffer 2 (5 ∷ 6 ∷ [])) ++ frame hello_packet)))
hello_overtaken_example =
    hello_overtaken sink sink_laws little 9 2 fresh "pose" (5 ∷ 6 ∷ []) fresh-IsFresh pose_known
      (λ e. cc) (λ e. cc) (omega arith)

-- A thread posts a packet, and then the send thread greets.
abbrev two_packets : System sink
two_packets = record (start sink fresh) {
  muxer = record fresh {
    num_posted = 2;
    tx_queues = (2, from_buffer 2 (5 ∷ []) ∷ []) ∷ (1, hello_packet ∷ []) ∷ [];
  };
  phase = greeted;
  notified = true;
}

abbrev pose_posted : Muxer sink
pose_posted = record fresh { num_posted = 1; tx_queues = (2, from_buffer 2 (5 ∷ []) ∷ []) ∷ [] }

pose_emplaced : emplace_packet sink fresh "pose" (5 ∷ []) ≡ done pose_posted
unfolding emplace_packet to_id find TxQueues.emplace
pose_emplaced = refl

hello_emplaced : send_control_message sink pose_posted hello ≡ done two_packets.muxer
unfolding send_control_message emplace_packet to_id find TxQueues.emplace underlying
hello_emplaced = refl

overtaking : Reach sink little 10 (start sink fresh) two_packets
overtaking =
    next (next here (posts "pose" (5 ∷ []) pose_posted (λ e. cc) pose_emplaced refl))
      (greets two_packets.muxer refl hello_emplaced refl)

Reach-fifo_example :
    (taken : List ComPacket) × ([] ≡ [] ++ frames taken)
    × ((k : ℕ)
        → of_type k taken ++ queue k (two_packets.muxer).tx_queues
          ≡ of_type k (posted sink little 10 overtaking))
Reach-fifo_example =
    Reach-fifo sink sink_laws little 10 ("pose" ∷ [])
      (record { script = some_bytes 2 ∷ []; taken = [] }) fresh two_packets overtaking fresh-made
      refl

-- One thread puts an item into a queue of numbers.
abbrev one_item : SimpleQueue ℕ
one_item = emplace 4 new_queue

Reach-new_queue_example :
    SimpleQueue.Invariant.IsSound one_item
    × ((t u : ℕ) → has_lock (one_item.phase t) ≡ true → has_lock (one_item.phase u) ≡ true → t ≡ u)
unfolding emplace
Reach-new_queue_example =
    Reach-new_queue one_item (SimpleQueue.next SimpleQueue.here (SimpleQueue.emplaces 4 refl refl))

-- The server has subscribed and sent its message before the client has subscribed.
abbrev lonely : Session
lonely = record Sync.start { server = Sync.waiting; to_client = 1 }

abbrev invited : Session
invited = record Sync.start { server = Sync.waiting }

lonely_reached : Sync.Reach Sync.start lonely
lonely_reached =
    let st : Sync.Step Sync.start invited = Sync.server_subscribes refl refl in
    let st' : Sync.Step invited lonely = Sync.server_sends refl refl refl in
    Sync.next (Sync.next Sync.here st) st'

Reach-start_example :
    Sync.Handshake.IsSound lonely
    × (lonely.server ≡ Sync.returned → (lonely.client ≡ Sync.returned) × (lonely.acknowledged ≡ 1))
    × (lonely.client ≡ Sync.returned → lonely.server ≢ Sync.outside)
Reach-start_example = Reach-start lonely lonely_reached

handshake_completes_example : Completes lonely
handshake_completes_example = handshake_completes lonely lonely_reached
