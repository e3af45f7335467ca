-- ===== src/Examples/Interleavings.antt =====
-- The theorems on the receive thread of src/PacketDemuxer.cpp among other threads at concrete inputs.
use packetcomms.Base.{
  ℕ, ◌≡◌, ◌≢◌, refl, String, List, [], ◌∷◌, ◌++◌, true, false, some, done, arith,
}
use packetcomms.Wire.{little, load_u32, ntohl}
use packetcomms.IdManager.{IdManager, reserved, new_id_manager, add_names, find, to_id, to_string}
use packetcomms.ComPacket.{ComPacket, from_buffer, preallocated, get_data_size}
use packetcomms.ControlMessage.{underlying}
use packetcomms.Subscribers.{Subscriber, lookup, insert, without, count, remove_one, remove_if}
use packetcomms.TxQueues.Types.{of_type}
use packetcomms.Transport.Script.{source}
use packetcomms.Demuxer.{
  Demuxer, new_demuxer, subscribe, unsubscribe, read_bytes, receive_data, receive_header,
  receive_packet, receive_timeout, check_hello, get_control_message, receive_hello_message,
  handle_packet, dispatch, receive_round, receive_rounds, receive_loop, warn_about_subscribers,
}
use packetcomms.Demuxer.Subscriptions.{IsUnique, times}
use packetcomms.Demuxer.Thread.{
  idle, delivering, System, start, open_queue, call, pending_calls, Step, gets, calls, subscribes,
  Reach, here, next,
}
use packetcomms.Demuxer.Thread.Calls.{calls_to}
use packetcomms.Demuxer.Thread.Registrations.{received}
use packetcomms.Demuxer.Thread.Handed.{Follows, handed}
use packetcomms.Demuxer.Thread.Once.{called_exactly_once, unsubscribed_silent}
use packetcomms.Demuxer.Thread.Names.{Tells, unsubscribe_returns, warn_about_subscribers_lem}
use packetcomms.Demuxer.Thread.Shutdown.{Reach-halted}
use packetcomms.Demuxer.Thread.Simulation.{loop_phase, receive_loop_runs}

abbrev pub ids : IdManager
ids = record { map = ("pose", 2) ∷ reserved.map; reverse = reserved.reverse ++ ("pose" ∷ []) }

-- A packet of type 2 with the byte 7, and Hello.
abbrev pub pose : ComPacket
pose = from_buffer 2 (7 ∷ [])

abbrev pub pose_bytes : List ℕ
pose_bytes = 0 ∷ 0 ∷ 0 ∷ 2 ∷ 0 ∷ 0 ∷ 0 ∷ 1 ∷ 7 ∷ []

abbrev hello_bytes : List ℕ
hello_bytes = 0 ∷ 0 ∷ 0 ∷ 1 ∷ 0 ∷ 0 ∷ 0 ∷ 1 ∷ 254 ∷ []

abbrev pub client : Subscriber
client = record { address = 1; type = 2 }

abbrev pub alone : List ℕ → Demuxer source
alone coming = record {
  packet_ids = ids;
  subscribers = [];
  transport = record { script = []; coming = coming };
  transport_error = false;
  next_address = 1;
  delivered = [];
}

abbrev pub shared : List ℕ → Demuxer source
shared coming = record (alone coming) { subscribers = (2, client ∷ []) ∷ []; next_address = 2 }

abbrev deserted : List ℕ → Demuxer source
deserted coming = record (alone coming) { subscribers = (2, []) ∷ []; next_address = 2 }

pub alone-made :
    (coming : List ℕ)
    → new_demuxer source ("pose" ∷ []) (record { script = []; coming = coming })
      ≡ done (alone coming)
unfolding new_demuxer new_id_manager add_names find
alone-made coming = refl

pub alone-IsUnique : (coming : List ℕ) → IsUnique (alone coming)
unfolding lookup count
alone-IsUnique coming = record { once = λ k a. omega arith; fresh = λ k a h. refl }

pub joined :
    (coming : List ℕ) → subscribe source (alone coming) "pose" ≡ done (shared coming, client)
unfolding subscribe to_id find lookup insert
joined coming = refl

got_shared :
    receive_packet source little 6 (shared pose_bytes) receive_timeout ≡ done (shared [], some pose)
unfolding receive_packet receive_header receive_data read_bytes load_u32 ntohl preallocated
    get_data_size
got_shared = refl

got_deserted :
    receive_packet source little 6 (deserted pose_bytes) receive_timeout
    ≡ done (deserted [], some pose)
unfolding receive_packet receive_header receive_data read_bytes load_u32 ntohl preallocated
    get_data_size
got_deserted = refl

abbrev between : Demuxer source → System source
between d = record { demuxer = d; phase = idle }

-- The packet was received, and the subscriber is not called with it yet.
abbrev called_soon : System source
called_soon = record { demuxer = shared []; phase = delivering pose (client ∷ []) }

abbrev called_now : System source
called_now = record {
  demuxer = record (shared []) { delivered = (1, pose) ∷ [] };
  phase = delivering pose [];
}

gets_pose : Step source little 6 (between (shared pose_bytes)) called_soon
unfolding open_queue lookup insert
gets_pose = gets (shared []) pose refl refl got_shared (λ e. cc) refl

calls_client : Step source little 6 called_soon called_now
unfolding call
calls_client = calls pose client [] refl refl

a_run : Reach source little 6 (between (shared pose_bytes)) called_now
a_run = next (next here gets_pose) calls_client

called_exactly_once_example :
    handed source little 6 1 called_now ≡ [] ++ of_type 2 (received source little 6 a_run)
unfolding a_run gets_pose calls_client of_type calls_to
called_exactly_once_example =
    called_exactly_once source little 6 (alone pose_bytes) (shared pose_bytes) "pose" client
      (between (shared pose_bytes)) called_now a_run (alone-IsUnique pose_bytes) (joined pose_bytes)
      refl (λ p todo e. cc) ((tt, tt), tt)

-- The object was unsubscribed before the packet comes.
abbrev missed : System source
missed = record { demuxer = deserted []; phase = delivering pose [] }

gets_missed : Step source little 6 (between (deserted pose_bytes)) missed
unfolding open_queue lookup insert
gets_missed = gets (deserted []) pose refl refl got_deserted (λ e. cc) refl

left : unsubscribe source (shared pose_bytes) client ≡ done (deserted pose_bytes)
unfolding unsubscribe to_string lookup remove_one remove_if without count insert
left = refl

shared-IsUnique : IsUnique (shared pose_bytes)
unfolding lookup count
shared-IsUnique = record { once = λ k a. ground arith; fresh = λ k a h. ground arith }

shared-Follows : Follows source little 6 1 2 1 (shared pose_bytes)
unfolding lookup count
shared-Follows = record {
  exists = omega arith;
  at_most_once = omega arith;
  registered = λ j. ground arith;
}

unsubscribed_silent_example :
    (calls_to 1 (missed.demuxer).delivered ≡ calls_to 1 (shared pose_bytes).delivered)
    × (calls_to 1 (pending_calls missed.phase) ≡ [])
unsubscribed_silent_example =
    unsubscribed_silent source little 6 (shared pose_bytes) (deserted pose_bytes) client
      (between (deserted pose_bytes)) missed (next here gets_missed) shared-IsUnique shared-Follows
      left refl (λ p todo e. cc)

-- A client has subscribed before the thread has begun.
abbrev subscribed : System source
subscribed = start source (shared [])

subscribed_reached : Reach source little 6 (start source (alone [])) subscribed
subscribed_reached =
    next here (subscribes "pose" (shared []) client (λ p todo e. cc) (joined []) refl)

one_registration : times (subscribed.demuxer) 2 1 ≢ 0
unfolding lookup count
one_registration e = cc

unsubscribe_returns_example :
    (d' : Demuxer source) × (unsubscribe source (shared []) client ≡ done d') × (times d' 2 1 ≡ 0)
unsubscribe_returns_example =
    unsubscribe_returns source little 6 ("pose" ∷ []) ids (omega arith)
      (unfold new_id_manager add_names find in refl) (alone [])
      (record { script = []; coming = [] }) subscribed client (alone-made []) subscribed_reached
      one_registration

client_is_warned_of :
    (ws : List (ℕ × String)) × (warn_about_subscribers source (shared []) (2 ∷ []) ≡ done ws)
    × Tells (shared []) (2 ∷ []) ws
client_is_warned_of =
    warn_about_subscribers_lem source little 6 ("pose" ∷ []) ids (omega arith)
      (unfold new_id_manager add_names find in refl) (alone [])
      (record { script = []; coming = [] }) subscribed (2 ∷ []) (alone-made []) subscribed_reached

-- The destructor begins while the thread is about to call the subscriber.
abbrev ending : System source
ending = record called_soon { demuxer = record (shared []) { transport_error = true } }

abbrev ended : System source
ended = record called_now {
  demuxer = record (shared []) { transport_error = true; delivered = (1, pose) ∷ [] };
}

calls_last : Reach source little 6 ending ended
unfolding call
calls_last = next here (calls pose client [] refl refl)

Reach-halted_example :
    ((ended.demuxer).transport_error ≡ true) × (received source little 6 calls_last ≡ [])
Reach-halted_example = Reach-halted source little 6 ending ended calls_last refl

abbrev all_coming : Demuxer source
all_coming = shared (hello_bytes ++ pose_bytes)

abbrev all_done : Demuxer source
all_done = record (shared []) { delivered = (1, pose) ∷ [] }

loop_ran : receive_loop source little 1 6 all_coming ≡ done all_done
unfolding receive_loop receive_hello_message check_hello get_control_message receive_rounds
    receive_round handle_packet dispatch receive_packet receive_header receive_data read_bytes
    load_u32 ntohl preallocated get_data_size lookup insert underlying
loop_ran = refl

loop_as_run :
    Reach source little 6
      (start source all_coming)
      (record { demuxer = all_done; phase = loop_phase false })
loop_as_run = receive_loop_runs source little 6 1 all_coming all_done loop_ran
