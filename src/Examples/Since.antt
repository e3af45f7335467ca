-- ===== src/Examples/Since.antt =====
-- The threads of a muxer and of a demuxer at the two ends of a connection, with a client that subscribes
-- when the receive thread has already begun.
use packetcomms.Base.{◌≡◌, refl, List, [], ◌∷◌, ◌++◌, true, done, All, arith}
use packetcomms.Wire.{little, big, load_u32, ntohl}
use packetcomms.IdManager.{to_id, find}
use packetcomms.ComPacket.{ComPacket, preallocated, get_data_size}
use packetcomms.ControlMessage.{underlying}
use packetcomms.Frame.{IsSendable}
use packetcomms.Subscribers.{lookup, insert}
use packetcomms.TxQueues.Types.{of_type}
use packetcomms.Transport.Script.{sink, sink_laws, source, source_laws}
use packetcomms.Muxer.Thread.{
  greeted, ready, posts, greets as greets_peer, locks, sends, unblock as unblock_sender,
  unblocks as unblocks_sender, Reach as SenderReach, here as sender_here, next as sender_next,
}
use packetcomms.Muxer.Thread.Fifo.{posted, posted_by, packet_of}
use packetcomms.Demuxer.{
  subscribe, read_bytes, receive_data, receive_header, receive_packet, hello_timeout, check_hello,
  get_control_message, receive_hello_message,
}
use packetcomms.Demuxer.Thread.{
  idle, delivering, System, open_queue, call, unblock, unblocks, greets, gets, calls, Reach, here,
  next,
}
use packetcomms.Demuxer.Thread.Registrations.{received}
use packetcomms.Demuxer.Thread.Handed.{handed}
use packetcomms.Delivery.Since.{new_sender, new_receiver, called_since}
use packetcomms.Examples.Ends.{
  pose, pose_bytes, all_bytes, fresh, one_posted, two_posted, two_sent, sender_done, client, alone,
  listening, fresh_made, pose_emplaced, hello_emplaced, both_sent, visits, alone_made, pose_got,
}

-- The constructor's setBlocking comes when the send thread has posted its Hello.
all_sent : SenderReach sink little 6 (new_sender sink fresh fresh.transport) sender_done
unfolding unblock_sender
all_sent =
    let first : SenderReach sink little 6 (new_sender sink fresh fresh.transport)
        (record (new_sender sink fresh fresh.transport) { muxer = one_posted; notified = true }) =
      sender_next sender_here (posts "pose" (7 ∷ []) one_posted (λ e. cc) pose_emplaced refl) in
    let second : SenderReach sink little 6 (new_sender sink fresh fresh.transport)
        (record { muxer = two_posted; phase = greeted; notified = true }) =
      sender_next first (greets_peer two_posted refl hello_emplaced refl) in
    let third : SenderReach sink little 6 (new_sender sink fresh fresh.transport)
        (record { muxer = two_posted; phase = greeted; notified = true }) =
      sender_next second (unblocks_sender refl) in
    let fourth : SenderReach sink little 6 (new_sender sink fresh fresh.transport)
        (record { muxer = two_posted; phase = ready; notified = true }) =
      sender_next third (locks refl refl) in
    sender_next fourth (sends (1 ∷ 2 ∷ []) two_sent refl refl refl visits both_sent refl)

hello_came :
    receive_hello_message source big 6 (alone all_bytes) hello_timeout ≡ done (alone pose_bytes)
unfolding receive_hello_message check_hello get_control_message receive_packet receive_header
    receive_data read_bytes load_u32 ntohl preallocated get_data_size underlying
hello_came = refl

abbrev greeted_alone : System source
greeted_alone = record { demuxer = alone pose_bytes; phase = idle }

alone_first :
    Reach source big 6
      (new_receiver source (alone all_bytes) (alone all_bytes).transport)
      greeted_alone
unfolding unblock
alone_first =
    let first : Reach source big 6
        (new_receiver source (alone all_bytes) (alone all_bytes).transport)
        (new_receiver source (alone all_bytes) (alone all_bytes).transport) =
      next here (unblocks refl) in
    next first (greets (alone pose_bytes) refl hello_came refl)

subscribed : subscribe source (alone pose_bytes) "pose" ≡ done (listening pose_bytes, client)
unfolding subscribe to_id find lookup insert
subscribed = refl

abbrev client_called : System source
client_called = record {
  demuxer = record (listening []) { delivered = (1, pose) ∷ [] };
  phase = delivering pose [];
}

then_called :
    Reach source big 6 (record greeted_alone { demuxer = listening pose_bytes }) client_called
unfolding open_queue lookup insert call
then_called =
    let first : Reach source big 6 (record greeted_alone { demuxer = listening pose_bytes })
        (record { demuxer = listening []; phase = delivering pose (client ∷ []) }) =
      next here (gets (listening []) pose refl refl pose_got (λ e. cc) refl) in
    next first (calls pose client [] refl refl)

sent-IsSendable : All IsSendable (posted sink little 6 all_sent)
unfolding all_sent posted posted_by packet_of to_id find underlying
sent-IsSendable = (
  record { valid = λ e. cc; type_fits = omega arith; size_fits = omega arith },
  (record { valid = λ e. cc; type_fits = omega arith; size_fits = omega arith }, tt),
)

called_since_example :
    (later : List ComPacket) × (of_type 2 (posted sink little 6 all_sent)
      ≡ of_type 2 (received source big 6 alone_first)
        ++ (handed source big 6 1 client_called ++ later))
unfolding then_called
called_since_example =
    called_since sink sink_laws source source_laws little big 6 6 ("pose" ∷ []) ("pose" ∷ [])
      fresh.transport fresh.transport fresh sender_done all_sent (alone all_bytes).transport
      (alone all_bytes).transport (alone all_bytes) (listening pose_bytes) greeted_alone "pose"
      client client_called alone_first then_called fresh_made refl refl sent-IsSendable alone_made
      refl (λ p todo e. cc) subscribed (λ e. cc) ((tt, tt), tt)
