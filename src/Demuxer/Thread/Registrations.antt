-- ===== src/Demuxer/Thread/Registrations.antt =====
-- Who is called, through every interleaving of the receive thread with threads that subscribe and
-- unsubscribe.
use packetcomms.Base.{ℕ, ◌≡◌, ◌≢◌, inl, inr, sym, ap, List, [], ◌∷◌, ◌++◌, done, >>=-eq-done, arith}
use packetcomms.Wire.{Endian}
use packetcomms.IdManager.{to_string}
use packetcomms.ComPacket.{ComPacket}
use packetcomms.Subscribers.{Subscriber, lookup, insert, count, remove_one}
use packetcomms.Transport.{Reader}
use packetcomms.Demuxer.{Demuxer, signal_transport_error, handle_control_message, unsubscribe}
use packetcomms.Demuxer.Subscriptions.{
  IsUnique, times, times-insert, subscribe_lem, unsubscribe_lem,
}
use packetcomms.Demuxer.Thread.{
  System, open_queue, unblock, cut_off, call, Step, greets, gets_nothing, gets_control, gets, calls,
  unlocks, exits, subscribes, unsubscribes, destroys, unblocks, interrupts, Reach, here, next,
}
use packetcomms.Demuxer.Thread.Calls.{Keeps, receive_packet-Keeps, receive_hello_message-Keeps}

removed_some : (a : ℕ) (q q' : List Subscriber) → remove_one a q ≡ done q' → count a q ≢ 0
unfolding remove_one
removed_some a q q' h e = absurd (ground arith)

-- An unsubscribe that returns had one registration to remove, where none is doubled.
pub unsubscribe_cases :
    (r : Reader) (d d' : Demuxer r) (x : Subscriber)
    → IsUnique d
    → unsubscribe r d x ≡ done d'
    → (times d x.type x.address ≡ 1)
      × IsUnique d'
      × (d'.next_address ≡ d.next_address)
      × ((j a : ℕ) → a ≢ x.address → times d' j a ≡ times d j a)
      × (d'.delivered ≡ d.delivered)
      × (times d' x.type x.address ≡ 0)
      × ((j : ℕ) → j ≢ x.type → times d' j x.address ≡ times d j x.address)
unfolding unsubscribe
unsubscribe_cases r d d' x v h =
    let a = >>=-eq-done (to_string d.packet_ids x.type) _ h in
    let b = >>=-eq-done (remove_one x.address (lookup x.type d.subscribers)) _ a.2 in
    let some = removed_some x.address (lookup x.type d.subscribers) b.0 b.1 in
    let one : times d x.type x.address ≡ 1 = omega (arith, some, v.once x.type x.address) in
    let u = unsubscribe_lem r d x a.0 v a.1 one in
    let same : u.0 ≡ d' = cc (u.1, h) in
    let made : record d { subscribers = insert x.type b.0 d.subscribers } ≡ d' = cc (b.2) in
    (
      one,
      rw (← same) u.2,
      sym (ap (λ (y : Demuxer r). y.next_address) made),
      (λ j i n. rw (← same) (u.4 j i (inl n))),
      sym (ap (λ (y : Demuxer r). y.delivered) made),
      rw (← same) u.3,
      (λ j n. rw (← same) (u.4 j x.address (inr n))),
    )

IsUnique-Keeps : (r : Reader) (d d' : Demuxer r) → Keeps d d' → IsUnique d → IsUnique d'
IsUnique-Keeps r d d' k v = record {
  once = λ j a. rw (k.subscribers) (v.once j a);
  fresh = λ j a i. rw (k.subscribers) (v.fresh j a (rw (k.next_address) at i));
}

pub times-open_queue :
    (r : Reader) (d : Demuxer r) (p : ComPacket) (k a : ℕ)
    → times (open_queue r p d) k a ≡ times d k a
unfolding open_queue
times-open_queue r d p k a =
    ground (arith, times-insert r d (lookup p.type d.subscribers) p.type k a)

module _ (r : Reader) (host : Endian) (fuel : ℕ) where
  -- The packets for subscribers that a step takes from the transport, and those of a run.
  unfoldable pub received_by : {s t : System r} → Step r host fuel s t → List ComPacket
  received_by (gets d p i c e n q) = p ∷ []
  received_by (gets_control d p i c e n q) = []
  received_by (gets_nothing d i c e q) = []
  received_by (greets d i e q) = []
  received_by (calls p x todo i q) = []
  received_by (unlocks p i q) = []
  received_by (exits i e q) = []
  received_by (subscribes name d x f e q) = []
  received_by (unsubscribes x d f e q) = []
  received_by (destroys q) = []
  received_by (unblocks q) = []
  received_by (interrupts n ms x i c e q) = []

  unfoldable pub received : {s t : System r} → Reach r host fuel s t → List ComPacket
  unfolding received_by
  received here = []
  received (next run st) = received run ++ received_by st

  -- No step unsubscribes the object.
  abbrev pub StaysBy : {s t : System r} → ℕ → Step r host fuel s t → Type 0
  StaysBy a (unsubscribes x d f e q) = x.address ≢ a
  StaysBy a _ = Unit {0}

  abbrev pub Stays : {s t : System r} → ℕ → Reach r host fuel s t → Type 0
  Stays a here = Unit {0}
  Stays a (next run st) = Stays a run × StaysBy a st

  pub Step-IsUnique :
      (s t : System r) → Step r host fuel s t → IsUnique s.demuxer → IsUnique t.demuxer
  Step-IsUnique s t (greets d i e q) v =
      rw q
        (IsUnique-Keeps r s.demuxer d (receive_hello_message-Keeps r host fuel _ s.demuxer d e) v)
  Step-IsUnique s t (gets_nothing d i c e q) v =
      rw q (IsUnique-Keeps r s.demuxer d (receive_packet-Keeps r host fuel _ s.demuxer d _ e) v)
  Step-IsUnique s t (gets_control d p i c e n q) v = rw q (
      unfold handle_control_message in
      IsUnique-Keeps r s.demuxer d (receive_packet-Keeps r host fuel _ s.demuxer d _ e) v)
  Step-IsUnique s t (gets d p i c e n q) v =
      let u = IsUnique-Keeps r s.demuxer d (receive_packet-Keeps r host fuel _ s.demuxer d _ e) v in
      rw q (record {
        once = λ j a. rw (times-open_queue r d p j a) (u.once j a);
        fresh = λ j a l. rw (times-open_queue r d p j a) (u.fresh j a (unfold open_queue in l));
      })
  Step-IsUnique s t (calls p x todo i q) v =
      rw q (unfold call in record { once = v.once; fresh = v.fresh })
  Step-IsUnique s t (unlocks p i q) v = rw q v
  Step-IsUnique s t (exits i e q) v = rw q v
  Step-IsUnique s t (subscribes name d x f e q) v =
      rw q ((subscribe_lem r s.demuxer d name x v e).0)
  Step-IsUnique s t (unsubscribes x d f e q) v = rw q ((unsubscribe_cases r s.demuxer d x v e).1)
  Step-IsUnique s t (destroys q) v =
      rw q (unfold signal_transport_error in record { once = v.once; fresh = v.fresh })
  Step-IsUnique s t (unblocks q) v =
      rw q (unfold unblock in record { once = v.once; fresh = v.fresh })
  Step-IsUnique s t (interrupts n ms x i c e q) v =
      rw q (unfold cut_off in record { once = v.once; fresh = v.fresh })
