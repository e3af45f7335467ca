-- ===== src/Serialisation/Typed.antt =====
-- Values from one end of a connection to the other: serialise to a muxer, and deserialise in the
-- callback of a subscriber of the demuxer.
use packetcomms.Base.{
  ℕ, ◌+◌, ◌^◌, ◌≤◌, ◌<◌, ◌≡◌, ◌≢◌, inl, inr, refl, String, List, [], ◌∷◌, true, false, ◌==◌, done,
  Distinct, In, In-append_left, In-append_right, In-map, arith,
}
use packetcomms.Wire.{Endian}
use packetcomms.IdManager.{to_id, control_packet}
use packetcomms.ComPacket.{ComPacket, from_buffer}
use packetcomms.Frame.{frame}
use packetcomms.VectorStream.{new_output, get}
use packetcomms.TxQueues.{TxQueues, queue, in_order, AllQueued}
use packetcomms.TxQueues.Laws.{queue-emplace}
use packetcomms.Subscribers.{Subscriber, lookup}
use packetcomms.Transport.{Writer, WriterLaws, Reader, ReaderLaws}
use packetcomms.Muxer.{Muxer, send_pass}
use packetcomms.Muxer.Thread.Hello.{hello_packet}
use packetcomms.Muxer.Thread.Invariant.{emplace_packet_cases}
use packetcomms.Demuxer.{Demuxer, receive_loop, hello_timeout}
use packetcomms.Demuxer.Deliver.{calls, all_calls}
use packetcomms.Delivery.{IsCarried, delivery}
use packetcomms.Serialisation.{Args, Values, serialise, serialise_packet, deserialise_packet}
use packetcomms.Serialisation.RoundTrip.{Keeps, deserialise_packet_lem}

In-in_order :
    (k : ℕ) (p : ComPacket) (order : List ℕ) (t : TxQueues)
    → In k order
    → In p (queue k t)
    → In p (in_order order t)
unfolding in_order
In-in_order k p [] t i here = absurd i
In-in_order k p (j ∷ order) t (inl e) here =
    In-append_left p (queue j t) (in_order order t) (rw e here)
In-in_order k p (j ∷ order) t (inr i) here =
    In-append_right p (queue j t) (in_order order t) (In-in_order k p order t i here)

In-all_calls :
    (q : ℕ → List Subscriber) (x : Subscriber) (p : ComPacket) (ps : List ComPacket)
    → p.type ≢ control_packet
    → In x (q p.type)
    → In p ps
    → In (x.address, p) (all_calls q ps)
unfolding all_calls
In-all_calls q x p [] n i j = absurd j
In-all_calls q x p (y ∷ ps) n i (inl e) =
    let o : (p.type == control_packet) ≡ false = ground arith in
    let called : In (x.address, p) (calls q p) =
      rw o (In-map (λ (z : Subscriber). (z.address, p)) x (q p.type) i) in
    rw e (In-append_left (x.address, p) (calls q p) (all_calls q ps) called)
In-all_calls q x p (y ∷ ps) n i (inr j) =
    In-append_right (x.address, p) (calls q y) (all_calls q ps) (In-all_calls q x p ps n i j)

module _ (w : Writer) where
  serialised_queued :
      (args : Args) (vs : Values args) (m m' : Muxer w) (id : String) (k : ℕ)
      → to_id m.packet_ids id ≡ done k
      → serialise_packet w args m id vs ≡ done m'
      → In (from_buffer k (get (serialise args vs new_output))) (queue k m'.tx_queues)
  unfolding serialise_packet
  serialised_queued args vs m m' id k known h =
      let c = emplace_packet_cases w m m' id _ h in
      let same : c.0 ≡ k = cc (c.1, known) in
      let p = from_buffer k (get (serialise args vs new_output)) in
      let self : (k == k) ≡ true = ground arith in
      rw (c.2, same, queue-emplace k k p m.tx_queues, self)
        (In-append_right p (queue k m.tx_queues) (p ∷ []) (inl refl))

module _ (w : Writer) (wl : WriterLaws w) (r : Reader) (rl : ReaderLaws r) where
  -- Let values for whose types the archives keep cereal's promise be serialised to a muxer under a
  -- name whose number is not the control packets', in the circumstances in which all that waits in the
  -- muxer is delivered: Hello sent before and nothing else, one pass over the queues, this packet's
  -- among them, without an error, all packets carried by the format, and a demuxer without an error
  -- that gets all these bytes, the first in time, with enough fuel. Then the receive loop calls a
  -- subscriber of that number with a packet from which a deserialise gives those values.
  pub typed_delivery :
      (args : Args) (vs : Values args) (sender receiver : Endian) (fuel fuel' n : ℕ)
      (order : List ℕ) (m₀ m m' : Muxer w) (d : Demuxer r) (id : String) (k : ℕ) (x : Subscriber)
      → Keeps args vs
      → to_id m₀.packet_ids id ≡ done k
      → k ≢ control_packet
      → serialise_packet w args m₀ id vs ≡ done m
      → In k order
      → In x (lookup k d.subscribers)
      → wl.sent m.transport ≡ frame hello_packet
      → m.num_sent < 2 ^ 32
      → Distinct order
      → AllQueued (IsCarried n) m.tx_queues
      → 1 ≤ n
      → wl.patience m.transport + 4 + n ≤ fuel
      → send_pass w sender fuel order m ≡ done m'
      → m'.transport_error ≡ false
      → d.transport_error ≡ false
      → rl.pending d.transport ≡ wl.sent m'.transport
      → (r.ready_for_reading d.transport hello_timeout).1 ≡ true
      → rl.patience d.transport + 4 + n ≤ fuel'
      → (rounds : ℕ) × (d' : Demuxer r) × (receive_loop r receiver rounds fuel' d ≡ done d')
        × (p : ComPacket) × In (x.address, p) d'.delivered
        × (deserialise_packet args p ≡ done vs)
  typed_delivery args vs sender receiver fuel fuel' n order m₀ m m' d id k x keeps known user posted
        visited listens said b o a one h run calm quiet carried ready h' =
      let all =
        delivery w wl r rl sender receiver fuel fuel' n order m m' d said b o a one h run calm quiet
          carried ready h' in
      let p = from_buffer k (get (serialise args vs new_output)) in
      let queued = serialised_queued w args vs m₀ m id k known posted in
      let sent = In-in_order k p order m.tx_queues visited queued in
      let made = In-all_calls (λ j. lookup j d.subscribers) x p _ user listens sent in
      (
        all.0,
        all.1,
        all.3,
        p,
        rw ((all.4).calls_made) (In-append_right (x.address, p) d.delivered _ made),
        deserialise_packet_lem args vs p keeps refl,
      )
