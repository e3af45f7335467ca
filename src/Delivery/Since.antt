-- ===== src/Delivery/Since.antt =====
-- Both ends from the start of their threads, with a subscriber that comes at any time.
use packetcomms.Base.{
  ℕ, ◌≡◌, ◌≢◌, refl, sym, ap, ◌∙◌, String, List, [], ◌++◌, append_assoc, append-nil, false, done,
  All, arith,
}
use packetcomms.Wire.{Endian}
use packetcomms.IdManager.{control_packet}
use packetcomms.ComPacket.{ComPacket}
use packetcomms.Frame.{frames, IsSendable}
use packetcomms.TxQueues.{queue}
use packetcomms.TxQueues.Types.{of_type, of_type-append}
use packetcomms.Subscribers.{Subscriber}
use packetcomms.Transport.{Writer, WriterLaws, Reader, ReaderLaws}
use packetcomms.Muxer.{Muxer, new_muxer}
use packetcomms.Muxer.Thread.{System as Sender, Reach as SenderReach, start as start_sender}
use packetcomms.Muxer.Thread.Fifo.{posted, Reach-Flow, new_muxer_empty}
use packetcomms.Demuxer.{Demuxer, new_demuxer, subscribe}
use packetcomms.Demuxer.Subscriptions.{IsUnique, subscribe_cases}
use packetcomms.Demuxer.Thread.{System, Reach, IsFree, pending_calls, start, next, subscribes}
use packetcomms.Demuxer.Thread.Calls.{calls_to}
use packetcomms.Demuxer.Thread.Registrations.{received, received_by, Stays}
use packetcomms.Demuxer.Thread.Handed.{handed, handed_free}
use packetcomms.Demuxer.Thread.Once.{called_exactly_once}
use packetcomms.Demuxer.Thread.Arrivals.{received_in_order}
use packetcomms.Demuxer.Thread.Fresh.{IsUncalled, Reach-IsUncalled, after, received-after}
use packetcomms.Delivery.Threads.{new_demuxer_empty, taken-IsSendable}

-- The threads are started by the constructors, on transports that were not touched yet.
abbrev pub new_sender : (w : Writer) → Muxer w → w.State → Sender w
new_sender w m x = start_sender w (record m { transport = x })

abbrev pub new_receiver : (r : Reader) → Demuxer r → r.State → System r
new_receiver r d y = start r (record d { transport = y })

-- The system once a client has subscribed.
abbrev pub joined : {r : Reader} → System r → Demuxer r → System r
joined s d = record s { demuxer = d }

module _ (w : Writer) (wl : WriterLaws w) (r : Reader) (rl : ReaderLaws r)
    (sender receiver : Endian) (fuel fuel' : ℕ) where
  sent_in_order :
      (names : List String) (x x' : w.State) (m : Muxer w) (t : Sender w)
      (run : SenderReach w sender fuel (new_sender w m x) t)
      → new_muxer w names x' ≡ done m
      → wl.sent x ≡ []
      → (t.muxer).transport_error ≡ false
      → (taken : List ComPacket) × (wl.sent (t.muxer).transport ≡ frames taken)
        × ((k : ℕ)
            → of_type k taken ++ queue k (t.muxer).tx_queues ≡ of_type k (posted w sender fuel run))
  sent_in_order names x x' m t run made unused calm =
      let empty = new_muxer_empty w wl sender fuel names x' m made in
      let f = Reach-Flow w wl sender fuel (new_sender w m x) t run calm (rw (empty.0) tt) in
      (
        f.taken,
        f.on_wire ∙ ap (λ z. z ++ frames f.taken) unused,
        λ k.
            f.fifo k
            ∙ ap (λ z. queue k z ++ of_type k (posted w sender fuel run)) empty.0
            ∙ (unfold queue in refl),
      )

  -- What one object is called with between its subscribe and a later state.
  since_joined :
      (names : List String) (y y' : r.State) (d d' : Demuxer r) (s : System r) (name : String)
      (x : Subscriber) (u : System r) (before : Reach r receiver fuel' (new_receiver r d y) s)
      (run : Reach r receiver fuel' (joined s d') u)
      → new_demuxer r names y' ≡ done d
      → IsFree r s
      → subscribe r s.demuxer name ≡ done (d', x)
      → Stays r receiver fuel' x.address run
      → handed r receiver fuel' x.address u ≡ of_type x.type (received r receiver fuel' run)
  since_joined names y y' d d' s name x u before run made free join stays =
      let new = new_demuxer_empty r names y' d made in
      let unique : IsUnique (record d { transport = y }) = record {
        once = (new.0).once;
        fresh = (new.0).fresh;
      } in
      let uncalled : IsUncalled r receiver fuel' (new_receiver r d y) =
        λ a h. rw (new.1) (unfold calls_to pending_calls in refl) in
      let v = Reach-IsUncalled r receiver fuel' (new_receiver r d y) s before unique uncalled in
      let c = subscribe_cases r s.demuxer d' name x join in
      let silent : calls_to x.address d'.delivered ≡ [] =
        ap (λ (z : Demuxer r). calls_to x.address z.delivered) c.2
        ∙ sym (handed_free r receiver fuel' x.address s free)
        ∙ v.1 x.address (omega (arith, c.1)) in
      called_exactly_once r receiver fuel' s.demuxer d' name x (joined s d') u run v.0 join refl
        free stays
      ∙ rw silent refl

  -- Let a muxer and a demuxer be constructed at the two ends of a connection whose transport has taken
  -- nothing, and let the format carry every packet posted. Let the muxer's threads run by any
  -- interleaving, from the start of the send thread in the constructor, to a state without a transport
  -- error, with the bytes that its transport has taken on their way to the demuxer. Let the demuxer's
  -- threads run by any interleaving, from the start of the receive thread in the constructor, to a state
  -- in which a client takes the lock and subscribes for a type other than the control packets', and
  -- then further, into the destructor or not, without an unsubscribe of that client. Then the packets of
  -- that type that were posted are, in the order in which they were posted: those that were received
  -- before the subscribe, then exactly those that the client was called with or is about to be called
  -- with, and then those that are not received yet.
  pub called_since :
      (names names' : List String) (x₀ x₁ : w.State) (m : Muxer w) (t : Sender w)
      (sending : SenderReach w sender fuel (new_sender w m x₀) t) (y₀ y₁ : r.State)
      (d d' : Demuxer r) (s : System r) (name : String) (x : Subscriber) (u : System r)
      (before : Reach r receiver fuel' (new_receiver r d y₀) s)
      (since : Reach r receiver fuel' (joined s d') u)
      → new_muxer w names x₁ ≡ done m
      → wl.sent x₀ ≡ []
      → (t.muxer).transport_error ≡ false
      → All IsSendable (posted w sender fuel sending)
      → new_demuxer r names' y₁ ≡ done d
      → rl.pending y₀ ≡ wl.sent (t.muxer).transport
      → IsFree r s
      → subscribe r s.demuxer name ≡ done (d', x)
      → x.type ≢ control_packet
      → Stays r receiver fuel' x.address since
      → (later : List ComPacket) × (of_type x.type (posted w sender fuel sending)
          ≡ of_type x.type (received r receiver fuel' before)
            ++ (handed r receiver fuel' x.address u ++ later))
  unfolding received_by
  called_since names names' x₀ x₁ m t sending y₀ y₁ d d' s name x u before since made unused calm
        valid made' arriving free join user stays =
      let fifo = sent_in_order names x₀ x₁ m t sending made unused calm in
      let upto = next before (subscribes name d' x free join refl) in
      let got =
        received_in_order r rl receiver fuel' fifo.0 (new_receiver r d y₀) u
          (after r receiver fuel' (new_receiver r d y₀) (joined s d') u upto since) x.type
          (taken-IsSendable w wl r rl sender receiver fuel fuel' fifo.0 _
            (λ k. queue k (t.muxer).tx_queues) fifo.2 valid)
          (arriving ∙ fifo.1) user in
      let seen = of_type x.type (received r receiver fuel' before) in
      let due = handed r receiver fuel' x.address u in
      let waiting = queue x.type (t.muxer).tx_queues in
      let upto_same : received r receiver fuel' upto ≡ received r receiver fuel' before =
        unfold received in append-nil (received r receiver fuel' before) in
      let all : of_type x.type (
            received r receiver fuel'
              (after r receiver fuel' (new_receiver r d y₀) (joined s d') u upto since))
          ≡ seen ++ due =
        ap (of_type x.type)
          (received-after r receiver fuel' (new_receiver r d y₀) (joined s d') u upto since)
        ∙ of_type-append x.type (received r receiver fuel' upto) (received r receiver fuel' since)
        ∙ rw
            (
              upto_same,
              since_joined names' y₀ y₁ d d' s name x u before since made' free join stays,
            )
            refl in
      (
        got.0 ++ waiting,
        sym (fifo.2 x.type)
            ∙ ap (λ z. z ++ waiting) (got.1 ∙ ap (λ z. z ++ got.0) all)
            ∙ append_assoc (seen ++ due) got.0 waiting
            ∙ append_assoc seen due (got.0 ++ waiting),
      )
