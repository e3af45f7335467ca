-- ===== src/Delivery/Threads.antt =====
-- Both threads at once: what any threads post to a PacketMuxer against what a subscriber of the
-- PacketDemuxer at the other end is called with, through every interleaving at either end.
use packetcomms.Base.{
  true, ℕ, ◌≡◌, ◌≢◌, inl, inr, refl, sym, ap, ◌∙◌, String, List, [], ◌∷◌, ◌++◌, append_assoc, false,
  Bool-cases, ◌==◌, done, >>=-eq-done, All, All-append_left, arith,
}
use packetcomms.Wire.{Endian}
use packetcomms.IdManager.{new_id_manager, control_packet}
use packetcomms.ComPacket.{ComPacket}
use packetcomms.Frame.{frames, IsSendable}
use packetcomms.TxQueues.{queue}
use packetcomms.TxQueues.Types.{of_type}
use packetcomms.Subscribers.{Subscriber, lookup, count}
use packetcomms.Transport.{Writer, WriterLaws, Reader, ReaderLaws}
use packetcomms.Muxer.{Muxer, new_muxer}
use packetcomms.Muxer.Thread.{System as Sender, Reach as SenderReach, start as start_sender}
use packetcomms.Muxer.Thread.Fifo.{posted, Reach-fifo}
use packetcomms.Demuxer.{Demuxer, new_demuxer, subscribe}
use packetcomms.Demuxer.Subscriptions.{IsUnique, subscribe_cases}
use packetcomms.Demuxer.Thread.{System, Reach, start}
use packetcomms.Demuxer.Thread.Calls.{calls_to}
use packetcomms.Demuxer.Thread.Registrations.{received, Stays}
use packetcomms.Demuxer.Thread.Handed.{handed}
use packetcomms.Demuxer.Thread.Once.{called_exactly_once}
use packetcomms.Demuxer.Thread.Arrivals.{received_in_order}

of_type-IsSendable :
    (k : ℕ) (ps : List ComPacket) → All IsSendable ps → All IsSendable (of_type k ps)
unfolding of_type
of_type-IsSendable k [] a = tt
of_type-IsSendable k (p ∷ ps) a = elim (Bool-cases (p.type == k)) [
  | inl e ↦ rw e (a.0, of_type-IsSendable k ps a.1)
  | inr e ↦ rw e (of_type-IsSendable k ps a.1)
]

-- Every packet is among those of its type.
All-IsSendable :
    (ps : List ComPacket) → ((k : ℕ) → All IsSendable (of_type k ps)) → All IsSendable ps
unfolding of_type
All-IsSendable [] a = tt
All-IsSendable (p ∷ ps) a = (first, All-IsSendable ps later)
  where
    own : (p.type == p.type) ≡ true
    own = ground arith

    first : IsSendable p
    first = (rw own at (a p.type)).0

    later : (k : ℕ) → All IsSendable (of_type k ps)
    later k = elim (Bool-cases (p.type == k)) [ inl e ↦ (rw e at (a k)).1 | inr e ↦ rw e at (a k) ]

pub new_demuxer_empty :
    (r : Reader) (names : List String) (x : r.State) (d : Demuxer r)
    → new_demuxer r names x ≡ done d
    → IsUnique d × (d.delivered ≡ [])
unfolding new_demuxer lookup count
new_demuxer_empty r names x d h =
    let a = >>=-eq-done (new_id_manager names) _ h in
    let empty : d.subscribers ≡ [] = cc (a.2) in
    let quiet : d.delivered ≡ [] = cc (a.2) in
    (record { once = λ k b. rw empty (omega arith); fresh = λ k b i. rw empty refl }, quiet)

module _ (w : Writer) (wl : WriterLaws w) (r : Reader) (rl : ReaderLaws r)
    (sender receiver : Endian) (fuel fuel' : ℕ) where
  -- The packets that the transport has taken are sendable, since those posted are.
  pub taken-IsSendable :
      (taken all : List ComPacket) (waiting : ℕ → List ComPacket)
      → ((k : ℕ) → of_type k taken ++ waiting k ≡ of_type k all)
      → All IsSendable all
      → All IsSendable taken
  taken-IsSendable taken all waiting e a = All-IsSendable taken (λ k.
      All-append_left IsSendable (of_type k taken) (waiting k)
        (rw (← (e k)) at (of_type-IsSendable k all a)))

  -- Let a muxer be constructed over a transport that has taken nothing, and its threads run by any
  -- interleaving to a state without a transport error, and let the format carry every packet posted.
  -- At the other end, let a demuxer be constructed and a client subscribe, for a type other than the
  -- control packets', before the receive thread begins; with all the bytes that the muxer's transport
  -- has taken on their way, let the threads there run by any interleaving in which the client is not
  -- unsubscribed. What the client was called with, and is about to be called with, is the first
  -- packets of its type that were posted at the muxer, in the order in which they were posted: none
  -- is lost, doubled, altered or overtaken by another of its type.
  pub called_as_posted :
      (names names' : List String) (x₀ : w.State) (y₀ : r.State) (m : Muxer w) (t : Sender w)
      (run : SenderReach w sender fuel (start_sender w m) t) (d d' : Demuxer r) (name : String)
      (x : Subscriber) (u : System r) (run' : Reach r receiver fuel' (start r d') u)
      → new_muxer w names x₀ ≡ done m
      → wl.sent x₀ ≡ []
      → (t.muxer).transport_error ≡ false
      → All IsSendable (posted w sender fuel run)
      → new_demuxer r names' y₀ ≡ done d
      → subscribe r d name ≡ done (d', x)
      → x.type ≢ control_packet
      → rl.pending d'.transport ≡ wl.sent (t.muxer).transport
      → Stays r receiver fuel' x.address run'
      → (later : List ComPacket) × (of_type x.type (posted w sender fuel run)
          ≡ handed r receiver fuel' x.address u ++ later)
  called_as_posted names names' x₀ y₀ m t run d d' name x u run' made unused calm valid made' joined
        user arriving stays =
      let fifo = Reach-fifo w wl sender fuel names x₀ m t run made calm in
      let wire : wl.sent (t.muxer).transport ≡ frames fifo.0 =
        fifo.1 ∙ ap (λ z. z ++ frames fifo.0) unused in
      let got =
        received_in_order r rl receiver fuel' fifo.0 (start r d') u run' x.type
          (taken-IsSendable fifo.0 _ (λ k. queue k (t.muxer).tx_queues) fifo.2 valid)
          (arriving ∙ wire) user in
      let new = new_demuxer_empty r names' y₀ d made' in
      let c = subscribe_cases r d d' name x joined in
      let quiet : d'.delivered ≡ [] = ap (λ (y : Demuxer r). y.delivered) c.2 ∙ new.1 in
      let once =
        called_exactly_once r receiver fuel' d d' name x (start r d') u run' new.0 joined refl
          (λ p todo e. cc) stays in
      let all : handed r receiver fuel' x.address u
          ≡ of_type x.type (received r receiver fuel' run') =
        once ∙ rw quiet (unfold calls_to in refl) in
      (
        got.0 ++ queue x.type (t.muxer).tx_queues,
        sym (fifo.2 x.type)
            ∙ ap (λ z. z ++ queue x.type (t.muxer).tx_queues) got.1
            ∙ append_assoc (of_type x.type (received r receiver fuel' run')) got.0 _
            ∙ ap (λ z. z ++ (got.0 ++ queue x.type (t.muxer).tx_queues)) (sym all),
      )
