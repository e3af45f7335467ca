-- ===== src/Muxer/Thread/Fifo.antt =====
-- From posting to the wire, through every interleaving: nothing is lost, doubled or reordered within
-- a type.
use packetcomms.Base.{
  ℕ, ◌≡◌, refl, sym, ap, ◌∙◌, subst, String, List, [], ◌∷◌, ◌++◌, append_assoc, append-nil, false,
  Bool-cases, inl, inr, done, >>=-eq-done, arith,
}
use packetcomms.Wire.{Endian}
use packetcomms.ComPacket.{ComPacket, from_buffer}
use packetcomms.IdManager.{to_id, new_id_manager, control_string}
use packetcomms.ControlMessage.{ControlMessage, hello, heart_beat, underlying}
use packetcomms.Frame.{frames}
use packetcomms.TxQueues.{queue, in_order, Visits}
use packetcomms.TxQueues.Laws.{queue-emplace}
use packetcomms.TxQueues.Types.{
  of_type, IsTyped, of_type-append, emplace-IsTyped, cleared-IsTyped, of_type-visit,
}
use packetcomms.Transport.{Writer, WriterLaws}
use packetcomms.Muxer.{Muxer, new_muxer, shut_down, emplace_packet, send_control_message, send_pass}
use packetcomms.Muxer.Pass.{frames-append}
use packetcomms.Muxer.Sent.{send_pass_sent}
use packetcomms.Muxer.Thread.{
  timeout, no_timeout, System, start, unblock, woken, Step, posts, destroys, unblocks, greets,
  locks, exits, waits, sends, wakes, Reach, here, next,
}
use packetcomms.Muxer.Thread.Invariant.{emplace_packet_cases, done_injective}
use packetcomms.Muxer.Thread.Shutdown.{untouched, Step-IsHalted}

module _ (w : Writer) where
  -- The packet that a post of these bytes under this name makes, if the name is known.
  unfoldable pub packet_of : Muxer w → String → List ℕ → List ComPacket
  packet_of m name bytes = elim (to_id m.packet_ids name) [
    | done k ↦ from_buffer k bytes ∷ []
    | _ ↦ []
  ]

  abbrev pub control_of : Muxer w → ControlMessage → List ComPacket
  control_of m msg = packet_of m control_string (underlying msg ∷ [])

module _ (w : Writer) (host : Endian) (fuel : ℕ) where
  -- What a step posts, and all that a run posts, in the order in which the posts took the lock.
  unfoldable pub posted_by : {s t : System w} → Step w host fuel s t → List ComPacket
  posted_by {s} (posts name bytes m free e q) = packet_of w s.muxer name bytes
  posted_by {s} (greets m p e q) = control_of w s.muxer hello
  posted_by {s} (wakes timeout order m₁ m p e v r q) = control_of w s.muxer heart_beat
  posted_by (wakes no_timeout order m₁ m p e v r q) = []
  posted_by (destroys free q) = []
  posted_by (unblocks q) = []
  posted_by (locks p q) = []
  posted_by (exits p e q) = []
  posted_by (waits p e d q) = []
  posted_by (sends order m p e d v r q) = []

  unfoldable pub posted : {s t : System w} → Reach w host fuel s t → List ComPacket
  unfolding posted_by
  posted here = []
  posted (next r st) = posted r ++ posted_by st

module _ (w : Writer) (laws : WriterLaws w) where
  open laws use {sent}

  -- From one state of a muxer to a later one, between which the packets `new` were posted: the
  -- transport has taken the frames of some packets, and of each type the packets taken and those that
  -- still wait are those that waited before and the new ones, in that order.
  pub record Flow (m m' : Muxer w) (new : List ComPacket) : Type 0 where
    pub taken : List ComPacket
    pub on_wire : sent m'.transport ≡ sent m.transport ++ frames taken
    pub fifo :
        (k : ℕ) → of_type k taken ++ queue k m'.tx_queues ≡ queue k m.tx_queues ++ of_type k new
    pub typed : IsTyped m'.tx_queues

  Flow-still :
      (m m' : Muxer w)
      → IsTyped m.tx_queues
      → sent m'.transport ≡ sent m.transport
      → m'.tx_queues ≡ m.tx_queues
      → Flow m m' []
  unfolding of_type frames
  Flow-still m m' v e q = record {
    taken = [];
    on_wire = e ∙ sym (append-nil (sent m.transport));
    fifo = λ k. rw q (sym (append-nil (queue k m.tx_queues)));
    typed = rw q v;
  }

  regroup :
      (t₁ t₂ qa qb qc xs ys : List ComPacket)
      → t₁ ++ qb ≡ qa ++ xs
      → t₂ ++ qc ≡ qb ++ ys
      → (t₁ ++ t₂) ++ qc ≡ qa ++ (xs ++ ys)
  regroup t₁ t₂ qa qb qc xs ys e₁ e₂ =
      append_assoc t₁ t₂ qc
      ∙ ap (◌++◌ t₁) e₂
      ∙ sym (append_assoc t₁ qb ys)
      ∙ ap (λ z. z ++ ys) e₁
      ∙ append_assoc qa xs ys

  Flow-append :
      (a b c : Muxer w) (xs ys : List ComPacket) → Flow a b xs → Flow b c ys → Flow a c (xs ++ ys)
  Flow-append a b c xs ys f g = record {
    taken = f.taken ++ g.taken;
    on_wire =
        g.on_wire
        ∙ rw f.on_wire (
            append_assoc (sent a.transport) _ _
            ∙ ap (◌++◌ (sent a.transport)) (sym (frames-append f.taken g.taken)));
    fifo = λ k.
        rw (of_type-append k f.taken g.taken, of_type-append k xs ys)
          (regroup (of_type k f.taken) _ _ (queue k b.tx_queues) _ _ _ (f.fifo k) (g.fifo k));
    typed = g.typed;
  }

  pub packet_of_known :
      (m : Muxer w) (name : String) (bytes : List ℕ) (k : ℕ)
      → to_id m.packet_ids name ≡ done k
      → packet_of w m name bytes ≡ from_buffer k bytes ∷ []
  unfolding packet_of
  packet_of_known m name bytes k e = rw (e, packet_of) refl

  Flow-post :
      (m m' : Muxer w) (name : String) (bytes : List ℕ)
      → emplace_packet w m name bytes ≡ done m'
      → IsTyped m.tx_queues
      → Flow m m' (packet_of w m name bytes)
  unfolding of_type frames
  Flow-post m m' name bytes e v =
      let c = emplace_packet_cases w m m' name bytes e in
      let p = from_buffer c.0 bytes in
      rw (packet_of_known m name bytes c.0 c.1, c.2)
        (record {
          taken = [];
          on_wire = sym (append-nil (sent m.transport));
          fifo = λ k.
              ground (arith, queue-emplace c.0 k p m.tx_queues, append-nil (queue k m.tx_queues));
          typed = emplace-IsTyped p m.tx_queues v;
        })

  Flow-pass :
      (host : Endian) (fuel : ℕ) (order : List ℕ) (m m' : Muxer w)
      → send_pass w host fuel order m ≡ done m'
      → m'.transport_error ≡ false
      → Visits order m.tx_queues
      → IsTyped m.tx_queues
      → Flow m m' []
  unfolding of_type
  Flow-pass host fuel order m m' h calm visit v =
      let s = send_pass_sent w laws host fuel order m m' visit.once h calm in
      record {
        taken = in_order order m.tx_queues;
        on_wire = s.0;
        fifo = λ k. let t = of_type-visit k order m.tx_queues v visit in rw (s.1, t.0, t.1) refl;
        typed = rw s.1 (cleared-IsTyped order m.tx_queues v);
      }

  Flow-control :
      (m m' : Muxer w) (msg : ControlMessage)
      → send_control_message w m msg ≡ done m'
      → IsTyped m.tx_queues
      → Flow m m' (control_of w m msg)
  unfolding send_control_message
  Flow-control m m' msg e v = Flow-post m m' control_string (underlying msg ∷ []) e v

  Flow-again : (a b c : Muxer w) (xs : List ComPacket) → Flow a b xs → Flow b c [] → Flow a c xs
  Flow-again a b c xs f g = subst (Flow a c) (append-nil xs) (Flow-append a b c xs [] f g)

module _ (w : Writer) (laws : WriterLaws w) (host : Endian) (fuel : ℕ) where
  open laws use {sent}

  Step-Flow :
      (s t : System w) (st : Step w host fuel s t)
      → (t.muxer).transport_error ≡ false
      → IsTyped (s.muxer).tx_queues
      → Flow w laws s.muxer t.muxer (posted_by w host fuel st)
  unfolding posted_by
  Step-Flow s t (posts name bytes m free e q) calm v =
      rw q (Flow-post w laws s.muxer m name bytes e v)
  Step-Flow s t (destroys free q) calm v =
      rw q (Flow-still w laws s.muxer _ v (unfold shut_down in refl) (unfold shut_down in refl))
  Step-Flow s t (unblocks q) calm v = rw q (
      Flow-still w laws s.muxer (unblock w s.muxer) v
        (unfold unblock in laws.blocking_sent (s.muxer).transport false) (unfold unblock in refl))
  Step-Flow s t (greets m p e q) calm v = rw q (Flow-control w laws s.muxer m hello e v)
  Step-Flow s t (locks p q) calm v = rw q (Flow-still w laws s.muxer s.muxer v refl refl)
  Step-Flow s t (exits p e q) calm v = rw q (Flow-still w laws s.muxer s.muxer v refl refl)
  Step-Flow s t (waits p e d q) calm v = rw q (Flow-still w laws s.muxer s.muxer v refl refl)
  Step-Flow s t (sends order m p e d visit r q) calm v =
      rw q (Flow-pass w laws host fuel order s.muxer m r (rw q at calm) visit v)
  Step-Flow s t (wakes timeout order m₁ m p e visit r q) calm v =
      let f = Flow-control w laws s.muxer m₁ heart_beat (unfold woken in e) v in
      rw q (
        Flow-again w laws s.muxer m₁ m _ f
          (Flow-pass w laws host fuel order m₁ m r (rw q at calm) visit f.typed))
  Step-Flow s t (wakes no_timeout order m₁ m p e visit r q) calm v =
      let same : s.muxer ≡ m₁ = unfold woken in cc in
      rw (q, same) (Flow-pass w laws host fuel order m₁ m r (rw q at calm) visit (rw same at v))

  pub Reach-Flow :
      (s t : System w) (r : Reach w host fuel s t)
      → (t.muxer).transport_error ≡ false
      → IsTyped (s.muxer).tx_queues
      → Flow w laws s.muxer t.muxer (posted w host fuel r)
  unfolding posted
  Reach-Flow s t here calm v = Flow-still w laws s.muxer s.muxer v refl refl
  Reach-Flow s t (next {t = u} r st) calm v =
      let before : (u.muxer).transport_error ≡ false = elim (Bool-cases (u.muxer).transport_error) [
        | inl e ↦ cc ((Step-IsHalted w host fuel (u.muxer).transport u t st (e, untouched)).0)
        | inr e ↦ e
      ] in
      let f = Reach-Flow s u r before v in
      Flow-append w laws s.muxer u.muxer t.muxer _ _ f (Step-Flow u t st calm f.typed)

  pub new_muxer_empty :
      (names : List String) (x : w.State) (m : Muxer w)
      → new_muxer w names x ≡ done m
      → (m.tx_queues ≡ []) × (sent m.transport ≡ sent x)
  unfolding new_muxer
  new_muxer_empty names x m made =
      let r = >>=-eq-done (new_id_manager names) _ made in
      let e = sym (done_injective r.2) in rw e (refl, laws.blocking_sent x false)

  -- Let a muxer be constructed, and its threads run by any interleaving to a state without a transport
  -- error. Then the transport has taken the frames of some packets, and of each type the packets
  -- taken and after them those that still wait are exactly the packets that were posted of it, in the
  -- order of the posts; a Hello and the HeartBeats count as posted where the send thread sends them.
  pub Reach-fifo :
      (names : List String) (x : w.State) (m : Muxer w) (t : System w)
      (run : Reach w host fuel (start w m) t)
      → new_muxer w names x ≡ done m
      → (t.muxer).transport_error ≡ false
      → (taken : List ComPacket) × (sent (t.muxer).transport ≡ sent x ++ frames taken)
        × ((k : ℕ)
            → of_type k taken ++ queue k (t.muxer).tx_queues ≡ of_type k (posted w host fuel run))
  Reach-fifo names x m t run made calm =
      let empty = new_muxer_empty names x m made in
      let f = Reach-Flow (start w m) t run calm (rw empty.0 tt) in
      (
        f.taken,
        f.on_wire ∙ ap (λ z. z ++ frames f.taken) empty.1,
        λ k.
            f.fifo k
            ∙ ap (λ z. queue k z ++ of_type k (posted w host fuel run)) empty.0
            ∙ (unfold queue in refl),
      )
