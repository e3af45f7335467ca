-- ===== src/Demuxer/Thread/Once.antt =====
-- An object from its subscribe to its unsubscribe, and after that.
use packetcomms.Base.{
  length, length-append, ℕ, ◌≡◌, ◌≢◌, inl, inr, refl, sym, ap, ◌∙◌, Bool-cases, String, List, [],
  ◌∷◌, ◌++◌, append_assoc, append-nil, ◌==◌, done, arith,
}
use packetcomms.Wire.{Endian}
use packetcomms.ComPacket.{ComPacket}
use packetcomms.Subscribers.{Subscriber, lookup}
use packetcomms.TxQueues.Types.{of_type}
use packetcomms.Transport.{Reader}
use packetcomms.Demuxer.{
  Demuxer, signal_transport_error, handle_control_message, subscribe, unsubscribe,
}
use packetcomms.Demuxer.Subscriptions.{IsUnique, subscribe_cases, times-subscribe, subscribe_lem}
use packetcomms.Demuxer.Thread.{
  Phase, idle, exited, delivering, System, pending_calls, IsFree, open_queue, unblock, cut_off,
  call, Step, greets, gets_nothing, gets_control, gets, calls, unlocks, exits, subscribes,
  unsubscribes, destroys, unblocks, interrupts, Reach, here, next,
}
use packetcomms.Demuxer.Thread.Calls.{
  receive_packet-Keeps, receive_hello_message-Keeps, calls_to, calls_to-append,
}
use packetcomms.Demuxer.Thread.Registrations.{
  unsubscribe_cases, received, StaysBy, Stays, Step-IsUnique,
}
use packetcomms.Demuxer.Thread.Handed.{Follows, handed, handed_free, Reach-handed}

module _ (r : Reader) (host : Endian) (fuel : ℕ) where
  subscribed-Follows :
      (d d' : Demuxer r) (name : String) (x : Subscriber)
      → IsUnique d
      → subscribe r d name ≡ done (d', x)
      → Follows r host fuel x.address x.type 1 d'
  subscribed-Follows d d' name x v h =
      let c = subscribe_cases r d d' name x h in
      record {
        exists = rw c.2 (omega (arith, c.1));
        at_most_once = omega arith;
        registered = λ j.
            times-subscribe r d d' name x j x.address h ∙ ground (arith, v.fresh j x.address, c.1);
      }

  -- Where no object is registered twice, let a thread subscribe while the receive thread does not hold
  -- the lock, and let all threads then run by any interleaving in which the new object is not
  -- unsubscribed. What the object was called with, together with the call of it that may be about to be
  -- made, is what it was called with before and then every packet of its type that was received since
  -- then, each once and in the order in which they were received.
  pub called_exactly_once :
      (d d' : Demuxer r) (name : String) (x : Subscriber) (s t : System r)
      (run : Reach r host fuel s t)
      → IsUnique d
      → subscribe r d name ≡ done (d', x)
      → s.demuxer ≡ d'
      → IsFree r s
      → Stays r host fuel x.address run
      → handed r host fuel x.address t
        ≡ calls_to x.address d'.delivered ++ of_type x.type (received r host fuel run)
  called_exactly_once d d' name x s t run v h e free stays =
      let u = (subscribe_lem r d d' name x v h).0 in
      let f = subscribed-Follows d d' name x v h in
      (Reach-handed r host fuel x.address x.type 1 s t run (rw e u) (rw e f) stays).2
      ∙ rw (handed_free r host fuel x.address s free, e) refl

  unsubscribed-Follows :
      (d d' : Demuxer r) (x : Subscriber)
      → IsUnique d
      → Follows r host fuel x.address x.type 1 d
      → unsubscribe r d x ≡ done d'
      → Follows r host fuel x.address x.type 0 d'
  unsubscribed-Follows d d' x v f h =
      let c = unsubscribe_cases r d d' x v h in
      record {
        exists = rw (c.2) f.exists;
        at_most_once = omega arith;
        registered = λ j. elim (Bool-cases (j == x.type)) [
          | inl e ↦ let e' : j ≡ x.type = ground arith in rw e' (ground (arith, c.5))
          | inr e ↦ let n : j ≢ x.type = ground arith in c.6 j n ∙ ground (arith, f.registered j)
        ];
      }

  -- An object that is not registered cannot be unsubscribed.
  absent_stays :
      (a k : ℕ) (s t : System r) (st : Step r host fuel s t)
      → IsUnique s.demuxer
      → Follows r host fuel a k 0 s.demuxer
      → StaysBy r host fuel a st
  absent_stays a k s t (greets d i e q) u v = tt
  absent_stays a k s t (gets_nothing d i c e q) u v = tt
  absent_stays a k s t (gets_control d p i c e n q) u v = tt
  absent_stays a k s t (gets d p i c e n q) u v = tt
  absent_stays a k s t (calls p x todo i q) u v = tt
  absent_stays a k s t (unlocks p i q) u v = tt
  absent_stays a k s t (exits i e q) u v = tt
  absent_stays a k s t (subscribes name d x f e q) u v = tt
  absent_stays a k s t (unsubscribes x d f e q) u v = λ z.
      let c = unsubscribe_cases r s.demuxer d x u e in
      absurd (ground (arith, c.0, z, v.registered x.type))
  absent_stays a k s t (destroys q) u v = tt
  absent_stays a k s t (unblocks q) u v = tt
  absent_stays a k s t (interrupts n ms x i c e q) u v = tt

  Reach-absent :
      (a k : ℕ) (s t : System r) (run : Reach r host fuel s t)
      → IsUnique s.demuxer
      → Follows r host fuel a k 0 s.demuxer
      → Stays r host fuel a run
  Reach-absent a k s t here u v = tt
  Reach-absent a k s t (next {t = m} run st) u v =
      let stays = Reach-absent a k s m run u v in
      let ih = Reach-handed r host fuel a k 0 s m run u v stays in
      (stays, absent_stays a k m t st ih.0 ih.1)

  -- Calls that were made stay made.
  abbrev Grows : (s t : System r) → Type 0
  Grows s t =
      (more : List (ℕ × ComPacket)) × ((t.demuxer).delivered ≡ (s.demuxer).delivered ++ more)

  same_calls :
      (s : System r) (d : Demuxer r) (ph : Phase)
      → d.delivered ≡ (s.demuxer).delivered
      → Grows s (record { demuxer = d; phase = ph })
  same_calls s d ph e = ([], e ∙ sym (append-nil (s.demuxer).delivered))

  Step-Grows : (s t : System r) → Step r host fuel s t → IsUnique s.demuxer → Grows s t
  Step-Grows s t (greets d i e q) u =
      let keeps = receive_hello_message-Keeps r host fuel _ s.demuxer d e in
      rw q (same_calls s d idle keeps.delivered)
  Step-Grows s t (gets_nothing d i c e q) u =
      let keeps = receive_packet-Keeps r host fuel _ s.demuxer d _ e in
      rw q (same_calls s d idle keeps.delivered)
  Step-Grows s t (gets_control d p i c e n q) u =
      let keeps = receive_packet-Keeps r host fuel _ s.demuxer d _ e in
      rw q (
        same_calls s (handle_control_message r p d) idle
          (unfold handle_control_message in keeps.delivered))
  Step-Grows s t (gets d p i c e n q) u =
      let keeps = receive_packet-Keeps r host fuel _ s.demuxer d _ e in
      rw q (
        same_calls s (open_queue r p d) (delivering p (lookup p.type d.subscribers))
          (unfold open_queue in keeps.delivered))
  Step-Grows s t (calls p x todo i q) u = rw q ((x.address, p) ∷ [], unfold call in refl)
  Step-Grows s t (unlocks p i q) u = rw q (same_calls s s.demuxer idle refl)
  Step-Grows s t (exits i e q) u = rw q (same_calls s s.demuxer exited refl)
  Step-Grows s t (subscribes name d x f e q) u =
      let c = subscribe_cases r s.demuxer d name x e in
      rw q (same_calls s d s.phase (ap (λ (y : Demuxer r). y.delivered) c.2))
  Step-Grows s t (unsubscribes x d f e q) u =
      rw q (same_calls s d s.phase ((unsubscribe_cases r s.demuxer d x u e).4))
  Step-Grows s t (destroys q) u = rw q (
      same_calls s (signal_transport_error r s.demuxer) s.phase
        (unfold signal_transport_error in refl))
  Step-Grows s t (unblocks q) u =
      rw q (same_calls s (unblock r s.demuxer) s.phase (unfold unblock in refl))
  Step-Grows s t (interrupts n ms x i c e q) u =
      rw q (same_calls s (cut_off r x s.demuxer) idle (unfold cut_off in refl))

  Reach-Grows :
      (s t : System r) → Reach r host fuel s t → IsUnique s.demuxer → IsUnique t.demuxer × Grows s t
  Reach-Grows s t here u = (u, ([], sym (append-nil (s.demuxer).delivered)))
  Reach-Grows s t (next {t = m} run st) u =
      let ih = Reach-Grows s m run u in
      let last = Step-Grows m t st ih.0 in
      (
        Step-IsUnique r host fuel m t st ih.0,
        (
          (ih.1).0 ++ last.0,
          last.1 ∙ rw ((ih.1).1) (append_assoc (s.demuxer).delivered (ih.1).0 last.0),
        ),
      )

  no_more :
      (old more rest : List ComPacket) → (old ++ more) ++ rest ≡ old → (more ≡ []) × (rest ≡ [])
  no_more old [] [] e = (refl, refl)
  no_more old [] (p ∷ rest) e = absurd (
      omega (
        arith,
        ap length e,
        length-append (old ++ []) (p ∷ rest),
        length-append {A = ComPacket} old [],
      ))
  no_more old (p ∷ more) rest e = absurd (
      omega
        (arith, ap length e, length-append (old ++ (p ∷ more)) rest, length-append old (p ∷ more)))

  -- Where no object is registered twice, let a thread unsubscribe an object that is registered under
  -- its own type and no other, while the receive thread does not hold the lock, and let all threads
  -- then run by any interleaving. The object is never called again, and no call of it is about to be
  -- made: once unsubscribe has returned, the callback is silent.
  pub unsubscribed_silent :
      (d d' : Demuxer r) (x : Subscriber) (s t : System r)
      → Reach r host fuel s t
      → IsUnique d
      → Follows r host fuel x.address x.type 1 d
      → unsubscribe r d x ≡ done d'
      → s.demuxer ≡ d'
      → IsFree r s
      → (calls_to x.address (t.demuxer).delivered ≡ calls_to x.address d.delivered)
        × (calls_to x.address (pending_calls t.phase) ≡ [])
  unsubscribed_silent d d' x s t run u f h e free =
      let c = unsubscribe_cases r d d' x u h in
      let v = unsubscribed-Follows d d' x u f h in
      let u' : IsUnique s.demuxer = rw e (c.1) in
      let v' : Follows r host fuel x.address x.type 0 s.demuxer = rw e v in
      let stays = Reach-absent x.address x.type s t run u' v' in
      let all = (Reach-handed r host fuel x.address x.type 0 s t run u' v' stays).2 in
      let grows = (Reach-Grows s t run u').1 in
      let before : calls_to x.address (s.demuxer).delivered ≡ calls_to x.address d.delivered =
        ap (calls_to x.address) (ap (λ (y : Demuxer r). y.delivered) e ∙ c.4) in
      let now : calls_to x.address (t.demuxer).delivered
          ≡ calls_to x.address (s.demuxer).delivered ++ calls_to x.address grows.0 =
        ap (calls_to x.address) grows.1 ∙ calls_to-append x.address (s.demuxer).delivered grows.0 in
      let split : handed r host fuel x.address t
          ≡ (calls_to x.address (s.demuxer).delivered ++ calls_to x.address grows.0)
            ++ calls_to x.address (pending_calls t.phase) =
        calls_to-append x.address (t.demuxer).delivered _
        ∙ ap (λ z. z ++ calls_to x.address (pending_calls t.phase)) now in
      let none =
        no_more (calls_to x.address (s.demuxer).delivered) _ _
          (sym split ∙ all ∙ append-nil _ ∙ handed_free r host fuel x.address s free) in
      (now ∙ rw (none.0) (append-nil _ ∙ before), none.1)
