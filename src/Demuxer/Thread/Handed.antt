-- ===== src/Demuxer/Thread/Handed.antt =====
-- What one object is called with, through every interleaving of the receive thread with threads that
-- subscribe and unsubscribe.
use packetcomms.Base.{
  ℕ, zero, suc, ◌≤◌, ◌<◌, ◌≡◌, ◌⊎◌, inl, inr, refl, sym, ap, ◌∙◌, Bool-cases, List, [], ◌∷◌, ◌++◌,
  append_assoc, append-nil, replicate, ◌==◌, if◌then◌else◌, some, arith,
}
use packetcomms.Wire.{Endian}
use packetcomms.ComPacket.{ComPacket}
use packetcomms.Subscribers.{Subscriber, lookup}
use packetcomms.TxQueues.Types.{of_type, of_type-append}
use packetcomms.Transport.{Reader}
use packetcomms.Demuxer.{Demuxer, signal_transport_error, handle_control_message}
use packetcomms.Demuxer.Subscriptions.{IsUnique, times, subscribe_cases, times-subscribe}
use packetcomms.Demuxer.Thread.{
  Phase, idle, starting, exited, delivering, System, pending_calls, IsFree, open_queue, unblock,
  cut_off, waits_for, call, Step, greets, gets_nothing, gets_control, gets, calls, unlocks, exits,
  subscribes, unsubscribes, destroys, unblocks, interrupts, Reach, here, next,
}
use packetcomms.Demuxer.Thread.Calls.{
  Keeps, receive_packet-Keeps, receive_hello_message-Keeps, calls_to, calls_to-append,
  calls_to-queue,
}
use packetcomms.Demuxer.Thread.Registrations.{
  unsubscribe_cases, times-open_queue, received_by, received, StaysBy, Stays, Step-IsUnique,
}

-- A thread that is not delivering has no calls to make.
pub Phase-cases :
    (ph : Phase)
    → (pending_calls ph ≡ [])
      ⊎ ((p : ComPacket) × (todo : List Subscriber) × (ph ≡ delivering p todo))
unfolding pending_calls
Phase-cases starting = inl refl
Phase-cases idle = inl refl
Phase-cases exited = inl refl
Phase-cases (delivering p todo) = inr (p, todo, refl)

-- A thread in receivePacket has no calls to make.
pub receiving-pending :
    (ph : Phase) (ms : ℕ) → waits_for ph ≡ some ms → pending_calls idle ≡ pending_calls ph
unfolding waits_for pending_calls
receiving-pending starting ms e = refl
receiving-pending idle ms e = refl
receiving-pending exited ms e = absurd (cc)
receiving-pending (delivering p todo) ms e = absurd (cc)

module _ (r : Reader) (host : Endian) (fuel : ℕ) where
  -- An object that exists and is registered `n` times for one type and for no other.
  pub record Follows (a k n : ℕ) (d : Demuxer r) : Type 0 where
    pub exists : a < d.next_address
    pub at_most_once : n ≤ 1
    pub registered : (j : ℕ) → times d j a ≡ (if j == k then n else 0)

  Follows-Keeps : (a k n : ℕ) (d d' : Demuxer r) → Keeps d d' → Follows a k n d → Follows a k n d'
  Follows-Keeps a k n d d' e v = record {
    exists = rw (e.next_address) v.exists;
    at_most_once = v.at_most_once;
    registered = λ j. rw (e.subscribers) (v.registered j);
  }

  -- What is due to such an object of the packets received.
  abbrev pub due : ℕ → ℕ → List ComPacket → List ComPacket
  due zero k ps = []
  due (suc n) k ps = of_type k ps

  -- All that an object was called with, and is about to be called with.
  abbrev pub handed : ℕ → System r → List ComPacket
  handed a s = calls_to a ((s.demuxer).delivered ++ pending_calls s.phase)

  due_one :
      (n k c : ℕ) (p : ComPacket)
      → n ≤ 1
      → c ≡ (if p.type == k then n else 0)
      → replicate c p ≡ due n k (p ∷ [])
  unfolding of_type
  due_one zero k c p h e = let e' : c ≡ 0 = ground arith in rw e' refl
  due_one (suc n) k c p h e = elim (Bool-cases (p.type == k)) [
    | inl y ↦ let e' : c ≡ 1 = ground arith in rw (e', y) refl
    | inr y ↦ let e' : c ≡ 0 = ground arith in rw (e', y) refl
  ]

  handed_gets :
      (a k n : ℕ) (d : Demuxer r) (p : ComPacket)
      → Follows a k n d
      → handed a (record {
        demuxer = open_queue r p d;
        phase = delivering p (lookup p.type d.subscribers);
      })
        ≡ calls_to a (d.delivered ++ []) ++ due n k (p ∷ [])
  unfolding pending_calls open_queue
  handed_gets a k n d p v =
      rw
        (
          append-nil d.delivered,
          calls_to-append a d.delivered _,
          calls_to-queue a p (lookup p.type d.subscribers),
        )
        (ap (◌++◌ (calls_to a d.delivered))
          (due_one n k (times d p.type a) p v.at_most_once (v.registered p.type)))

  due_none : (n k : ℕ) → due n k [] ≡ []
  unfolding of_type
  due_none zero k = refl
  due_none (suc n) k = refl

  before_gets :
      (a : ℕ) (s : System r) (d : Demuxer r)
      → d.delivered ≡ (s.demuxer).delivered
      → s.phase ≡ idle
      → calls_to a (d.delivered ++ []) ≡ handed a s
  unfolding pending_calls
  before_gets a s d e i = rw (e, i) refl

  pub handed_calls :
      (a : ℕ) (p : ComPacket) (x : Subscriber) (todo : List Subscriber) (s : System r)
      → s.phase ≡ delivering p (x ∷ todo)
      → handed a (record { demuxer = call r x p s.demuxer; phase = delivering p todo }) ≡ handed a s
  unfolding call pending_calls
  handed_calls a p x todo s i =
      rw i (ap (calls_to a) (append_assoc (s.demuxer).delivered ((x.address, p) ∷ []) _))

  -- What a step does to one object, unless it unsubscribes it.
  abbrev StepHands : (a k n : ℕ) (s t : System r) → Step r host fuel s t → Type 0
  StepHands a k n s t st =
      Follows a k n t.demuxer × (handed a t ≡ handed a s ++ due n k (received_by r host fuel st))

  nothing_due :
      (a k n : ℕ) (s : System r) (d : Demuxer r) (ph : Phase)
      → d.delivered ≡ (s.demuxer).delivered
      → pending_calls ph ≡ pending_calls s.phase
      → handed a (record { demuxer = d; phase = ph }) ≡ handed a s ++ due n k []
  nothing_due a k n s d ph e q = rw (due_none n k, e, q) (sym (append-nil (handed a s)))

  Step-handed :
      (a k n : ℕ) (s t : System r) (st : Step r host fuel s t)
      → IsUnique s.demuxer
      → Follows a k n s.demuxer
      → StaysBy r host fuel a st
      → StepHands a k n s t st
  unfolding received_by
  Step-handed a k n s t (greets d i e q) u v stays =
      let keeps = receive_hello_message-Keeps r host fuel _ s.demuxer d e in
      rw q (
        Follows-Keeps a k n s.demuxer d keeps v,
        nothing_due a k n s d idle keeps.delivered (rw i (unfold pending_calls in refl)),
      )
  Step-handed a k n s t (gets_nothing d i c e q) u v stays =
      let keeps = receive_packet-Keeps r host fuel _ s.demuxer d _ e in
      rw q (
        Follows-Keeps a k n s.demuxer d keeps v,
        nothing_due a k n s d idle keeps.delivered (rw i refl),
      )
  Step-handed a k n s t (gets_control d p i c e m q) u v stays =
      let keeps = receive_packet-Keeps r host fuel _ s.demuxer d _ e in
      rw q (
        unfold handle_control_message in Follows-Keeps a k n s.demuxer d keeps v,
        nothing_due a k n s (handle_control_message r p d) idle
            (unfold handle_control_message in keeps.delivered) (rw i refl),
      )
  Step-handed a k n s t (gets d p i c e m q) u v stays =
      let keeps = receive_packet-Keeps r host fuel _ s.demuxer d _ e in
      let w = Follows-Keeps a k n s.demuxer d keeps v in
      rw q (
        record {
          exists = unfold open_queue in w.exists;
          at_most_once = w.at_most_once;
          registered = λ j. times-open_queue r d p j a ∙ w.registered j;
        },
        handed_gets a k n d p w
            ∙ ap (λ z. z ++ due n k (p ∷ [])) (before_gets a s d keeps.delivered i),
      )
  Step-handed a k n s t (calls p x todo i q) u v stays = rw q (
    unfold call in
        record { exists = v.exists; at_most_once = v.at_most_once; registered = v.registered },
    handed_calls a p x todo s i ∙ rw (due_none n k) (sym (append-nil (handed a s))),
  )
  Step-handed a k n s t (unlocks p i q) u v stays =
      rw q (v, nothing_due a k n s s.demuxer idle refl (rw i (unfold pending_calls in refl)))
  Step-handed a k n s t (exits i e q) u v stays =
      rw q (v, nothing_due a k n s s.demuxer exited refl (rw i (unfold pending_calls in refl)))
  Step-handed a k n s t (subscribes name d x f e q) u v stays =
      let c = subscribe_cases r s.demuxer d name x e in
      rw q (
        record {
          exists = rw c.2 (omega (arith, v.exists));
          at_most_once = v.at_most_once;
          registered = λ j.
              times-subscribe r s.demuxer d name x j a e
              ∙ ground (arith, v.registered j, v.exists, c.1);
        },
        nothing_due a k n s d s.phase (ap (λ (y : Demuxer r). y.delivered) c.2) refl,
      )
  Step-handed a k n s t (unsubscribes x d f e q) u v stays =
      let c = unsubscribe_cases r s.demuxer d x u e in
      rw q (
        record {
          exists = rw (c.2) v.exists;
          at_most_once = v.at_most_once;
          registered = λ j. c.3 j a (λ z. stays (sym z)) ∙ v.registered j;
        },
        nothing_due a k n s d s.phase c.4 refl,
      )
  Step-handed a k n s t (destroys q) u v stays = rw q (
    unfold signal_transport_error in
        record { exists = v.exists; at_most_once = v.at_most_once; registered = v.registered },
    nothing_due a k n s (signal_transport_error r s.demuxer) s.phase
        (unfold signal_transport_error in refl) refl,
  )
  Step-handed a k n s t (unblocks q) u v stays = rw q (
    unfold unblock in
        record { exists = v.exists; at_most_once = v.at_most_once; registered = v.registered },
    nothing_due a k n s (unblock r s.demuxer) s.phase (unfold unblock in refl) refl,
  )
  Step-handed a k n s t (interrupts tests ms x i c e q) u v stays = rw q (
    unfold cut_off in
        record { exists = v.exists; at_most_once = v.at_most_once; registered = v.registered },
    nothing_due a k n s (cut_off r x s.demuxer) idle (unfold cut_off in refl)
        (receiving-pending s.phase ms i),
  )

  due-append : (n k : ℕ) (ps qs : List ComPacket) → due n k (ps ++ qs) ≡ due n k ps ++ due n k qs
  due-append zero k ps qs = refl
  due-append (suc n) k ps qs = of_type-append k ps qs

  pub Reach-handed :
      (a k n : ℕ) (s t : System r) (run : Reach r host fuel s t)
      → IsUnique s.demuxer
      → Follows a k n s.demuxer
      → Stays r host fuel a run
      → IsUnique t.demuxer
        × Follows a k n t.demuxer
        × (handed a t ≡ handed a s ++ due n k (received r host fuel run))
  unfolding received
  Reach-handed a k n s t here u v stays = (u, v, rw (due_none n k) (sym (append-nil (handed a s))))
  Reach-handed a k n s t (next {t = m} run st) u v stays =
      let ih = Reach-handed a k n s m run u v stays.0 in
      let last = Step-handed a k n m t st ih.0 ih.1 stays.1 in
      (
        Step-IsUnique r host fuel m t st ih.0,
        last.0,
        last.1
            ∙ rw (ih.2, due-append n k (received r host fuel run) (received_by r host fuel st))
                (append_assoc (handed a s) _ _),
      )

  nothing_pending : (s : System r) → IsFree r s → pending_calls s.phase ≡ []
  unfolding pending_calls
  nothing_pending s free = elim (Phase-cases s.phase) [
    | inl e ↦ e
    | inr (p, todo, e) ↦ absurd (free p todo e)
  ]

  pub handed_free :
      (a : ℕ) (s : System r) → IsFree r s → handed a s ≡ calls_to a (s.demuxer).delivered
  handed_free a s free = rw (nothing_pending s free, append-nil (s.demuxer).delivered) refl
