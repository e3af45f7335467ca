-- ===== src/Demuxer/Lifetime/Return.antt =====
-- The destructor returns.
use packetcomms.Base.{
  ℕ, ◌+◌, ◌^◌, ◌≤◌, ◌≡◌, refl, sym, ◌∙◌, true, String, List, [], ◌∷◌, ◌++◌, append_assoc,
  append-nil, length, map, done, ◌≢◌, In, All, Bool-cases, inl, inr, ◌==◌, arith,
}
use packetcomms.Wire.{Endian}
use packetcomms.IdManager.{IdManager, to_id, new_id_manager}
use packetcomms.ComPacket.{ComPacket}
use packetcomms.Subscribers.{Subscriber, SubscriberTable, lookup}
use packetcomms.Transport.{Reader}
use packetcomms.Demuxer.{
  Demuxer, new_demuxer, signal_transport_error, warn_about_subscribers, hello_timeout,
}
use packetcomms.Demuxer.Thread.{
  Phase, starting, idle, exited, delivering, System, pending_calls, IsFree, call, Step, greets,
  calls, unlocks, exits, destroys, Reach,
}
use packetcomms.Demuxer.Thread as Thread
use packetcomms.Demuxer.Thread.Names.{IsSound, Reach-IsSound, new-IsSound, warnings}
use packetcomms.Demuxer.Thread.Shutdown.{receive_hello_message_halted}
use packetcomms.Demuxer.Lifetime.{
  Stage, constructed, signalled, destroyed, Object, GoesThrough, begin, actor, constructs, works,
  uses, signals, warns, joins, Life, here, next,
}

module _ (r : Reader) (host : Endian) (fuel : ℕ) where
  -- The steps of the system over a life.
  pub Life-Reach : (s t : Object r) → Life r host fuel s t → Reach r host fuel s.system t.system
  Life-Reach s t here = Thread.here
  Life-Reach s t (next {t = m} life (constructs u st g a q)) =
      rw q (Thread.next (Life-Reach s m life) st)
  Life-Reach s t (next {t = m} life (works u st a q)) = rw q (Thread.next (Life-Reach s m life) st)
  Life-Reach s t (next {t = m} life (uses u st usable a q)) =
      rw q (Thread.next (Life-Reach s m life) st)
  Life-Reach s t (next {t = m} life (signals u st g a q)) =
      rw q (Thread.next (Life-Reach s m life) st)
  Life-Reach s t (next {t = m} life (warns order ws g free goes e q)) = rw q (Life-Reach s m life)
  Life-Reach s t (next {t = m} life (joins g p q)) = rw q (Life-Reach s m life)

  -- The receive thread's own way from one state to its end, with the calls made that were pending.
  record Ends (o s : Object r) : Type 0 where
    object : Object r
    life : Life r host fuel o object
    stage : object.stage ≡ s.stage
    ended : (object.system).phase ≡ exited
    made :
        ((object.system).demuxer).delivered
        ≡ ((s.system).demuxer).delivered ++ pending_calls (s.system).phase
    ids : ((object.system).demuxer).packet_ids ≡ ((s.system).demuxer).packet_ids
    subscribers : ((object.system).demuxer).subscribers ≡ ((s.system).demuxer).subscribers

  -- The object with the thread at a phase.
  abbrev pub at_phase : Demuxer r → Phase → Stage → List (ℕ × String) → Object r
  at_phase d ph stage old = record {
    system = record { demuxer = d; phase = ph };
    stage = stage;
    warnings = old;
  }

  idle-Ends :
      (o : Object r) (d : Demuxer r) (stage : Stage) (old : List (ℕ × String))
      → d.transport_error ≡ true
      → Life r host fuel o (at_phase d idle stage old)
      → Ends o (at_phase d idle stage old)
  unfolding actor pending_calls
  idle-Ends o d stage old e life = record {
    object = at_phase d exited stage old;
    life = next life (works (record { demuxer = d; phase = exited }) (exits refl e refl) refl refl);
    stage = refl;
    ended = refl;
    made = sym (append-nil d.delivered);
    ids = refl;
    subscribers = refl;
  }

  delivering-Ends :
      (o : Object r) (d : Demuxer r) (stage : Stage) (old : List (ℕ × String)) (p : ComPacket)
      (todo : List Subscriber)
      → d.transport_error ≡ true
      → Life r host fuel o (at_phase d (delivering p todo) stage old)
      → Ends o (at_phase d (delivering p todo) stage old)
  unfolding actor pending_calls
  delivering-Ends o d stage old p [] e life =
      let rest = idle-Ends o d stage old e (
        next life (works (record { demuxer = d; phase = idle }) (unlocks p refl refl) refl refl)) in
      record {
        object = rest.object;
        life = rest.life;
        stage = rest.stage;
        ended = rest.ended;
        made = rest.made;
        ids = rest.ids;
        subscribers = rest.subscribers;
      }
  delivering-Ends o d stage old p (x ∷ todo) e life =
      let rest = delivering-Ends o (call r x p d) stage old p todo (unfold call in e) (
        next life (
          works (record { demuxer = call r x p d; phase = delivering p todo })
            (calls p x todo refl refl) refl refl)) in
      record {
        object = rest.object;
        life = rest.life;
        stage = rest.stage;
        ended = rest.ended;
        made =
            rest.made
            ∙ (unfold call in
                append_assoc d.delivered ((x.address, p) ∷ []) (pending_calls (delivering p todo)));
        ids = rest.ids ∙ (unfold call in refl);
        subscribers = rest.subscribers ∙ (unfold call in refl);
      }

  at_phase-Ends :
      (o : Object r) (d : Demuxer r) (stage : Stage) (old : List (ℕ × String)) (ph : Phase)
      → d.transport_error ≡ true
      → Life r host fuel o (at_phase d ph stage old)
      → Ends o (at_phase d ph stage old)
  unfolding actor pending_calls
  at_phase-Ends o d stage old starting e life =
      let d' = record d { transport = (r.ready_for_reading d.transport hello_timeout).0 } in
      let rest = idle-Ends o d' stage old e (
        next life (
          works (record { demuxer = d'; phase = idle })
            (greets d' refl (receive_hello_message_halted r host fuel hello_timeout d e) refl) refl
            refl)) in
      record {
        object = rest.object;
        life = rest.life;
        stage = rest.stage;
        ended = rest.ended;
        made = rest.made;
        ids = rest.ids;
        subscribers = rest.subscribers;
      }
  at_phase-Ends o d stage old idle e life = idle-Ends o d stage old e life
  at_phase-Ends o d stage old exited e life = record {
    object = at_phase d exited stage old;
    life = life;
    stage = refl;
    ended = refl;
    made = sym (append-nil d.delivered);
    ids = refl;
    subscribers = refl;
  }
  at_phase-Ends o d stage old (delivering p todo) e life =
      delivering-Ends o d stage old p todo e life

  exited-IsFree : (s : System r) → s.phase ≡ exited → IsFree r s
  exited-IsFree s e p todo q = cc

  begun :
      (names : List String) (m : IdManager) (d : Demuxer r) (x y : r.State)
      (small : length names + 2 ≤ 2 ^ 32) (made : new_id_manager names ≡ done m)
      → new_demuxer r names y ≡ done d
      → IsSound r host fuel names m small made (record d { transport = x })
  begun names m d x y small made h =
      let v = new-IsSound r host fuel names m small made d y h in
      (
        record { once = (v.0).once; fresh = (v.0).fresh },
        record { ids = (v.1).ids; named = (v.1).named },
      )

  warn_about-same :
      (d d' : Demuxer r) (order : List ℕ)
      → d'.packet_ids ≡ d.packet_ids
      → d'.subscribers ≡ d.subscribers
      → warn_about_subscribers r d' order ≡ warn_about_subscribers r d order
  unfolding warn_about_subscribers
  warn_about-same d d' [] i q = refl
  warn_about-same d d' (k ∷ order) i q = rw (i, q, warn_about-same d d' order i q) refl

  -- A type with subscribers is a key of the table, and the table is gone through.
  gone_through :
      (k : ℕ) (order : List ℕ) (table : SubscriberTable)
      → All (λ j. In j order) (map (λ entry. entry.0) table)
      → lookup k table ≢ []
      → In k order
  unfolding lookup
  gone_through k order [] a n = absurd (n refl)
  gone_through k order ((j, q) ∷ table) a n = elim (Bool-cases (j == k)) [
    | inl e ↦ let same : j ≡ k = ground arith in rw (← same) a.0
    | inr e ↦ gone_through k order table a.1 (rw e at n)
  ]

  -- The destructor has returned, with these calls made and these warnings given.
  abbrev pub Returns : Object r → List (ℕ × ComPacket) → IdManager → Demuxer r → List ℕ → Type 0
  Returns s made m d order =
      (t : Object r) × Life r host fuel s t
      × (t.stage ≡ destroyed)
      × (((t.system).demuxer).delivered ≡ made)
      × (warn_about_subscribers r d order ≡ done t.warnings)
      × ((k : ℕ)
          → lookup k d.subscribers ≢ []
          → (name : String) × (to_id m name ≡ done k)
            × In (length (lookup k d.subscribers), name) t.warnings)

  -- From the moment when the destructor has set the flag.
  pub signalled-Returns :
      (names : List String) (m : IdManager) (d : Demuxer r) (x y : r.State) (order : List ℕ)
      (s : Object r) (d' : Demuxer r) (ph : Phase)
      → length names + 2 ≤ 2 ^ 32
      → new_id_manager names ≡ done m
      → new_demuxer r names y ≡ done d
      → Life r host fuel (begin r d x) s
      → Life r host fuel s (at_phase d' ph signalled s.warnings)
      → d'.transport_error ≡ true
      → GoesThrough order d'.subscribers
      → Returns s (d'.delivered ++ pending_calls ph) m d' order
  signalled-Returns names m d x y order s d' ph small made h life first e goes =
      let over = at_phase-Ends s d' signalled s.warnings ph e first in
      let d'' = ((over.object).system).demuxer in
      let before =
        Reach-IsSound r host fuel names m small made (begin r d x).system s.system
          (Life-Reach (begin r d x) s life) (begun names m d x y small made h) in
      let after =
        Reach-IsSound r host fuel names m small made s.system (over.object).system
          (Life-Reach s over.object over.life) before in
      let told = warnings r host fuel names m small made d'' order after.1 in
      let free = exited-IsFree (over.object).system over.ended in
      let goes' : GoesThrough order d''.subscribers = rw over.subscribers goes in
      (
        record over.object { stage = destroyed; warnings = told.0 },
        next
            (next {t = over.object} over.life
              (warns order told.0 over.stage free goes' told.1 refl))
            (joins refl over.ended refl),
        refl,
        over.made,
        sym (warn_about-same d' d'' order over.ids over.subscribers) ∙ told.1,
        λ k n.
            let same = over.subscribers in
            let one =
              told.2 k (gone_through k order d'.subscribers goes.every n) (rw over.subscribers n) in
            (one.0, rw (← (after.1).ids) (one.1), rw (← over.subscribers) (one.2)),
      )

  -- Over the life of a demuxer that was made of fewer than 2^32 - 1 names, the destructor can return
  -- from every state in which it can begin, wherever the receive thread is and in whatever order the
  -- table is gone through for the warnings. The thread ends, no callback is called that was not about
  -- to be, and the warnings are those of warnAboutSubscribers on the table as it was when the
  -- destructor began: for each type that had subscribers, their number and its name.
  pub destructor_returns :
      (names : List String) (m : IdManager) (d : Demuxer r) (x y : r.State) (order : List ℕ)
      (s : Object r)
      → length names + 2 ≤ 2 ^ 32
      → new_id_manager names ≡ done m
      → new_demuxer r names y ≡ done d
      → Life r host fuel (begin r d x) s
      → s.stage ≡ constructed
      → GoesThrough order ((s.system).demuxer).subscribers
      → (t : Object r) × Life r host fuel s t
        × (t.stage ≡ destroyed)
        × (((t.system).demuxer).delivered
            ≡ ((s.system).demuxer).delivered ++ pending_calls (s.system).phase)
        × (warn_about_subscribers r (s.system).demuxer order ≡ done t.warnings)
        × ((k : ℕ)
            → lookup k ((s.system).demuxer).subscribers ≢ []
            → (name : String) × (to_id m name ≡ done k)
              × In (length (lookup k ((s.system).demuxer).subscribers), name) t.warnings)
  unfolding actor
  destructor_returns names m d x y order s small made h life g goes =
      let sys = s.system in
      let d' = signal_transport_error r sys.demuxer in
      let first : Life r host fuel s (at_phase d' sys.phase signalled s.warnings) =
        next here
          (signals (record { demuxer = d'; phase = sys.phase }) (destroys refl) g refl refl) in
      unfold signal_transport_error in
      let over =
        signalled-Returns names m d x y order s d' sys.phase small made h life first refl goes in
      (
        over.0,
        over.1,
        over.2,
        over.3,
        warn_about-same d' sys.demuxer order refl refl ∙ over.4,
        over.5,
      )
