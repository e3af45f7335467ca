-- ===== src/SimpleQueue/Invariant.antt =====
-- Order, exclusion and wake-ups, in every state that the threads can reach.
use packetcomms.Base.{
  ℕ, ◌≡◌, ◌≢◌, ◌⊎◌, inl, inr, refl, sym, ap, ◌∙◌, List, [], ◌∷◌, ◌++◌, append_assoc, true, false,
  none, some, arith,
}
use packetcomms.SimpleQueue.{
  Phase, idle, holding, checking, waiting, granted, waiting_for, has_lock, notified, SimpleQueue,
  new_queue, set_phase, emplace, acquire, release, pop, Step, emplaces, locks, unlocks, calls,
  sleeps, wakes, returns, waits_once, ends_wait, pops, Reach, here, next,
}

either : (p : Phase) → (p ≡ holding) ⊎ (p ≡ granted) → has_lock p ≡ true
unfolding has_lock
either p (inl e) = rw e refl
either p (inr e) = rw e refl

in_check : (p : Phase) → p ≡ checking → has_lock p ≡ true
unfolding has_lock
in_check p e = rw e refl

module _ {ℓ} {A : Type ℓ} where
  -- The queue is first-in first-out; only the holder of the mutex is in a phase that has it; a
  -- thread sleeps in waitNotempty only while the queue is empty; and from the return of waitNotempty
  -- until the thread pops or unlocks, the queue is not empty.
  pub record IsSound (q : SimpleQueue A) : Type ℓ where
    pub fifo : q.put_in ≡ q.taken_out ++ q.items
    pub exclusive : (t : ℕ) → has_lock (q.phase t) ≡ true → q.holder ≡ some t
    pub asleep : (t : ℕ) → q.phase t ≡ waiting → q.items ≡ []
    pub ready : (t : ℕ) → q.phase t ≡ granted → q.items ≢ []

  emplace-IsSound :
      (a : A) (q : SimpleQueue A) → q.holder ≡ none → IsSound q → IsSound (emplace a q)
  unfolding emplace notified has_lock
  emplace-IsSound a q free v = record {
    fifo = rw v.fifo (append_assoc q.taken_out q.items (a ∷ []));
    exclusive = λ t h. ground (arith, v.exclusive t);
    asleep = λ t h. ground arith;
    ready = λ t h e. ground (arith, v.exclusive t);
  }

  acquire-IsSound :
      (t : ℕ) (p : Phase) (q : SimpleQueue A)
      → p ≢ waiting
      → p ≢ granted
      → q.holder ≡ none
      → IsSound q
      → IsSound (acquire t p q)
  unfolding acquire has_lock
  acquire-IsSound t p q w g free v = record {
    fifo = v.fifo;
    exclusive = λ u h. ground (arith, v.exclusive u);
    asleep = λ u h. ground (arith, v.asleep u);
    ready = λ u h e. ground (arith, v.ready u);
  }

  release-IsSound :
      (t : ℕ) (p : Phase) (q : SimpleQueue A)
      → has_lock p ≡ false
      → (p ≡ waiting → q.items ≡ [])
      → has_lock (q.phase t) ≡ true
      → IsSound q
      → IsSound (release t p q)
  unfolding release
  release-IsSound t p q off calm mine v = record {
    fifo = v.fifo;
    exclusive = λ u h. ground (arith, v.exclusive u, v.exclusive t);
    asleep = λ u h. ground (arith, v.asleep u, calm);
    ready = λ u h e. unfold has_lock in ground (arith, v.ready u);
  }

  -- A thread that has the mutex goes on to another phase that has it.
  goes_on-IsSound :
      (t : ℕ) (p : Phase) (q : SimpleQueue A)
      → p ≢ waiting
      → (p ≡ granted → q.items ≢ [])
      → has_lock (q.phase t) ≡ true
      → IsSound q
      → IsSound (set_phase t p q)
  goes_on-IsSound t p q w full mine v = record {
    fifo = v.fifo;
    exclusive = λ u h. ground (arith, v.exclusive u, v.exclusive t);
    asleep = λ u h. ground (arith, v.asleep u);
    ready = λ u h e. ground (arith, v.ready u, full);
  }

  pop-IsSound :
      (t : ℕ) (a : A) (rest : List A) (q : SimpleQueue A)
      → has_lock (q.phase t) ≡ true
      → q.items ≡ a ∷ rest
      → IsSound q
      → IsSound (pop t a rest q)
  unfolding pop
  pop-IsSound t a rest q mine e v = record {
    fifo = v.fifo ∙ ap (◌++◌ q.taken_out) e ∙ sym (append_assoc q.taken_out (a ∷ []) rest);
    exclusive = λ u h. ground (arith, v.exclusive u, v.exclusive t);
    asleep = λ u h. ground (arith, v.asleep u);
    ready = λ u h z. unfold has_lock in ground (arith, v.exclusive u, v.exclusive t);
  }

  -- Every step of every thread keeps that.
  pub Step-IsSound : (q q' : SimpleQueue A) → Step q q' → IsSound q → IsSound q'
  Step-IsSound q q' (emplaces a free e) v = rw e (emplace-IsSound a q free v)
  Step-IsSound q q' (locks t p free e) v =
      rw e (acquire-IsSound t holding q (λ z. cc) (λ z. cc) free v)
  Step-IsSound q q' (unlocks t p e) v =
      rw e (release-IsSound t idle q (unfold has_lock in refl) (λ z. cc) (either (q.phase t) p) v)
  Step-IsSound q q' (calls t p e) v =
      rw e (goes_on-IsSound t checking q (λ z. cc) (λ z. cc) (either (q.phase t) (inl p)) v)
  Step-IsSound q q' (sleeps t p empty e) v = rw e (
      release-IsSound t waiting q (unfold has_lock in refl) (λ z. empty) (in_check (q.phase t) p) v)
  Step-IsSound q q' (wakes t p free e) v =
      rw e (acquire-IsSound t checking q (λ z. cc) (λ z. cc) free v)
  Step-IsSound q q' (returns t p full e) v =
      rw e (goes_on-IsSound t granted q (λ z. cc) (λ z. full) (in_check (q.phase t) p) v)
  Step-IsSound q q' (waits_once t p empty e) v = rw e (
      release-IsSound t waiting_for q (unfold has_lock in refl) (λ z. cc)
        (either (q.phase t) (inl p)) v)
  Step-IsSound q q' (ends_wait t p free e) v =
      rw e (acquire-IsSound t holding q (λ z. cc) (λ z. cc) free v)
  Step-IsSound q q' (pops t a rest p i e) v =
      rw e (pop-IsSound t a rest q (either (q.phase t) p) i v)

  Reach-IsSound : (q q' : SimpleQueue A) → IsSound q → Reach q q' → IsSound q'
  Reach-IsSound q q' v here = v
  Reach-IsSound q q' v (next {p = p} r st) = Step-IsSound p q' st (Reach-IsSound q p v r)

  -- In every state that threads can bring a new queue to, by any interleaving: what was taken out
  -- followed by what is in the queue is what was put in, in that order; at most one thread is in a
  -- phase that has the mutex; a thread sleeps in waitNotempty only while the queue is empty, so that
  -- no wake-up is lost; and behind waitNotempty the queue is not empty until that thread pops or
  -- unlocks.
  pub Reach-new_queue :
      (q : SimpleQueue A)
      → Reach new_queue q
      → IsSound q × ((t u : ℕ) → has_lock (q.phase t) ≡ true → has_lock (q.phase u) ≡ true → t ≡ u)
  Reach-new_queue q r =
      let v = Reach-IsSound new_queue q start r in
      (v, λ t u h k. ground (arith, v.exclusive t, v.exclusive u))
    where
      start : IsSound new_queue
      start = record {
        fifo = refl;
        exclusive = λ t h. unfold has_lock in cc h;
        asleep = λ t h. refl;
        ready = λ t h e. cc;
      }
