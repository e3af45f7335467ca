-- ===== src/SimpleQueue.antt =====
-- src/SimpleQueue.h: a FIFO queue with a mutex and a condition variable, used by any number of
-- threads, as a step relation. A thread that calls front, pop, size or empty holds a LockedQueue, as
-- the header asks for.
pub mod Invariant
use packetcomms.Base.{
  ℕ, ◌≡◌, ◌≢◌, ◌⊎◌, List, [], ◌∷◌, ◌++◌, Bool, true, false, Option, none, some, ◌==◌, if◌then◌else◌,
}

-- Where a thread is. `checking` is the test of the `while` in waitNotempty; `granted` is after its
-- return; `waiting_for` and `woken_for` are within the timed wait of waitNotEmpty.
pub data Phase : Type 0 where
  idle holding checking waiting woken granted waiting_for woken_for : Phase

-- The thread has the mutex.
unfoldable pub has_lock : Phase → Bool
has_lock holding = true
has_lock checking = true
has_lock granted = true
has_lock _ = false

-- What notify_all does to a thread.
unfoldable pub notified : Phase → Phase
notified waiting = woken
notified waiting_for = woken_for
notified p = p

-- `m_items`, whose front is the head, with all that was ever put in and taken out.
pub record SimpleQueue {ℓ} (A : Type ℓ) : Type ℓ where
  pub items : List A
  pub put_in : List A
  pub taken_out : List A
  pub holder : Option ℕ
  pub phase : ℕ → Phase

module _ {ℓ} {A : Type ℓ} where
  abbrev pub new_queue : SimpleQueue A
  new_queue = record { items = []; put_in = []; taken_out = []; holder = none; phase = λ t. idle }

  abbrev pub set_phase : ℕ → Phase → SimpleQueue A → SimpleQueue A
  set_phase t p q = record q { phase = λ u. if u == t then p else q.phase u }

  -- emplace, with its lock_guard and its notify_all.
  unfoldable pub emplace : A → SimpleQueue A → SimpleQueue A
  emplace a q = record q {
    items = q.items ++ (a ∷ []);
    put_in = q.put_in ++ (a ∷ []);
    phase = λ u. notified (q.phase u);
  }

  -- A thread takes the mutex, or gives it up.
  unfoldable pub acquire : ℕ → Phase → SimpleQueue A → SimpleQueue A
  acquire t p q = set_phase t p (record q { holder = some t })

  unfoldable pub release : ℕ → Phase → SimpleQueue A → SimpleQueue A
  release t p q = set_phase t p (record q { holder = none })

  -- pop, of a front that is there.
  unfoldable pub pop : ℕ → A → List A → SimpleQueue A → SimpleQueue A
  pop t a rest q =
      set_phase t holding (record q { items = rest; taken_out = q.taken_out ++ (a ∷ []) })

pub data Step {ℓ} {A : Type ℓ} (q q' : SimpleQueue A) : Type ℓ where
  emplaces : (a : A) → q.holder ≡ none → q' ≡ emplace a q → Step q q'
  -- lock() makes a LockedQueue, whose destructor unlocks.
  locks : (t : ℕ) → q.phase t ≡ idle → q.holder ≡ none → q' ≡ acquire t holding q → Step q q'
  unlocks :
      (t : ℕ) → (q.phase t ≡ holding) ⊎ (q.phase t ≡ granted) → q' ≡ release t idle q → Step q q'
  -- waitNotempty() is called, finds the queue empty or not, and looks again when it wakes, be it
  -- without a notification.
  calls : (t : ℕ) → q.phase t ≡ holding → q' ≡ set_phase t checking q → Step q q'
  sleeps : (t : ℕ) → q.phase t ≡ checking → q.items ≡ [] → q' ≡ release t waiting q → Step q q'
  wakes :
      (t : ℕ)
      → (q.phase t ≡ waiting) ⊎ (q.phase t ≡ woken)
      → q.holder ≡ none
      → q' ≡ acquire t checking q
      → Step q q'
  returns : (t : ℕ) → q.phase t ≡ checking → q.items ≢ [] → q' ≡ set_phase t granted q → Step q q'
  -- waitNotEmpty(timeout) waits once, and returns on a notification, the timeout, or neither.
  waits_once :
      (t : ℕ) → q.phase t ≡ holding → q.items ≡ [] → q' ≡ release t waiting_for q → Step q q'
  ends_wait :
      (t : ℕ)
      → (q.phase t ≡ waiting_for) ⊎ (q.phase t ≡ woken_for)
      → q.holder ≡ none
      → q' ≡ acquire t holding q
      → Step q q'
  pops :
      (t : ℕ) (a : A) (rest : List A)
      → (q.phase t ≡ holding) ⊎ (q.phase t ≡ granted)
      → q.items ≡ a ∷ rest
      → q' ≡ pop t a rest q
      → Step q q'

pub data Reach {ℓ} {A : Type ℓ} (q : SimpleQueue A) : SimpleQueue A → Type ℓ where
  here : Reach q q
  next : {p p' : SimpleQueue A} → Reach q p → Step p p' → Reach q p'
