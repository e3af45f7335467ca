-- ===== src/TxQueues/Order.antt =====
-- A visit of all the queues, in whatever order the container yields them.
use packetcomms.Base.{
  ℕ, ◌≡◌, ◌≢◌, inl, inr, refl, sym, ◌∙◌, ap, ap₂, List, [], ◌∷◌, ◌++◌, length, ◌==◌, Bool-cases,
  All, Distinct, In, arith,
}
use packetcomms.ComPacket.{ComPacket}
use packetcomms.TxQueues.{
  TxQueues, queue, emplace, put, total, keys, in_order, cleared, Visits, AllQueued,
}
use packetcomms.TxQueues.Laws.{queue-put_other, queue-put_nil}

pub put_self : (k : ℕ) (t : TxQueues) → put k (queue k t) t ≡ t
unfolding put queue
put_self k [] = refl
put_self k ((j, q) ∷ rest) = ground (arith, put_self k rest)

pub keys-put : (k : ℕ) (q : List ComPacket) (t : TxQueues) → keys (put k q t) ≡ keys t
unfolding put
keys-put k q [] = refl
keys-put k q ((j, q') ∷ rest) = ground (arith, keys-put k q rest)

keys-emplace_new :
    (k i : ℕ) (p : ComPacket) (t : TxQueues)
    → i ≢ k
    → All (λ j. i ≢ j) (keys t)
    → All (λ j. i ≢ j) (keys (emplace k p t))
unfolding emplace
keys-emplace_new k i p [] h a = (h, tt)
keys-emplace_new k i p ((j, q) ∷ rest) h a = ground (arith, keys-emplace_new k i p rest h)

-- Posting keeps the keys of the map distinct.
pub emplace-Distinct :
    (k : ℕ) (p : ComPacket) (t : TxQueues) → Distinct (keys t) → Distinct (keys (emplace k p t))
unfolding emplace
emplace-Distinct k p [] d = (tt, tt)
emplace-Distinct k p ((j, q) ∷ rest) d =
    ground (arith, keys-emplace_new k j p rest, emplace-Distinct k p rest)

pub put-Distinct :
    (k : ℕ) (q : List ComPacket) (t : TxQueues) → Distinct (keys t) → Distinct (keys (put k q t))
put-Distinct k q t d = rw (keys-put k q t) d

pub All-queue : (P : ComPacket → Type 0) (k : ℕ) (t : TxQueues) → AllQueued P t → All P (queue k t)
unfolding queue
All-queue P k [] a = tt
All-queue P k ((j, q) ∷ rest) a = elim (Bool-cases (j == k)) [
  | inl e ↦ rw (e, queue) a.0
  | inr e ↦ rw (e, queue) (All-queue P k rest a.1)
]

pub AllQueued-put_nil :
    (P : ComPacket → Type 0) (k : ℕ) (t : TxQueues) → AllQueued P t → AllQueued P (put k [] t)
unfolding put
AllQueued-put_nil P k [] a = tt
AllQueued-put_nil P k ((j, q) ∷ rest) a = elim (Bool-cases (j == k)) [
  | inl e ↦ rw (e, put) (tt, a.1)
  | inr e ↦ rw (e, put) (a.0, AllQueued-put_nil P k rest a.1)
]

pub in_order-put :
    (k : ℕ) (order : List ℕ) (t : TxQueues)
    → All (λ j. k ≢ j) order
    → in_order order (put k [] t) ≡ in_order order t
unfolding in_order
in_order-put k [] t d = refl
in_order-put k (j ∷ order) t d =
    ap₂ ◌++◌ (queue-put_other k j [] t (ground arith)) (in_order-put k order t d.1)

queue-put_stays : (k j : ℕ) (t : TxQueues) → queue j t ≡ [] → queue j (put k [] t) ≡ []
queue-put_stays k j t h = elim (Bool-cases (k == j)) [
  | inl e ↦ let e' : k ≡ j = ground arith in rw e' (queue-put_nil j t)
  | inr e ↦ queue-put_other k j [] t e ∙ h
]

pub queue-cleared_stays :
    (order : List ℕ) (j : ℕ) (t : TxQueues) → queue j t ≡ [] → queue j (cleared order t) ≡ []
unfolding cleared
queue-cleared_stays [] j t h = h
queue-cleared_stays (k ∷ order) j t h =
    queue-cleared_stays order j (put k [] t) (queue-put_stays k j t h)

pub queue-cleared :
    (order : List ℕ) (j : ℕ) (t : TxQueues) → In j order → queue j (cleared order t) ≡ []
unfolding cleared
queue-cleared [] j t h = absurd h
queue-cleared (k ∷ order) j t (inl e) =
    queue-cleared_stays order j (put k [] t) (rw e (queue-put_nil j t))
queue-cleared (k ∷ order) j t (inr h) = queue-cleared order j (put k [] t) h

keys-cleared : (order : List ℕ) (t : TxQueues) → keys (cleared order t) ≡ keys t
unfolding cleared
keys-cleared [] t = refl
keys-cleared (k ∷ order) t = keys-cleared order (put k [] t) ∙ keys-put k [] t

pub queue_absent : (j : ℕ) (t : TxQueues) → All (λ i. j ≢ i) (keys t) → queue j t ≡ []
unfolding queue
queue_absent j [] a = refl
queue_absent j ((i, q) ∷ rest) a = ground (arith, queue_absent j rest a.1)

pub In-ne : (j k : ℕ) (ks : List ℕ) → All (λ i. j ≢ i) ks → In k ks → j ≢ k
In-ne j k [] a i = absurd i
In-ne j k (x ∷ ks) a (inl e) = λ q. a.0 (q ∙ sym e)
In-ne j k (x ∷ ks) a (inr i) = In-ne j k ks a.1 i

queue_later :
    (j k : ℕ) (q : List ComPacket) (rest : TxQueues)
    → j ≢ k
    → queue k ((j, q) ∷ rest) ≡ queue k rest
unfolding queue
queue_later j k q rest h = ground arith

total-empty :
    (t : TxQueues) → Distinct (keys t) → ((k : ℕ) → In k (keys t) → queue k t ≡ []) → total t ≡ 0
unfolding total
total-empty [] d h = refl
total-empty ((j, q) ∷ rest) d h =
    let first : q ≡ [] = unfold queue in ground (arith, h j (inl refl)) in
    let others : total rest ≡ 0 =
      total-empty rest d.1
        (λ k i. sym (queue_later j k q rest (In-ne j k (keys rest) d.0 i)) ∙ h k (inr i)) in
    omega (arith, ap length first)

-- A visit that empties every queue it comes to leaves no packet in the map.
pub total-cleared :
    (order : List ℕ) (t : TxQueues)
    → Visits order t
    → Distinct (keys t)
    → total (cleared order t) ≡ 0
total-cleared order t v d =
    total-empty (cleared order t) (rw (keys-cleared order t) d)
      λ k i. queue-cleared order k t (In-All k (keys t) v.every (rw (keys-cleared order t) at i))
  where
    In-All : (k : ℕ) (ks : List ℕ) → All (λ j. In j order) ks → In k ks → In k order
    In-All k [] a i = absurd i
    In-All k (x ∷ ks) a (inl e) = rw (← e) a.0
    In-All k (x ∷ ks) a (inr i) = In-All k ks a.1 i
