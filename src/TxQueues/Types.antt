-- ===== src/TxQueues/Types.antt =====
-- The packets of one type among those that are posted, queued and sent.
use packetcomms.Base.{
  ℕ, ◌≡◌, ◌≢◌, ◌⊎◌, inl, inr, refl, sym, ◌∙◌, List, [], ◌∷◌, ◌++◌, append-nil, ◌==◌, if◌then◌else◌,
  Bool-cases, All, All-append, Distinct, In, arith,
}
use packetcomms.ComPacket.{ComPacket}
use packetcomms.TxQueues.{TxQueues, queue, emplace, put, keys, in_order, cleared, Visits}
use packetcomms.TxQueues.Order.{queue-cleared_stays, queue-cleared, queue_absent, In-ne}

-- The packets of a type, in their order.
unfoldable pub of_type : ℕ → List ComPacket → List ComPacket
of_type k [] = []
of_type k (p ∷ ps) = if p.type == k then p ∷ of_type k ps else of_type k ps

-- Every packet stands in the queue of its type.
abbrev pub IsTyped : TxQueues → Type 0
IsTyped = All λ entry. All (λ p. p.type ≡ entry.0) entry.1

pub of_type-append :
    (k : ℕ) (ps qs : List ComPacket) → of_type k (ps ++ qs) ≡ of_type k ps ++ of_type k qs
unfolding of_type
of_type-append k [] qs = refl
of_type-append k (p ∷ ps) qs = ground (arith, of_type-append k ps qs)

of_type-All :
    (k j : ℕ) (ps : List ComPacket)
    → All (λ p. p.type ≡ j) ps
    → of_type k ps ≡ (if j == k then ps else [])
unfolding of_type
of_type-All k j [] a = ground arith
of_type-All k j (p ∷ ps) a = ground (arith, of_type-All k j ps a.1)

queue-IsTyped : (k : ℕ) (t : TxQueues) → IsTyped t → All (λ p. p.type ≡ k) (queue k t)
unfolding queue
queue-IsTyped k [] a = tt
queue-IsTyped k ((j, q) ∷ rest) a = elim (Bool-cases (j == k)) [
  | inl e ↦ let e' : j ≡ k = ground arith in rw (e, queue) (rw e' at (a.0))
  | inr e ↦ rw (e, queue) (queue-IsTyped k rest a.1)
]

pub emplace-IsTyped : (p : ComPacket) (t : TxQueues) → IsTyped t → IsTyped (emplace p.type p t)
unfolding emplace
emplace-IsTyped p [] a = ((refl, tt), tt)
emplace-IsTyped p ((j, q) ∷ rest) a = elim (Bool-cases (j == p.type)) [
  | inl e ↦
      let e' : p.type ≡ j = ground arith in
      rw (e, emplace) (All-append (λ x. x.type ≡ j) q (p ∷ []) a.0 (e', tt), a.1)
  | inr e ↦ rw (e, emplace) (a.0, emplace-IsTyped p rest a.1)
]

emptied-IsTyped : (k : ℕ) (t : TxQueues) → IsTyped t → IsTyped (put k [] t)
unfolding put
emptied-IsTyped k [] a = tt
emptied-IsTyped k ((j, q) ∷ rest) a = elim (Bool-cases (j == k)) [
  | inl e ↦ rw (e, put) (tt, a.1)
  | inr e ↦ rw (e, put) (a.0, emptied-IsTyped k rest a.1)
]

pub cleared-IsTyped : (order : List ℕ) (t : TxQueues) → IsTyped t → IsTyped (cleared order t)
unfolding cleared
cleared-IsTyped [] t a = a
cleared-IsTyped (k ∷ order) t a = cleared-IsTyped order (put k [] t) (emptied-IsTyped k t a)

-- Whether a visit comes to a queue.
In-cases : (k : ℕ) (order : List ℕ) → In k order ⊎ All (λ j. k ≢ j) order
In-cases k [] = inr tt
In-cases k (j ∷ order) = elim (Bool-cases (j == k)) [
  | inl e ↦ inl (inl (ground arith))
  | inr e ↦ elim (In-cases k order) [ inl i ↦ inl (inr i) | inr a ↦ inr (ground arith, a) ]
]

of_type_unvisited :
    (k : ℕ) (order : List ℕ) (t : TxQueues)
    → IsTyped t
    → All (λ j. k ≢ j) order
    → of_type k (in_order order t) ≡ []
unfolding in_order
of_type_unvisited k [] t v a = unfold of_type in refl
of_type_unvisited k (j ∷ order) t v a =
    of_type-append k (queue j t) (in_order order t)
    ∙ rw (of_type-All k j (queue j t) (queue-IsTyped j t v), of_type_unvisited k order t v a.1)
        (ground arith)

of_type_visited :
    (k : ℕ) (order : List ℕ) (t : TxQueues)
    → IsTyped t
    → Distinct order
    → In k order
    → of_type k (in_order order t) ≡ queue k t
unfolding in_order
of_type_visited k [] t v d i = absurd i
of_type_visited k (j ∷ order) t v d (inl e) =
    let away : All (λ i. k ≢ i) order = rw e at (d.0) in
    of_type-append k (queue j t) (in_order order t)
    ∙ rw (of_type-All k j (queue j t) (queue-IsTyped j t v), of_type_unvisited k order t v away, e)
        (ground (arith, append-nil (queue k t)))
of_type_visited k (j ∷ order) t v d (inr i) =
    of_type-append k (queue j t) (in_order order t)
    ∙ rw (of_type-All k j (queue j t) (queue-IsTyped j t v))
        (ground (arith, In-ne j k order d.0 i, of_type_visited k order t v d.1 i))

not-In :
    (k : ℕ) (order ks : List ℕ)
    → All (λ j. k ≢ j) order
    → All (λ j. In j order) ks
    → All (λ j. k ≢ j) ks
not-In k order [] a i = tt
not-In k order (j ∷ ks) a i = ((λ e. In-ne k j order a i.0 e), not-In k order ks a i.1)

-- A visit of all the queues takes from each type what waits of it, and leaves nothing.
pub of_type-visit :
    (k : ℕ) (order : List ℕ) (t : TxQueues)
    → IsTyped t
    → Visits order t
    → (of_type k (in_order order t) ≡ queue k t) × (queue k (cleared order t) ≡ [])
of_type-visit k order t v visit = elim (In-cases k order) [
  | inl i ↦ (of_type_visited k order t v visit.once i, queue-cleared order k t i)
  | inr a ↦
      let none = queue_absent k t (not-In k order (keys t) a visit.every) in
      (of_type_unvisited k order t v a ∙ sym none, queue-cleared_stays order k t none)
]
