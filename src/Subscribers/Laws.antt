-- ===== src/Subscribers/Laws.antt =====
-- Lookup, insertion and removal in the subscriber table.
use packetcomms.Base.{
  ℕ, suc, ◌+◌, ◌≡◌, refl, List, [], ◌∷◌, ◌++◌, ap, map, length, length-drop, take, drop, true,
  false, ◌==◌, if◌then◌else◌, done, arith,
}
use packetcomms.Subscribers.{
  Subscriber, SubscriberTable, lookup, insert, without, count, moved_from, remove_one, contains,
}

pub lookup-insert :
    (k j : ℕ) (q : List Subscriber) (t : SubscriberTable)
    → lookup j (insert k q t) ≡ (if k == j then q else lookup j t)
unfolding lookup insert
lookup-insert k j q [] = ground arith
lookup-insert k j q ((i, r) ∷ rest) = ground (arith, lookup-insert k j q rest)

pub contains-count :
    (a : ℕ) (q : List Subscriber) → contains a q ≡ (if count a q == 0 then false else true)
unfolding contains count
contains-count a [] = refl
contains-count a (x ∷ xs) = ground (arith, contains-count a xs)

pub count-append : (a : ℕ) (p q : List Subscriber) → count a (p ++ q) ≡ count a p + count a q
unfolding count
count-append a [] q = omega arith
count-append a (x ∷ xs) q = ground (arith, count-append a xs q)

pub contains-without : (a : ℕ) (q : List Subscriber) → contains a (without a q) ≡ false
unfolding contains without
contains-without a [] = refl
contains-without a (x ∷ xs) = ground (arith, contains-without a xs)

pub contains-without_other :
    (a b : ℕ) (q : List Subscriber) → (a == b) ≡ false → contains b (without a q) ≡ contains b q
unfolding contains without
contains-without_other a b [] h = refl
contains-without_other a b (x ∷ xs) h = ground (arith, contains-without_other a b xs)

length-without : (a : ℕ) (q : List Subscriber) → length (without a q) + count a q ≡ length q
unfolding without count
length-without a [] = refl
length-without a (x ∷ xs) = ground (arith, length-without a xs)

length-leftover :
    (a : ℕ) (q : List Subscriber)
    → length (map (λ x. if x.address == a then x else moved_from) q) ≡ length q
length-leftover a [] = refl
length-leftover a (x ∷ xs) = omega (arith, length-leftover a xs)

-- One element behind the kept ones is erased, and there is no more.
erase_last :
    (xs ys : List Subscriber)
    → length ys ≡ 1
    → take (length xs) (xs ++ ys) ++ drop (suc (length xs)) (xs ++ ys) ≡ xs
erase_last [] [] h = absurd (omega arith)
erase_last [] (y ∷ []) h = refl
erase_last [] (y ∷ z ∷ ys) h = absurd (omega arith)
erase_last (x ∷ xs) ys h = ap (◌∷◌ x) (erase_last xs ys h)

-- A subscriber that is registered once is removed, and nothing else.
pub remove_one_once :
    (a : ℕ) (q : List Subscriber) → count a q ≡ 1 → remove_one a q ≡ done (without a q)
unfolding remove_one
remove_one_once a q h =
    let tail =
      drop (length (without a q))
        (map (λ (x : Subscriber). if x.address == a then x else moved_from) q) in
    let last : length tail ≡ 1 = omega (
      arith,
      length-drop (length (without a q))
          (map (λ (x : Subscriber). if x.address == a then x else moved_from) q),
      length-leftover a q,
      length-without a q,
    ) in
    rw h (ap done (erase_last (without a q) tail last))

pub count-without : (a : ℕ) (q : List Subscriber) → count a (without a q) ≡ 0
unfolding count without
count-without a [] = refl
count-without a (x ∷ xs) = ground (arith, count-without a xs)

pub count-without_other :
    (a b : ℕ) (q : List Subscriber) → (a == b) ≡ false → count b (without a q) ≡ count b q
unfolding count without
count-without_other a b [] h = refl
count-without_other a b (x ∷ xs) h = ground (arith, count-without_other a b xs)

pub count_one : (a : ℕ) (x : Subscriber) → count a (x ∷ []) ≡ (if x.address == a then 1 else 0)
unfolding count
count_one a x = refl
