-- ===== src/IdManager/Decision.antt =====
-- Which lists of names src/IdManager.cpp accepts.
use packetcomms.Base.{
  ℕ, zero, suc, ◌+◌, ◌^◌, ◌≤◌, ◌≡◌, ◌≢◌, ◌⊎◌, inl, inr, refl, sym, ap, subst, String, eq_iff,
  str_eq, List, [], ◌∷◌, ◌++◌, append_assoc, append-nil, length, length-append, get_elem?, some,
  All, All-append, All-append_left, Distinct, Distinct-remove, Bool-cases, done, aborts, arith,
}
use packetcomms.IdManager.{IdManager, new_id_manager, to_id, invalid_string, control_string}
use packetcomms.IdManager.Acceptance.{new_id_manager_accepts, new_id_manager_rejects}

-- Where a name stands, if it does.
position :
    (n : String) (seen : List String)
    → ((i : ℕ) × (get_elem? seen i ≡ some n)) ⊎ All (λ y. y ≢ n) seen
position n [] = inr tt
position n (x ∷ seen) = elim (Bool-cases (str_eq x n)) [
  | inl e ↦ let q : x ≡ n = ground (arith, eq_iff x n) in inl (0, ap some q)
  | inr e ↦ elim (position n seen) [
    | inl p ↦ inl (suc p.0, p.1)
    | inr a ↦ inr ((λ q. absurd (ground (arith, eq_iff x n))), a)
  ]
]

Distinct-snoc :
    (seen : List String) (n : String)
    → Distinct seen
    → All (λ y. y ≢ n) seen
    → Distinct (seen ++ (n ∷ []))
Distinct-snoc [] n d a = (tt, tt)
Distinct-snoc (x ∷ seen) n d a =
    (All-append (λ y. x ≢ y) seen (n ∷ []) d.0 (a.0, tt), Distinct-snoc seen n d.1 a.1)

-- The first name that repeats an earlier one.
abbrev Repeats : List String → List String → Type 0
Repeats seen rest =
    (front : List String) × (name : String) × (back : List String) × (i : ℕ) × (rest
      ≡ front ++ (name ∷ back))
    × (get_elem? (seen ++ front) i ≡ some name)

repeats : (seen rest : List String) → Distinct seen → Distinct (seen ++ rest) ⊎ Repeats seen rest
repeats seen [] d = inl (rw (append-nil seen) d)
repeats seen (n ∷ rest) d = elim (position n seen) [
  | inl p ↦ inr ([], n, rest, p.0, refl, rw (append-nil seen) p.1)
  | inr a ↦ elim (repeats (seen ++ (n ∷ [])) rest (Distinct-snoc seen n d a)) [
    | inl all ↦ inl (rw (append_assoc seen (n ∷ []) rest) at all)
    | inr r ↦
        inr (n ∷ r.0, r.1, r.2, r.3, ap (◌∷◌ n) r.4, rw (append_assoc seen (n ∷ []) r.0) at r.5)
  ]
]

not_there : (n : String) (i : ℕ) (xs : List String) → All (λ y. y ≢ n) xs → get_elem? xs i ≢ some n
not_there n i [] a e = cc
not_there n zero (x ∷ xs) a e = a.0 (cc)
not_there n (suc i) (x ∷ xs) a e = not_there n i xs a.1 e

abbrev reserved_names : List String
reserved_names = invalid_string ∷ control_string ∷ []

reserved_names-Distinct : Distinct reserved_names
reserved_names-Distinct =
    (((λ q. absurd (ground (arith, eq_iff invalid_string control_string))), tt), (tt, tt))

-- Of fewer than 2^32 - 1 names the constructor accepts exactly those that differ from one another and from
-- the two reserved ones. It then numbers them from 2 on, in their order; otherwise its assert fails.
pub new_id_manager_lem :
    (names : List String)
    → length names + 2 ≤ 2 ^ 32
    → (Distinct (invalid_string ∷ control_string ∷ names)
        × ((m : IdManager) × (new_id_manager names ≡ done m)
            × ((n : String) (i : ℕ) → get_elem? names i ≡ some n → to_id m n ≡ done (i + 2))))
      ⊎ ((Distinct (invalid_string ∷ control_string ∷ names) → ⊥) × (new_id_manager names ≡ aborts))
new_id_manager_lem names small = elim (repeats reserved_names names reserved_names-Distinct) [
  | inl d ↦ inl (d, new_id_manager_accepts names d small)
  | inr r ↦
      let seen = reserved_names ++ r.0 in
      let whole : reserved_names ++ names ≡ seen ++ (r.1 ∷ r.2) =
        rw (r.4) (sym (append_assoc reserved_names r.0 (r.1 ∷ r.2))) in
      let short : length r.0 + 2 ≤ 2 ^ 32 =
        omega (arith, small, ap length r.4, length-append r.0 (r.1 ∷ r.2)) in
      inr (
        λ d.
            let apart = (Distinct-remove seen (r.2) r.1 (subst Distinct whole d)).1 in
            not_there r.1 r.3 seen (All-append_left (λ y. y ≢ r.1) seen r.2 apart) r.5,
        rw (r.4) (new_id_manager_rejects r.0 r.2 r.1 r.3 r.5 short),
      )
]
