-- ===== src/IdManager/Acceptance.antt =====
-- Which lists of names the constructor accepts.
use packetcomms.Base.{
  ℕ, suc, ◌+◌, ◌≤◌, ◌^◌, ◌≡◌, ◌≢◌, ◌⊎◌, inl, inr, refl, ◌∙◌, ap, String, List, [], ◌∷◌, ◌++◌, none,
  some, Option-cases, length, get_elem?, All, Distinct, arith, done, aborts, ◌>>=◌,
}
use packetcomms.IdManager.{
  IdManager, find, reserved, add_names, new_id_manager, to_id, invalid_string, control_string,
}
use packetcomms.IdManager.Numbering.{
  add, add_names_taken, add_names_fresh, add_names-Agrees, reserved-Agrees, find-cons_miss,
  new_id_manager-Agrees,
}

abbrev Absent : IdManager → String → Type 0
Absent m n = find n m.map ≡ none

add-Absent :
    (name : String) (id : ℕ) (m : IdManager) (names : List String)
    → All (λ n. name ≢ n) names
    → All (Absent m) names
    → All (Absent (add name id m)) names
add-Absent name id m [] d a = tt
add-Absent name id m (n ∷ rest) d a =
    (find-cons_miss name n _ m.map d.0 ∙ a.0, add-Absent name id m rest d.1 a.1)

add_names_accepts :
    (names : List String) (id : ℕ) (m : IdManager)
    → Distinct names
    → All (Absent m) names
    → (m' : IdManager) × (add_names names id m ≡ done m')
add_names_accepts [] id m d a = (m, unfold add_names in refl)
add_names_accepts (name ∷ rest) id m d a =
    let ih =
      add_names_accepts rest (id + 1) (add name id m) d.1 (add-Absent name id m rest d.0 a.1) in
    (ih.0, add_names_fresh name rest id m a.0 ∙ ih.1)

reserved-Absent :
    (names : List String)
    → All (λ n. invalid_string ≢ n) names
    → All (λ n. control_string ≢ n) names
    → All (Absent reserved) names
reserved-Absent [] p q = tt
reserved-Absent (n ∷ rest) p q = (
  find-cons_miss control_string n 1 _ q.0
      ∙ find-cons_miss invalid_string n 0 [] p.0
      ∙ (unfold find in refl),
  reserved-Absent rest p.1 q.1,
)

-- A list of fewer than 2^32 - 1 names, distinct from one another and from the reserved ones, is
-- accepted, and its i-th name (from 0) gets the number i + 2.
pub new_id_manager_accepts :
    (names : List String)
    → Distinct (invalid_string ∷ control_string ∷ names)
    → length names + 2 ≤ 2 ^ 32
    → (m : IdManager) × (new_id_manager names ≡ done m)
      × ((n : String) (i : ℕ) → get_elem? names i ≡ some n → to_id m n ≡ done (i + 2))
new_id_manager_accepts names d small = (made.0, made.1, numbers)
  where
    made : (m : IdManager) × (new_id_manager names ≡ done m)
    made =
        let r = add_names_accepts names 1 reserved d.1.1 (reserved-Absent names d.0.1 d.1.0) in
        (r.0, unfold new_id_manager in r.1)

    numbers : (n : String) (i : ℕ) → get_elem? names i ≡ some n → to_id made.0 n ≡ done (i + 2)
    numbers n i h =
        let v = new_id_manager-Agrees names made.0 small made.1 in
        let at : get_elem? (made.0).reverse (suc (suc i)) ≡ some n = rw v.1 h in
        let e : suc (suc i) ≡ i + 2 = omega arith in
        unfold to_id in rw (v.0.complete n (suc (suc i)) at, to_id) (ap done e)

add_names_cases :
    (names : List String) (id : ℕ) (m : IdManager)
    → (add_names names id m ≡ aborts) ⊎ ((m' : IdManager) × (add_names names id m ≡ done m'))
add_names_cases [] id m = inr (m, unfold add_names in refl)
add_names_cases (name ∷ rest) id m = elim (Option-cases (find name m.map)) [
  | inl fresh ↦
      rw (add_names_fresh name rest id m fresh) (add_names_cases rest (id + 1) (add name id m))
  | inr (k, taken) ↦ inl (add_names_taken name rest id k m taken)
]

add_names-append :
    (front back : List String) (id last : ℕ) (m : IdManager)
    → last ≡ id + length front
    → add_names (front ++ back) id m ≡ (add_names front id m >>= λ m'. add_names back last m')
add_names-append [] back id last m e =
    let e' : last ≡ id = omega arith in rw e' (unfold add_names in refl)
add_names-append (name ∷ rest) back id last m e = elim (Option-cases (find name m.map)) [
  | inl fresh ↦
      rw (add_names_fresh name (rest ++ back) id m fresh, add_names_fresh name rest id m fresh)
        (add_names-append rest back (id + 1) last (add name id m) (omega arith))
  | inr (k, taken) ↦
      rw (add_names_taken name (rest ++ back) id k m taken, add_names_taken name rest id k m taken)
        refl
]

-- A list in which a name occurs that is reserved or stands earlier in the list fails the assert, if
-- fewer than 2^32 - 1 names stand before it.
pub new_id_manager_rejects :
    (front back : List String) (name : String) (i : ℕ)
    → get_elem? (invalid_string ∷ control_string ∷ front) i ≡ some name
    → length front + 2 ≤ 2 ^ 32
    → new_id_manager (front ++ (name ∷ back)) ≡ aborts
unfolding new_id_manager
new_id_manager_rejects front back name i at small =
    add_names-append front (name ∷ back) 1 (1 + length front) reserved refl
    ∙ outcome (add_names_cases front 1 reserved)
  where
    outcome :
        (add_names front 1 reserved ≡ aborts)
          ⊎ ((m : IdManager) × (add_names front 1 reserved ≡ done m))
        → (add_names front 1 reserved >>= λ m. add_names (name ∷ back) (1 + length front) m)
          ≡ aborts
    outcome (inl e) = rw e
    outcome (inr (m, e)) =
        let v =
          add_names-Agrees front 1 (1 + length front) reserved m refl (omega arith) reserved-Agrees
            e in
        let there : get_elem? m.reverse i ≡ some name = rw v.1 at in
        rw e (add_names_taken name back _ i m (v.0.complete name i there))
