-- ===== src/IdManager/Numbering.antt =====
-- The numbers that a list of names is given.
use packetcomms.Base.{
  ℕ, zero, suc, ◌+◌, ◌≤◌, ◌<◌, ◌^◌, ◌%◌, ◌≡◌, ◌≢◌, ◌↔◌, ◌⊎◌, inl, inr, refl, sym, ◌∙◌, ap, String,
  eq_iff, eq_refl, List, [], ◌∷◌, ◌++◌, append_assoc, append-nil, none, some, Option-cases, length,
  length-append, get_elem?, get_elem?-append_left, get_elem?-append_right, get_elem?_lt, arith,
  done, aborts,
}
use packetcomms.IdManager.{
  IdManager, find, reserved, add_names, new_id_manager, to_id, to_string, invalid_string,
  control_string,
}

-- The map and the vector are inverse to one another, and `id` is the last number given out.
pub record Agrees (m : IdManager) (id : ℕ) : Type 0 where
  pub counted : length m.reverse ≡ id + 1
  pub sound : (n : String) (k : ℕ) → find n m.map ≡ some k → get_elem? m.reverse k ≡ some n
  pub complete : (n : String) (k : ℕ) → get_elem? m.reverse k ≡ some n → find n m.map ≡ some k

abbrev pub add : String → ℕ → IdManager → IdManager
add name id m = record {
  map = (name, (id + 1) % 2 ^ 32) ∷ m.map;
  reverse = m.reverse ++ (name ∷ []);
}

find-cons :
    (key name : String) (id : ℕ) (rest : List (String × ℕ)) (k : ℕ)
    → find name ((key, id) ∷ rest) ≡ some k
    → ((key ≡ name) × (id ≡ k)) ⊎ (find name rest ≡ some k)
unfolding find
find-cons key name id rest k h = ground (arith, eq_iff key name)

find-cons_hit :
    (name : String) (id : ℕ) (rest : List (String × ℕ)) → find name ((name, id) ∷ rest) ≡ some id
unfolding find
find-cons_hit name id rest = rw (eq_refl name)

pub find-cons_miss :
    (key name : String) (id : ℕ) (rest : List (String × ℕ))
    → key ≢ name
    → find name ((key, id) ∷ rest) ≡ find name rest
unfolding find
find-cons_miss key name id rest h = ground (arith, eq_iff key name)

get_elem?-snoc :
    (xs : List String) (name n : String) (k : ℕ)
    → get_elem? (xs ++ (name ∷ [])) k ≡ some n
    → ((k < length xs) × (get_elem? xs k ≡ some n)) ⊎ ((k ≡ length xs) × (name ≡ n))
get_elem?-snoc [] name n zero h = inr (refl, ground arith)
get_elem?-snoc [] name n (suc k) h = cc
get_elem?-snoc (x ∷ xs) name n zero h = inl (omega arith, h)
get_elem?-snoc (x ∷ xs) name n (suc k) h = elim (get_elem?-snoc xs name n k h) [
  | inl (p, q) ↦ inl (omega arith, q)
  | inr (p, q) ↦ inr (ap suc p, q)
]

add-Agrees :
    (name : String) (id : ℕ) (m : IdManager)
    → id + 1 < 2 ^ 32
    → find name m.map ≡ none
    → Agrees m id
    → Agrees (add name id m) (id + 1)
add-Agrees name id m small fresh v = record {
  counted = omega (arith, length-append {0} m.reverse (name ∷ []), v.counted);
  sound = λ n k h. elim (find-cons name n _ m.map k h) [
    | inl (e, q) ↦
        get_elem?-append_right m.reverse (name ∷ []) k 0 (omega (arith, v.counted)) ∙ ap some e
    | inr q ↦
        get_elem?-append_left m.reverse (name ∷ []) k (get_elem?_lt m.reverse k (v.sound n k q))
        ∙ v.sound n k q
  ];
  complete = λ n k h. elim (get_elem?-snoc m.reverse name n k h) [
    | inl (p, q) ↦
        find-cons_miss name n _ m.map (λ e. cc (fresh, ap (λ x. find x m.map) e, v.complete n k q))
        ∙ v.complete n k q
    | inr (p, q) ↦
        let id-eq : (id + 1) % 2 ^ 32 ≡ k = omega (arith, v.counted) in
        rw (← q) (find-cons_hit name _ m.map ∙ ap some id-eq)
  ];
}

pub add_names_taken :
    (name : String) (rest : List String) (id k : ℕ) (m : IdManager)
    → find name m.map ≡ some k
    → add_names (name ∷ rest) id m ≡ aborts
unfolding add_names
add_names_taken name rest id k m taken = rw (taken, add_names)

pub add_names_fresh :
    (name : String) (rest : List String) (id : ℕ) (m : IdManager)
    → find name m.map ≡ none
    → add_names (name ∷ rest) id m ≡ add_names rest (id + 1) (add name id m)
unfolding add_names
add_names_fresh name rest id m fresh = rw (fresh, add_names)

-- The loop gives the names the next numbers, in their order, and keeps the map and the vector inverse.
pub add_names-Agrees :
    (names : List String) (id last : ℕ) (m m' : IdManager)
    → last ≡ id + length names
    → last < 2 ^ 32
    → Agrees m id
    → add_names names id m ≡ done m'
    → Agrees m' last × (m'.reverse ≡ m.reverse ++ names)
add_names-Agrees [] id last m m' e small v h =
    let same : m ≡ m' = unfold add_names in cc in
    let id-eq : id ≡ last = omega arith in rw (← same, ← id-eq) (v, sym (append-nil m.reverse))
add_names-Agrees (name ∷ rest) id last m m' e small v h = elim (Option-cases (find name m.map)) [
  | inl fresh ↦
      let ih =
        add_names-Agrees rest (id + 1) last (add name id m) m' (omega arith) small
          (add-Agrees name id m (omega arith) fresh v)
          (sym (add_names_fresh name rest id m fresh) ∙ h) in
      (ih.0, ih.1 ∙ append_assoc m.reverse (name ∷ []) rest)
  | inr (k, taken) ↦ cc (add_names_taken name rest id k m taken)
]

pub reserved-Agrees : Agrees reserved 1
unfolding find
reserved-Agrees = record {
  counted = refl;
  sound = λ n k h. ground (arith, eq_iff invalid_string n, eq_iff control_string n);
  complete = λ n k h. reserved_complete n k h;
}
  where
    reserved_complete :
        (n : String) (k : ℕ) → get_elem? reserved.reverse k ≡ some n → find n reserved.map ≡ some k
    reserved_complete n zero h = let e : invalid_string ≡ n = ground arith in rw (← e) refl
    reserved_complete n (suc zero) h = let e : control_string ≡ n = ground arith in rw (← e) refl
    reserved_complete n (suc (suc k)) h = cc

module _ (names : List String) (m : IdManager) (small : length names + 2 ≤ 2 ^ 32)
    (made : new_id_manager names ≡ done m) where
  pub new_id_manager-Agrees : Agrees m (1 + length names) × (m.reverse ≡ reserved.reverse ++ names)
  unfolding new_id_manager
  new_id_manager-Agrees =
      add_names-Agrees names 1 (1 + length names) reserved m refl (omega arith) reserved-Agrees made

  -- In a manager made of fewer than 2^32 - 1 names, a name has a number exactly when the number
  -- has that name.
  pub to_id-to_string : (n : String) (k : ℕ) → (to_id m n ≡ done k) ↔ (to_string m k ≡ done n)
  unfolding to_id to_string
  to_id-to_string n k =
      let v = new_id_manager-Agrees.0 in
      (
        λ h.
            let found : find n m.map ≡ some k = ground arith in
            rw (v.sound n k found, to_string) refl,
        λ h.
            let found : get_elem? m.reverse k ≡ some n = ground arith in
            rw (v.complete n k found, to_id) refl,
      )
