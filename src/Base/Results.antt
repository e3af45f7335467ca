-- ===== src/Base/Results.antt =====
-- How a call of the program ends: with a value, or in one of the ways that give none.
use mathlib.Core.Path.{◌≡◌, refl}

-- `aborts` is a failed assert (the build defines no NDEBUG), `throws` an exception, `faults`
-- undefined behaviour. `stuck` is no behaviour of the program: the fuel of a loop ran out.
pub data Outcome {ℓ} (A : Type ℓ) : Type ℓ where
  done : A → Outcome A
  aborts throws faults stuck : Outcome A

infixl 5 ◌>>=◌ ◌>>◌
abbrev pub ◌>>=◌ {ℓ κ} : {A : Type ℓ} {B : Type κ} → Outcome A → (A → Outcome B) → Outcome B
done a >>= f = f a
aborts >>= f = aborts
throws >>= f = throws
faults >>= f = faults
stuck >>= f = stuck

abbrev pub ◌>>◌ {ℓ} : {B : Type ℓ} → Outcome (Unit {0}) → Outcome B → Outcome B
m >> k = m >>= λ _. k

-- A successful chain has a successful first part.
pub >>=-eq-done {ℓ κ} :
    {A : Type ℓ} {B : Type κ} (m : Outcome A) (f : A → Outcome B) {b : B}
    → (m >>= f) ≡ done b
    → (a : A) × (m ≡ done a) × (f a ≡ done b)
>>=-eq-done (done a) f h = (a, refl, h)
>>=-eq-done aborts f h = cc
>>=-eq-done throws f h = cc
>>=-eq-done faults f h = cc
>>=-eq-done stuck f h = cc

-- A call that does not fault, and whose value has a property where it gives one.
abbrev pub NoFault {ℓ} : {A : Type ℓ} → (A → Type 0) → Outcome A → Type 0
NoFault P (done a) = P a
NoFault P aborts = Unit {0}
NoFault P throws = Unit {0}
NoFault P faults = ⊥
NoFault P stuck = Unit {0}

pub NoFault->>= {ℓ κ} :
    {A : Type ℓ} {B : Type κ} (P : A → Type 0) (Q : B → Type 0) (m : Outcome A) (f : A → Outcome B)
    → NoFault P m
    → ((a : A) → P a → NoFault Q (f a))
    → NoFault Q (m >>= f)
NoFault->>= P Q (done a) f h next = next a h
NoFault->>= P Q aborts f h next = tt
NoFault->>= P Q throws f h next = tt
NoFault->>= P Q faults f h next = absurd h
NoFault->>= P Q stuck f h next = tt
