-- ===== src/Base/Int.antt =====
-- The `int` that a system call or a socket method returns.
use Prim.Native.Nat.{ℕ, zero, suc}
use mathlib.Core.Path.{◌≡◌, refl, ap}
use native.Mathlib.Omega.{arith}
use packetcomms.Base.Tests.{◌==◌, Bool-cases}
use mathlib.Core.Logic.{◌≢◌, ◌⊎◌, inl, inr}
use mathlib.Core.Bool.{Bool, true, false}

-- `negsuc n` is -(n + 1).
pub data ℤ : Type 0 where
  pos : ℕ → ℤ
  negsuc : ℕ → ℤ

abbrev pub minus_one : ℤ
minus_one = negsuc 0

-- `n == -1`
abbrev pub is_minus_one : ℤ → Bool
is_minus_one (pos n) = false
is_minus_one (negsuc zero) = true
is_minus_one (negsuc (suc n)) = false

pub ℤ-cases : (z : ℤ) → ((n : ℕ) × (z ≡ pos n)) ⊎ ((n : ℕ) × (z ≡ negsuc n))
ℤ-cases (pos n) = inl (n, refl)
ℤ-cases (negsuc n) = inr (n, refl)

-- An `int` is another or it is not.
pub ℤ-same : (a b : ℤ) → (a ≡ b) ⊎ (a ≢ b)
ℤ-same (pos m) (pos n) = elim (Bool-cases (m == n)) [
  | inl e ↦ let q : m ≡ n = ground arith in inl (ap pos q)
  | inr e ↦ inr λ q. let q' : m ≡ n = cc in absurd (ground arith)
]
ℤ-same (pos m) (negsuc n) = inr λ q. cc
ℤ-same (negsuc m) (pos n) = inr λ q. cc
ℤ-same (negsuc m) (negsuc n) = elim (Bool-cases (m == n)) [
  | inl e ↦ let q : m ≡ n = ground arith in inl (ap negsuc q)
  | inr e ↦ inr λ q. let q' : m ≡ n = cc in absurd (ground arith)
]

pub is_minus_one-false : (fd : ℤ) → is_minus_one fd ≡ false → fd ≢ minus_one
is_minus_one-false fd e q = absurd (cc)

pub is_minus_one-true : (fd : ℤ) → is_minus_one fd ≡ true → fd ≡ minus_one
is_minus_one-true (pos n) e = cc
is_minus_one-true (negsuc zero) e = refl
is_minus_one-true (negsuc (suc n)) e = cc
