-- ===== src/Base/Int.antt =====
-- The values of a C `int` that the program tests: `negsuc n` is -(n + 1).
use Prim.Native.Nat.{ℕ, zero, suc}
use mathlib.Core.Path.{◌≡◌, refl}
use mathlib.Core.Logic.{◌⊎◌, inl, inr}
use mathlib.Core.Bool.{Bool, true, false}

pub data ℤ : Type 0 where
  pos : ℕ → ℤ
  negsuc : ℕ → ℤ

-- `n < 0`
abbrev pub is_negative : ℤ → Bool
is_negative (pos n) = false
is_negative (negsuc n) = true

-- The three answers that the program tells apart: zero, positive, negative.
pub ℤ-cases : (v : ℤ) → (v ≡ pos 0) ⊎ ((n : ℕ) × (v ≡ pos (suc n))) ⊎ ((n : ℕ) × (v ≡ negsuc n))
ℤ-cases (pos zero) = inl refl
ℤ-cases (pos (suc n)) = inr (inl (n, refl))
ℤ-cases (negsuc n) = inr (inr (n, refl))
