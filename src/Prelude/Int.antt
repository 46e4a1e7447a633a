-- ===== src/Prelude/Int.antt =====
-- The signed numbers that the program meets: process ids, CPU numbers, return codes, time stamps.
use Prim.Native.Nat.{ℕ}
use mathlib.Core.Path.{◌≡◌}
use mathlib.Core.Logic.{◌↔◌, inl, inr}
use mathlib.Core.Bool.{Bool, true, false}
use native.Mathlib.Omega.{arith}
use managed_linux_democracy.Prelude.Tests.{eqb, Bool-cases}

-- `negsuc n` is -(n + 1).
pub data ℤ : Type 0 where
  pos : ℕ → ℤ
  negsuc : ℕ → ℤ

abbrev pub eqb_ℤ : ℤ → ℤ → Bool
eqb_ℤ (pos a) (pos b) = eqb a b
eqb_ℤ (pos a) (negsuc b) = false
eqb_ℤ (negsuc a) (pos b) = false
eqb_ℤ (negsuc a) (negsuc b) = eqb a b

pub eqb_ℤ_iff : (a b : ℤ) → (eqb_ℤ a b ≡ true) ↔ (a ≡ b)
eqb_ℤ_iff a b = ground arith

pub eq_ℤ : (a b : ℤ) → Dec (a ≡ b)
eq_ℤ a b = elim (Bool-cases (eqb_ℤ a b)) [
  | inl same ↦ yes ((eqb_ℤ_iff a b).0 same)
  | inr other ↦ no (λ e. ground (arith, eqb_ℤ_iff a b))
]
