-- ===== src/Base/Int.antt =====
-- Python's integers where the program gives a meaning to -1.
use Prim.Native.Nat.{ℕ, ◌≤◌}
use mathlib.Core.Bool.{Bool, true, false}
use mathlib.Core.Path.{ap}
use native.Mathlib.Decide.{ℕ_discrete}
use kimina_lean_server.Base.Tests.{ltb, leb}

-- `negsuc n` is -(n + 1).
pub data ℤ : Type 0 where
  pos : ℕ → ℤ
  negsuc : ℕ → ℤ

-- `z < 0`.
abbrev pub is_negative : ℤ → Bool
is_negative (pos n) = false
is_negative (negsuc n) = true

-- `n < z` and `z <= n`, for a number `n` that is not negative.
abbrev pub below : ℕ → ℤ → Bool
below n (pos m) = ltb n m
below n (negsuc m) = false

abbrev pub reached : ℤ → ℕ → Bool
reached (pos m) n = leb m n
reached (negsuc m) n = true

-- `z == 0` and `z < -1`.
abbrev pub is_zero : ℤ → Bool
is_zero (pos n) = leb n 0
is_zero (negsuc n) = false

abbrev pub below_minus_one : ℤ → Bool
below_minus_one (pos n) = false
below_minus_one (negsuc n) = ltb 0 n

-- `n <= z`, where a negative `z` stands for no bound.
abbrev pub AtMost : ℕ → ℤ → Type 0
AtMost n (pos m) = n ≤ m
AtMost n (negsuc m) = Unit

unfoldable pub ℤ_discrete : Discrete ℤ
ℤ_discrete (pos a) (pos b) = elim (ℕ_discrete a b) [
  | yes p ↦ yes (ap pos p)
  | no n ↦ no (λ e. n (cc))
]
ℤ_discrete (negsuc a) (negsuc b) = elim (ℕ_discrete a b) [
  | yes p ↦ yes (ap negsuc p)
  | no n ↦ no (λ e. n (cc))
]
ℤ_discrete (pos a) (negsuc b) = no (λ e. cc)
ℤ_discrete (negsuc a) (pos b) = no (λ e. cc)
