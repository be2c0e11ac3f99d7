-- ===== src/Common/Int.antt =====
-- Python's integers, by sign: what the code asks of them is a comparison with a natural number.
use Prim.Native.Nat.{ℕ}
use mathlib.Core.Bool.{Bool, true, false}
use ai_workflow_control_plan.Common.Tests.{ltb}

-- `negsuc n` is -(n + 1).
pub data ℤ : Type 0 where
  pos : ℕ → ℤ
  negsuc : ℕ → ℤ

-- `max(0, z)`
abbrev pub pos_part : ℤ → ℕ
pos_part (pos n) = n
pos_part (negsuc n) = 0

-- `n < z` for a natural number `n`
abbrev pub lt_ℤ : ℕ → ℤ → Bool
lt_ℤ n (pos m) = ltb n m
lt_ℤ n (negsuc m) = false

abbrev pub is_negative : ℤ → Bool
is_negative (pos n) = false
is_negative (negsuc n) = true
