-- ===== src/Base/Int.antt =====
-- Python's integers, over the native numbers.
use Prim.Native.Nat.{ℕ, suc}
use mathlib.Core.Bool.{Bool, ◌&&◌}
use coding_agents_databricks.Base.Tests.{nat_eq}

-- `negsuc n` is -(n + 1).
pub data ℤ : Type 0 where
  pos : ℕ → ℤ
  negsuc : ℕ → ℤ

abbrev pub pos_part : ℤ → ℕ
pos_part (pos n) = n
pos_part (negsuc n) = 0

abbrev pub neg_part : ℤ → ℕ
neg_part (pos n) = 0
neg_part (negsuc n) = suc n

abbrev pub eq_ℤ : ℤ → ℤ → Bool
eq_ℤ a b = nat_eq (pos_part a) (pos_part b) && nat_eq (neg_part a) (neg_part b)
