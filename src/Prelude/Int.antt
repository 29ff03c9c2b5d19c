-- ===== src/Prelude/Int.antt =====
-- Signed integers over the native numbers, as Python's `int`; decimals, as JSON writes a `float`.
use perovskite_fabrication_w.Prelude.Tests.{ltb}
use Prim.Native.Nat.{ℕ}
use mathlib.Core.Bool.{Bool, true, false}

-- `negsuc n` is -(n + 1).
pub data ℤ : Type 0 where
  pos : ℕ → ℤ
  negsuc : ℕ → ℤ

-- `value > 0`
abbrev pub is_positive : ℤ → Bool
is_positive (pos n) = ltb 0 n
is_positive (negsuc n) = false

-- `value >= 0`
abbrev pub is_nonneg : ℤ → Bool
is_nonneg (pos n) = true
is_nonneg (negsuc n) = false

-- The finite number `unscaled` * 10 ^ -`scale`.
pub record Decimal : Type 0 where
  pub unscaled : ℤ
  pub scale : ℕ
