-- ===== src/Base/Int.antt =====
-- Signed integers over the native numbers, as far as the program looks at a sign.
use Prim.Native.Nat.{ℕ}
use mathlib.Core.Bool.{Bool, true, false}
use agents_for_dummies.Base.Tests.{ltb}

-- `negsuc n` is -(n + 1).
pub data ℤ : Type 0 where
  pos : ℕ → ℤ
  negsuc : ℕ → ℤ

-- max(0, z)
abbrev pub clamp_zero : ℤ → ℕ
clamp_zero (pos n) = n
clamp_zero (negsuc n) = 0

-- z < 0
abbrev pub is_negative : ℤ → Bool
is_negative (pos n) = false
is_negative (negsuc n) = true

-- z > 0
abbrev pub is_positive : ℤ → Bool
is_positive (pos n) = ltb 0 n
is_positive (negsuc n) = false
