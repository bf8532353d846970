-- ===== src/Base/Ints.antt =====
-- Signed integers, and Go durations as integers of nanoseconds.
use Prim.Native.Nat.{ℕ, zero, suc, ◌*◌}
use mathlib.Core.Bool.{Bool, true, false}

-- `negsuc n` is -(n + 1).
pub data ℤ : Type 0 where
  pos : ℕ → ℤ
  negsuc : ℕ → ℤ

-- `a <= 0`
abbrev pub is_nonpositive : ℤ → Bool
is_nonpositive (pos zero) = true
is_nonpositive (pos (suc n)) = false
is_nonpositive (negsuc n) = true

-- `if a < 0 { a = 0 }`
abbrev pub clamp : ℤ → ℕ
clamp (pos n) = n
clamp (negsuc n) = 0

abbrev pub seconds : ℕ → ℤ
seconds n = pos (n * 1000000000)
