-- ===== src/Common/Int.antt =====
-- Python's `int` where it may be negative, over the native numbers.
use tinyray.Common.Tests.{leb}
use Prim.Native.Nat.{ℕ}
use mathlib.Core.Bool.{Bool, false, ◌&&◌}

pub data ℤ : Type 0 where
  pos : ℕ → ℤ
  -- negsuc n is -(n + 1)
  negsuc : ℕ → ℤ

-- lo <= z <= hi
abbrev pub is_between : ℕ → ℕ → ℤ → Bool
is_between lo hi (pos n) = leb lo n && leb n hi
is_between lo hi (negsuc n) = false

-- max(0, z)
abbrev pub or_zero : ℤ → ℕ
or_zero (pos n) = n
or_zero (negsuc n) = 0
