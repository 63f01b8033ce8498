-- ===== src/Base/Int.antt =====
-- Signed integers over the native numbers, with the division of the source, which rounds to 0.
use ricq.Base.Tests.{leb, ltb, if◌then◌else◌}
use Prim.Native.Nat.{ℕ, zero, suc, ◌+◌, ◌-◌, ◌*◌, ◌/◌, ◌%◌}
use mathlib.Core.Bool.{Bool, false, ◌&&◌}

pub data ℤ : Type 0 where
  pos negsuc : ℕ → ℤ

abbrev pub negative : ℕ → ℤ
negative zero = pos 0
negative (suc n) = negsuc n

abbrev pub difference : ℕ → ℕ → ℤ
difference m n = if ltb m n then negsuc (n - m - 1) else pos (m - n)

infixl 6 ◌+ℤ◌
abbrev pub ◌+ℤ◌ : ℤ → ℤ → ℤ
pos m +ℤ pos n = pos (m + n)
pos m +ℤ negsuc n = difference m (suc n)
negsuc m +ℤ pos n = difference n (suc m)
negsuc m +ℤ negsuc n = negsuc (suc (m + n))

-- Multiplication, quotient and remainder by a number that is not negative.
infixl 7 ◌*ℤ◌ ◌/ℤ◌ ◌%ℤ◌
abbrev pub ◌*ℤ◌ : ℤ → ℕ → ℤ
pos m *ℤ n = pos (m * n)
negsuc m *ℤ n = negative (suc m * n)

abbrev pub ◌/ℤ◌ : ℤ → ℕ → ℤ
pos m /ℤ n = pos (m / n)
negsuc m /ℤ n = negative (suc m / n)

abbrev pub ◌%ℤ◌ : ℤ → ℕ → ℤ
pos m %ℤ n = pos (m % n)
negsuc m %ℤ n = negative (suc m % n)

-- `(lo..=hi).contains(&z)`
abbrev pub contains : ℕ → ℕ → ℤ → Bool
contains lo hi (pos n) = leb lo n && leb n hi
contains lo hi (negsuc n) = false
