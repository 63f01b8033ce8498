-- ===== src/Base/Bits.antt =====
-- `|` and `&` on machine words, in terms of sums and remainders: the lemmas that crypto and
-- common.rs need.
use Prim.Native.Nat.{ℕ, zero, suc, ◌+◌, ◌*◌, ◌/◌, ◌%◌, ◌^◌, ◌≤◌, ◌<◌, min, max}
use Prim.Native.Nat.{bit_and, bit_or, digits, bit_and-bitwise, bit_or-bitwise}
use mathlib.Core.Path.{◌≡◌, refl, ap}
use mathlib.Core.Bool.{Bool, true, ◌&&◌}
use native.Mathlib.Nat.{pow-suc}
use native.Mathlib.Omega.{arith}
use ricq.Base.Tests.{◌==◌, ==_eq}

-- The digit recursion needs no more fuel than its first number.
module _ (z : ℕ → ℕ) (f : ℕ → ℕ → ℕ) where
  more_fuel : (n m a b : ℕ) → a ≤ n → a ≤ m → digits z f n a b ≡ digits z f m a b
  more_fuel zero zero a b p q = refl
  more_fuel zero (suc m) zero b p q = refl
  more_fuel zero (suc m) (suc a) b p q = absurd (omega arith)
  more_fuel (suc n) zero zero b p q = refl
  more_fuel (suc n) zero (suc a) b p q = absurd (omega arith)
  more_fuel (suc n) (suc m) zero b p q = refl
  more_fuel (suc n) (suc m) (suc a) b p q =
      ap (λ (t : ℕ). t * 2 + f (suc a % 2) (b % 2))
        (more_fuel n m (suc a / 2) (b / 2) (omega arith) (omega arith))

zero-bit_or : (b : ℕ) → bit_or 0 b ≡ b
zero-bit_or b = bit_or-bitwise 0 b

bit_or_digit : (a b : ℕ) → bit_or a b ≡ bit_or (a / 2) (b / 2) * 2 + max (a % 2) (b % 2)
bit_or_digit zero b = omega (arith, zero-bit_or b, zero-bit_or (b / 2))
bit_or_digit (suc a) b = omega (
  arith,
  bit_or-bitwise (suc a) b,
  bit_or-bitwise (suc a / 2) (b / 2),
  more_fuel (λ y. y) max a (suc a / 2) (suc a / 2) (b / 2) (omega arith) (omega arith),
)

bit_or-zero_fuel : (n a : ℕ) → a ≤ n → bit_or a 0 ≡ a
bit_or-zero_fuel n zero h = zero-bit_or 0
bit_or-zero_fuel zero (suc a) h = absurd (omega arith)
bit_or-zero_fuel (suc n) (suc a) h =
    omega (arith, bit_or_digit (suc a) 0, bit_or-zero_fuel n (suc a / 2) (omega arith))

-- `(q << k) | r` is a sum where `r` has `k` bits.
pub bit_or-shifted : (k q r : ℕ) → r < 2 ^ k → bit_or (q * 2 ^ k) r ≡ q * 2 ^ k + r
bit_or-shifted zero q zero h = omega (arith, bit_or-zero_fuel (q * 1) (q * 1) (omega arith))
bit_or-shifted zero q (suc r) h = absurd (omega arith)
bit_or-shifted (suc k) q r h = ground (
  arith,
  pow-suc 2 k,
  ap (λ (t : ℕ). q * t) (pow-suc 2 k),
  bit_or_digit (q * 2 ^ suc k) r,
  bit_or-shifted k q (r / 2) (omega (arith, pow-suc 2 k)),
)

-- A test that every number under a bound passes; it is settled by running it.
unfoldable pub passes : (ℕ → Bool) → ℕ → Bool
passes test zero = true
passes test (suc k) = passes test k && test k

pub passes_lem :
    (test : ℕ → Bool) (bound value : ℕ)
    → value < bound
    → passes test bound ≡ true
    → test value ≡ true
unfolding passes
passes_lem test zero value small run = absurd (omega arith)
passes_lem test (suc k) value small run = ground (arith, passes_lem test k value)

-- The padding length in the low three bits of the first byte.
pub low_three : (n : ℕ) → n < 8 → bit_and (bit_or n 0xF8) 7 ≡ n
unfolding passes
low_three n h = ==_eq _ n (passes_lem (λ x. bit_and (bit_or x 0xF8) 7 == x) 8 n h refl)

pub bit_or_flags-lt : (n : ℕ) → n < 8 → bit_or n 0xF8 < 256
unfolding passes
bit_or_flags-lt n h =
    omega (arith, ==_eq _ (n + 0xF8) (passes_lem (λ x. bit_or x 0xF8 == x + 0xF8) 8 n h refl))

zero-bit_and : (b : ℕ) → bit_and 0 b ≡ 0
zero-bit_and b = bit_and-bitwise 0 b

bit_and_digit : (a b : ℕ) → bit_and a b ≡ bit_and (a / 2) (b / 2) * 2 + min (a % 2) (b % 2)
bit_and_digit zero b = omega (arith, zero-bit_and b, zero-bit_and (b / 2))
bit_and_digit (suc a) b = omega (
  arith,
  bit_and-bitwise (suc a) b,
  bit_and-bitwise (suc a / 2) (b / 2),
  more_fuel (λ y. 0) min a (suc a / 2) (suc a / 2) (b / 2) (omega arith) (omega arith),
)

-- `& 7` is at most 7 whatever the number.
pub bit_and_seven-lt : (a : ℕ) → bit_and a 7 < 8
bit_and_seven-lt a = omega (
  arith,
  bit_and_digit a 7,
  bit_and_digit (a / 2) 3,
  bit_and_digit (a / 2 / 2) 1,
  and_zero (a / 2 / 2 / 2) (a / 2 / 2 / 2) (omega arith),
)
  where
    and_zero : (n c : ℕ) → c ≤ n → bit_and c 0 ≡ 0
    and_zero n zero h = zero-bit_and 0
    and_zero zero (suc c) h = absurd (omega arith)
    and_zero (suc n) (suc c) h =
        omega (arith, bit_and_digit (suc c) 0, and_zero n (suc c / 2) (omega arith))
