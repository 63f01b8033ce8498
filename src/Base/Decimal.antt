-- ===== src/Base/Decimal.antt =====
-- The standard library's decimal numbers: `to_string` of an `i64`, and `parse` of a text.
pub mod RoundTrip
use ricq.Base.Tests.{leb, ltb, ◌==◌, if◌then◌else◌}
use ricq.Base.Int.{ℤ, pos, negsuc, negative}
use Prim.Native.Nat.{ℕ, zero, suc, ◌+◌, ◌-◌, ◌*◌, ◌/◌, ◌%◌}
use mathlib.Core.Bool.{◌&&◌}
use mathlib.Core.Option.{Option, none, some}
use mathlib.Core.List.{List, [], ◌∷◌}

-- The digits of `n` before those that are there; a number below 10 ^ fuel has at most so many.
unfoldable pub digits : ℕ → ℕ → List ℕ → List ℕ
digits zero n acc = acc
digits (suc fuel) n acc =
    let rest = digits fuel (n / 10) ((48 + n % 10) ∷ acc) in
    if ltb n 10 then (48 + n) ∷ acc else rest

unfoldable pub to_string : ℤ → List ℕ
to_string (pos n) = digits 20 n []
to_string (negsuc n) = 45 ∷ digits 20 (suc n) []

-- The number of a text of digits, with the number so far.
unfoldable pub parse_digits : ℕ → List ℕ → Option ℕ
parse_digits acc [] = some acc
parse_digits acc (c ∷ s) =
    let rest = parse_digits (acc * 10 + (c - 48)) s in if leb 48 c && leb c 57 then rest else none

abbrev pub parse_unsigned : List ℕ → Option ℕ
parse_unsigned [] = none
parse_unsigned (c ∷ s) = parse_digits 0 (c ∷ s)

abbrev pub in_range : ℕ → Option ℕ → Option ℤ
in_range limit none = none
in_range limit (some n) = if ltb n limit then some (pos n) else none

abbrev pub in_range_negative : ℕ → Option ℕ → Option ℤ
in_range_negative limit none = none
in_range_negative limit (some n) = if leb n limit then some (negative n) else none

-- `parse` to a signed integer with values from `- limit` up to and without `limit`.
unfoldable pub parse : ℕ → List ℕ → Option ℤ
parse limit [] = none
parse limit (c ∷ s) =
    if c == 45
    then in_range_negative limit (parse_unsigned s)
    else if c == 43
    then in_range limit (parse_unsigned s)
    else in_range limit (parse_unsigned (c ∷ s))
