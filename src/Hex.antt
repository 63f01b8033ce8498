-- ===== src/Hex.antt =====
-- ricq-core/src/hex.rs: bytes as hexadecimal digits. A text is the list of its bytes; cutting it
-- inside of a character, or behind its end, panics. `none` is a `ParseIntError`.
pub mod RoundTrip
use ricq.Base.{ℕ, zero, suc, ◌+◌, ◌-◌, ◌*◌, ◌/◌, ◌%◌, List, [], ◌∷◌, Bool, false, ◌&&◌, ◌||◌}
use ricq.Base.{Option, none, some, leb, ltb, ◌==◌, if◌then◌else◌}
use ricq.Result.{Result, ok, panic, map_ok}

abbrev pub hex_value : ℕ → Option ℕ
hex_value c =
    if leb 48 c && leb c 57
    then some (c - 48)
    else if leb 65 c && leb c 70
    then some (c - 55)
    else if leb 97 c && leb c 102
    then some (c - 87)
    else none

abbrev pub two_digits : Option ℕ → Option ℕ → Option ℕ
two_digits none d = none
two_digits (some c) none = none
two_digits (some c) (some d) = some (c * 16 + d)

-- `u8::from_str_radix(_, 16)` of two bytes: a sign may stand in place of the first digit.
unfoldable pub from_str_radix : ℕ → ℕ → Option ℕ
from_str_radix c d = if c == 43 then hex_value d else two_digits (hex_value c) (hex_value d)

-- A byte that does not start a character.
abbrev pub inside : List ℕ → Bool
inside [] = false
inside (b ∷ s) = leb 0x80 b && leb b 0xBF

abbrev pub in_front : ℕ → Option (List ℕ) → Option (List ℕ)
in_front b none = none
in_front b (some bytes) = some (b ∷ bytes)

-- The byte of two digits, and the rest unless it is none.
abbrev pub collect : Option ℕ → Result (Option (List ℕ)) → Result (Option (List ℕ))
collect none rest = ok none
collect (some b) rest = map_ok (in_front b) rest

unfoldable pub decode_hex : List ℕ → Result (Option (List ℕ))
decode_hex [] = ok (some [])
decode_hex (c ∷ []) = panic
decode_hex (c ∷ d ∷ s) =
    let rest = decode_hex s in
    if inside (c ∷ []) || inside s then panic else collect (from_str_radix c d) rest

abbrev pub hex_digit : ℕ → ℕ
hex_digit n = if ltb n 10 then 48 + n else 87 + n

unfoldable pub encode_hex : List ℕ → List ℕ
encode_hex [] = []
encode_hex (b ∷ bytes) = hex_digit (b / 16) ∷ hex_digit (b % 16) ∷ encode_hex bytes
