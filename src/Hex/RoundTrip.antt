-- ===== src/Hex/RoundTrip.antt =====
-- `decode_hex` and `encode_hex` of ricq-core/src/hex.rs.
use ricq.Base.{
  ℕ, ◌/◌, ◌%◌, ◌<◌, ◌≡◌, refl, arith, ap, List, [], ◌∷◌, Bool, true, false, ◌==◌, ==_eq,
}
use ricq.Base.{Option, none, some}
use ricq.Base.Bits.{passes, passes_lem}
use ricq.Wire.{IsBytes}
use ricq.Result.{ok}
use ricq.Hex.{hex_digit, inside, from_str_radix, encode_hex, decode_hex}

is_some : ℕ → Option ℕ → Bool
is_some b none = false
is_some b (some c) = c == b

is_some→≡ : (b : ℕ) (o : Option ℕ) → is_some b o ≡ true → o ≡ some b
unfolding is_some
is_some→≡ b none h = absurd (cc)
is_some→≡ b (some c) h = ap some (==_eq c b h)

from_str_radix-hex_digit :
    (b : ℕ) → b < 256 → from_str_radix (hex_digit (b / 16)) (hex_digit (b % 16)) ≡ some b
unfolding from_str_radix is_some passes
from_str_radix-hex_digit b h = is_some→≡ b _ (
    passes_lem (λ x. is_some x (from_str_radix (hex_digit (x / 16)) (hex_digit (x % 16)))) 256 b h
      refl)

-- A digit is a character of its own.
starts : (b : ℕ) (s : List ℕ) → b < 16 → inside (hex_digit b ∷ s) ≡ false
starts b s h = ground arith

encode_hex-starts : (bytes : List ℕ) → IsBytes bytes → inside (encode_hex bytes) ≡ false
unfolding encode_hex
encode_hex-starts [] h = refl
encode_hex-starts (b ∷ bytes) h = starts (b / 16) [] (omega (arith, h.0))

-- For every list of bytes, `decode_hex` of its digits returns the bytes.
pub decode_hex-encode_hex :
    (bytes : List ℕ) → IsBytes bytes → decode_hex (encode_hex bytes) ≡ ok (some bytes)
unfolding decode_hex encode_hex
decode_hex-encode_hex [] h = refl
decode_hex-encode_hex (b ∷ bytes) h = rw (
  starts (b / 16) [] (omega (arith, h.0)),
  encode_hex-starts bytes h.1,
  from_str_radix-hex_digit b h.0,
  decode_hex-encode_hex bytes h.1,
)
