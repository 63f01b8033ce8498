-- ===== src/Utf8.antt =====
-- The standard library's `String::from_utf8_lossy`. A `String` or `&str` is the list of its bytes.
use ricq.Base.{ℕ, zero, suc, ◌≡◌, refl, ◌<◌, arith, Bool, ◌&&◌}
use ricq.Base.{
  List, [], ◌∷◌, ◌++◌, length, take, drop, All, ap, ltb, leb, ◌==◌, if◌then◌else◌, lt→ltb,
}

abbrev pub within : ℕ → ℕ → ℕ → Bool
within lo hi b = leb lo b && leb b hi

-- How many bytes a sequence that starts with `b` has; 0 if none starts so.
unfoldable pub width : ℕ → ℕ
width b =
    if ltb b 0x80
    then 1
    else if within 0xC2 0xDF b
    then 2
    else if within 0xE0 0xEF b
    then 3
    else if within 0xF0 0xF4 b
    then 4
    else 0

unfoldable pub continues : ℕ → Bool
continues b = within 0x80 0xBF b

-- The second byte rules out overlong forms, surrogates and what lies beyond the last code point.
unfoldable pub second : ℕ → ℕ → Bool
second b c =
    if b == 0xE0
    then within 0xA0 0xBF c
    else if b == 0xED
    then within 0x80 0x9F c
    else if b == 0xF0
    then within 0x90 0xBF c
    else if b == 0xF4
    then within 0x80 0x8F c
    else within 0x80 0xBF c

-- How many of the bytes behind `b` belong to its sequence, as far as that is right.
unfoldable pub matched : ℕ → List ℕ → ℕ
matched b [] = 0
matched b (c ∷ []) = if ltb 1 (width b) && second b c then 1 else 0
matched b (c ∷ d ∷ []) =
    if ltb 1 (width b) && second b c then if ltb 2 (width b) && continues d then 2 else 1 else 0
matched b (c ∷ d ∷ e ∷ r) =
    if ltb 1 (width b) && second b c
    then if ltb 2 (width b) && continues d
      then if ltb 3 (width b) && continues e then 3 else 2
      else 1
    else 0

abbrev pub replacement : List ℕ
replacement = 0xEF ∷ 0xBF ∷ 0xBD ∷ []

-- A sequence that breaks off is replaced as far as it went.
unfoldable pub lossy_loop : ℕ → List ℕ → List ℕ
lossy_loop zero bytes = []
lossy_loop (suc fuel) [] = []
lossy_loop (suc fuel) (b ∷ r) =
    let n = matched b r in
    let rest = lossy_loop fuel (drop n r) in
    if suc n == width b then b ∷ (take n r ++ rest) else replacement ++ rest

unfoldable pub from_utf8_lossy : List ℕ → List ℕ
from_utf8_lossy bytes = lossy_loop (length bytes) bytes

abbrev pub IsAscii : List ℕ → Type 0
IsAscii bytes = All (λ b. b < 0x80) bytes

-- Bytes that a `String` may hold.
abbrev pub IsText : List ℕ → Type 0
IsText bytes = from_utf8_lossy bytes ≡ bytes

ascii_width : (b : ℕ) → b < 0x80 → width b ≡ 1
unfolding width
ascii_width b h = rw (lt→ltb b 0x80 h)

ascii_matched : (b : ℕ) (r : List ℕ) → b < 0x80 → matched b r ≡ 0
unfolding matched
ascii_matched b [] h = refl
ascii_matched b (c ∷ []) h = rw (ascii_width b h)
ascii_matched b (c ∷ d ∷ []) h = rw (ascii_width b h)
ascii_matched b (c ∷ d ∷ e ∷ r) h = rw (ascii_width b h)

lossy_loop-IsAscii :
    (fuel : ℕ) (bytes : List ℕ)
    → length bytes < suc fuel
    → IsAscii bytes
    → lossy_loop fuel bytes ≡ bytes
unfolding lossy_loop
lossy_loop-IsAscii zero [] h a = refl
lossy_loop-IsAscii zero (b ∷ r) h a = absurd (omega arith)
lossy_loop-IsAscii (suc fuel) [] h a = refl
lossy_loop-IsAscii (suc fuel) (b ∷ r) h a =
    rw (ascii_matched b r a.0, ascii_width b a.0)
      (ap (λ t. b ∷ t) (lossy_loop-IsAscii fuel r (omega arith) a.1))

pub IsAscii-IsText : (bytes : List ℕ) → IsAscii bytes → IsText bytes
unfolding from_utf8_lossy
IsAscii-IsText bytes h = lossy_loop-IsAscii (length bytes) bytes (omega arith) h
