-- ===== src/Base/Decimal/RoundTrip.antt =====
-- Lemmas on `to_string` and `parse` of the standard library, for the account in a packet.
use native.Mathlib.Nat.{pow-suc}
use Prim.Native.Nat.{ℕ, zero, suc, ◌+◌, ◌-◌, ◌*◌, ◌/◌, ◌%◌, ◌^◌, ◌≤◌, ◌<◌}
use mathlib.Core.Path.{◌≡◌, refl, ap, ◌∙◌}
use mathlib.Core.Logic.{inl, inr}
use mathlib.Core.Option.{some}
use mathlib.Core.List.{List, [], ◌∷◌}
use native.Mathlib.Omega.{arith}
use ricq.Base.Tests.{ltb, Bool-cases, ltb→lt, lt→ltb, ne→==}
use ricq.Base.Lists.{All, length}
use ricq.Base.Int.{ℤ, pos, negsuc}
use ricq.Base.Decimal.{digits, to_string, parse_digits, parse_unsigned, parse}

abbrev IsDigit : ℕ → Type 0
IsDigit c = (48 ≤ c) × (c ≤ 57)

digits-IsDigit : (fuel n : ℕ) (acc : List ℕ) → All IsDigit acc → All IsDigit (digits fuel n acc)
unfolding digits
digits-IsDigit zero n acc h = h
digits-IsDigit (suc fuel) n acc h = elim (Bool-cases (ltb n 10)) [
  | inl e ↦ rw e (omega (arith, ltb→lt n 10 e), h)
  | inr e ↦ rw e (digits-IsDigit fuel (n / 10) ((48 + n % 10) ∷ acc) (omega arith, h))
]

length-digits : (fuel n : ℕ) (acc : List ℕ) → length (digits fuel n acc) ≤ fuel + length acc
unfolding digits
length-digits zero n acc = omega arith
length-digits (suc fuel) n acc = elim (Bool-cases (ltb n 10)) [
  | inl e ↦ rw e (omega arith)
  | inr e ↦ rw e (omega (arith, length-digits fuel (n / 10) ((48 + n % 10) ∷ acc)))
]

-- At least one digit is written.
digits_start :
    (fuel n c : ℕ) (acc : List ℕ) → (d : ℕ) × (rest : List ℕ) × (digits fuel n (c ∷ acc) ≡ d ∷ rest)
unfolding digits
digits_start zero n c acc = (c, acc, refl)
digits_start (suc fuel) n c acc = elim (Bool-cases (ltb n 10)) [
  | inl e ↦ (48 + n, c ∷ acc, rw e)
  | inr e ↦ rw e (digits_start fuel (n / 10) (48 + n % 10) (c ∷ acc))
]

digits_some : (fuel n : ℕ) → (d : ℕ) × (rest : List ℕ) × (digits (suc fuel) n [] ≡ d ∷ rest)
unfolding digits
digits_some fuel n = elim (Bool-cases (ltb n 10)) [
  | inl e ↦ (48 + n, [], rw e)
  | inr e ↦ rw e (digits_start fuel (n / 10) (48 + n % 10) [])
]

parse_one :
    (acc c : ℕ) (s : List ℕ)
    → IsDigit c
    → parse_digits acc (c ∷ s) ≡ parse_digits (acc * 10 + (c - 48)) s
unfolding parse_digits
parse_one acc c s h = ground arith

parse_digits-digits :
    (fuel n : ℕ) (acc : List ℕ)
    → n < 10 ^ fuel
    → parse_digits 0 (digits fuel n acc) ≡ parse_digits n acc
unfolding digits
parse_digits-digits zero n acc h =
    let none_left : 0 ≡ n = omega arith in ap (λ (t : ℕ). parse_digits t acc) none_left
parse_digits-digits (suc fuel) n acc h = elim (Bool-cases (ltb n 10)) [
  | inl e ↦
      let value : 0 * 10 + (48 + n - 48) ≡ n = omega arith in
      rw e (
        parse_one 0 (48 + n) acc (omega (arith, ltb→lt n 10 e))
        ∙ ap (λ (t : ℕ). parse_digits t acc) value)
  | inr e ↦
      let value : n / 10 * 10 + (48 + n % 10 - 48) ≡ n = omega arith in
      rw e (
        parse_digits-digits fuel (n / 10) ((48 + n % 10) ∷ acc) (omega (arith, pow-suc 10 fuel))
        ∙ parse_one (n / 10) (48 + n % 10) acc (omega arith)
        ∙ ap (λ (t : ℕ). parse_digits t acc) value)
]

parse_unsigned-digits : (n : ℕ) → n < 10 ^ 20 → parse_unsigned (digits 20 n []) ≡ some n
parse_unsigned-digits n h =
    let (d, rest, e) = digits_some 19 n in
    rw e (rw e at (parse_digits-digits 20 n [] h) ∙ (unfold parse_digits in refl))

-- A sign is no digit.
parse_plain :
    (limit n d : ℕ) (rest : List ℕ)
    → IsDigit d
    → parse_unsigned (d ∷ rest) ≡ some n
    → n < limit
    → parse limit (d ∷ rest) ≡ some (pos n)
unfolding parse
parse_plain limit n d rest h e k =
    rw (ne→== d 45 (omega arith), ne→== d 43 (omega arith), e, lt→ltb n limit k)

parse_minus :
    (limit n : ℕ) (s : List ℕ)
    → parse_unsigned s ≡ some (suc n)
    → n < limit
    → parse limit (45 ∷ s) ≡ some (negsuc n)
unfolding parse
parse_minus limit n s e k = rw e (ground arith)

parse-digits : (limit n : ℕ) → n < 10 ^ 20 → n < limit → parse limit (digits 20 n []) ≡ some (pos n)
parse-digits limit n h k =
    let (d, rest, e) = digits_some 19 n in
    rw e (
      parse_plain limit n d rest (rw e at (digits-IsDigit 20 n [] tt)).0
        (rw e at (parse_unsigned-digits n h)) k)

abbrev pub InRange : ℤ → Type 0
InRange (pos n) = n < 2 ^ 63
InRange (negsuc n) = n < 2 ^ 63

pub parse-to_string : (z : ℤ) → InRange z → parse (2 ^ 63) (to_string z) ≡ some z
unfolding to_string
parse-to_string (pos n) h = parse-digits (2 ^ 63) n (omega arith) h
parse-to_string (negsuc n) h =
    parse_minus (2 ^ 63) n (digits 20 (suc n) []) (parse_unsigned-digits (suc n) (omega arith)) h

digits_ascii : (s : List ℕ) → All IsDigit s → All (λ c. c < 0x80) s
digits_ascii [] h = tt
digits_ascii (c ∷ s) h = (omega (arith, h.0), digits_ascii s h.1)

pub to_string_text : (z : ℤ) → All (λ c. c < 0x80) (to_string z) × (length (to_string z) ≤ 21)
unfolding to_string
to_string_text (pos n) = (
  digits_ascii (digits 20 n []) (digits-IsDigit 20 n [] tt),
  omega (arith, length-digits 20 n []),
)
to_string_text (negsuc n) = (
  (omega arith, digits_ascii (digits 20 (suc n) []) (digits-IsDigit 20 (suc n) [] tt)),
  omega (arith, length-digits 20 (suc n) []),
)
