-- ===== src/Wire/BigEndian.antt =====
-- The parameter `Wire` at big-endian integers: the most significant byte first.
use native.Mathlib.Nat.{
  pow-suc, mul-le-mul_right, div-add-mod', mod-lt, one-le-pow, mul-add-mod_self_right, mod-eq_of_lt,
}
use ricq.Base.{ℕ, zero, suc, ◌+◌, ◌*◌, ◌/◌, ◌%◌, ◌^◌, ◌<◌, ◌≡◌, refl, arith, ap, ◌∙◌, sym}
use ricq.Base.{List, [], ◌∷◌, ◌++◌, length, length-append, All-append, append-nil, append_assoc}
use ricq.Wire.{Wire, IsByte, IsBytes}

-- The last byte is the lowest.
abbrev be : ℕ → ℕ → List ℕ
be zero n = []
be (suc w) n = be w (n / 256) ++ (n % 256 ∷ [])

abbrev value_from : ℕ → List ℕ → ℕ
value_from acc [] = acc
value_from acc (b ∷ bs) = value_from (acc * 256 + b) bs

abbrev of_be : List ℕ → ℕ
of_be bs = value_from 0 bs

value_from-append :
    (acc : ℕ) (xs : List ℕ) (b : ℕ) → value_from acc (xs ++ (b ∷ [])) ≡ value_from acc xs * 256 + b
value_from-append acc [] b = refl
value_from-append acc (x ∷ xs) b = value_from-append (acc * 256 + x) xs b

pub length-be : (w n : ℕ) → length (be w n) ≡ w
length-be zero n = refl
length-be (suc w) n =
    rw (length-append (be w (n / 256)) (n % 256 ∷ [])) (omega (arith, length-be w (n / 256)))

pub be-IsBytes : (w n : ℕ) → IsBytes (be w n)
be-IsBytes zero n = tt
be-IsBytes (suc w) n =
    All-append IsByte (be w (n / 256)) _ (be-IsBytes w (n / 256)) (omega arith, tt)

-- Cutting to `w + 1` bytes cuts what is above the last byte to `w` bytes.
cut_suc : (w n : ℕ) → n / 256 % 256 ^ w * 256 + n % 256 ≡ n % 256 ^ suc w
cut_suc w n =
    let m = 256 ^ w in
    let q = n / 256 / m in
    let low = n / 256 % m * 256 + n % 256 in
    let whole : n ≡ q * 256 ^ suc w + low =
      omega
        (arith, pow-suc 256 w, ap (λ (t : ℕ). q * t) (pow-suc 256 w), div-add-mod' (n / 256) m) in
    let fits : low < 256 ^ suc w =
      omega (arith, pow-suc 256 w, mod-lt (n / 256) {m = m} (one-le-pow w 256 (omega arith))) in
    sym (
      ap (λ (t : ℕ). t % 256 ^ suc w) whole
      ∙ mul-add-mod_self_right q (256 ^ suc w) low
      ∙ mod-eq_of_lt fits)

pub of_be-be : (w n : ℕ) → of_be (be w n) ≡ n % 256 ^ w
of_be-be zero n = omega arith
of_be-be (suc w) n =
    value_from-append 0 (be w (n / 256)) (n % 256)
    ∙ ap (λ (t : ℕ). t * 256 + n % 256) (of_be-be w (n / 256))
    ∙ cut_suc w n

-- The bytes of a value that was read from `front` and then one byte more.
be_read :
    (bs : List ℕ) (k acc : ℕ) → IsBytes bs → be (k + length bs) (value_from acc bs) ≡ be k acc ++ bs
be_read [] k acc h =
    let same : k + 0 ≡ k = omega arith in
    ap (λ (t : ℕ). be t acc) same ∙ sym (append-nil (be k acc))
be_read (b ∷ bs) k acc h =
    let value = value_from (acc * 256 + b) bs in
    let high : (acc * 256 + b) / 256 ≡ acc = omega arith in
    let low : (acc * 256 + b) % 256 ≡ b = omega arith in
    let same : k + suc (length bs) ≡ suc k + length bs = omega arith in
    ap (λ (t : ℕ). be t value) same
    ∙ be_read bs (suc k) (acc * 256 + b) h.1
    ∙ rw (high, low) (append_assoc (be k acc) (b ∷ []) bs)

value_from-lt :
    (bs : List ℕ) (acc : ℕ) → IsBytes bs → value_from acc bs < (acc + 1) * 256 ^ length bs
value_from-lt [] acc h = omega arith
value_from-lt (b ∷ bs) acc h = omega (
  arith,
  value_from-lt bs (acc * 256 + b) h.1,
  ap (λ (t : ℕ). (acc + 1) * t) (pow-suc 256 (length bs)),
  mul-le-mul_right {m = b + 1} {n = 256} (256 ^ length bs) (omega arith),
)

pub be-of_be : (bs : List ℕ) → IsBytes bs → be (length bs) (of_be bs) ≡ bs
be-of_be bs h =
    let same : length bs ≡ 0 + length bs = omega arith in
    ap (λ (t : ℕ). be t (of_be bs)) same ∙ be_read bs 0 0 h

pub of_be-lt : (bs : List ℕ) → IsBytes bs → of_be bs < 256 ^ length bs
of_be-lt bs h = omega (arith, value_from-lt bs 0 h)

instance abbrev pub big_endian : Wire
big_endian = record {
  be = be;
  of_be = of_be;
  length-be = length-be;
  be-IsBytes = be-IsBytes;
  of_be-be = of_be-be;
  be-of_be = be-of_be;
  of_be-lt = of_be-lt;
}
