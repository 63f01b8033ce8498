-- ===== src/Crypto/Tea/Inverse.antt =====
-- `encrypt` and `decrypt` of a block of ricq-core/src/crypto/qqtea.rs, round by round.
use ricq.Base.{ℕ, zero, suc, ◌+◌, ◌*◌, ◌/◌, ◌%◌, ◌^◌, ◌<◌, ◌≡◌, refl, arith, ap, sym, ◌∙◌}
use ricq.Base.Xor.{bit_xor-lt}
use ricq.Base.Bits.{bit_or-shifted}
use ricq.Crypto.Tea.{Tea16, Rounds, wrapping_add, wrapping_sub, tea_delta, mixed}
use ricq.Crypto.Tea.{encrypt_round, decrypt_round, encrypt_rounds, decrypt_rounds, joined}
use ricq.Crypto.Tea.{encrypt, decrypt}

pub record IsWords (s : Rounds) : Type 0 where
  pub sum_fits : s.sum < 2 ^ 32
  pub x_fits : s.x < 2 ^ 32
  pub y_fits : s.y < 2 ^ 32

mixed-lt : (ka kb sum v : ℕ) → mixed ka kb sum v < 2 ^ 32
unfolding mixed
mixed-lt ka kb sum v =
    bit_xor-lt 32 _ _ (bit_xor-lt 32 _ _ (omega arith) (omega arith)) (omega arith)

sub-add : (a b : ℕ) → a < 2 ^ 32 → b < 2 ^ 32 → wrapping_sub (wrapping_add a b) b ≡ a
sub-add a b p q = omega arith

encrypt_round-IsWords : (key : Tea16) (s : Rounds) → IsWords s → IsWords (encrypt_round key s)
unfolding encrypt_round
encrypt_round-IsWords key s h = record {
  sum_fits = omega arith;
  x_fits = omega arith;
  y_fits = omega arith;
}

encrypt_rounds-IsWords :
    (key : Tea16) (n : ℕ) (s : Rounds) → IsWords s → IsWords (encrypt_rounds key n s)
unfolding encrypt_rounds
encrypt_rounds-IsWords key zero s h = h
encrypt_rounds-IsWords key (suc n) s h =
    encrypt_rounds-IsWords key n (encrypt_round key s) (encrypt_round-IsWords key s h)

-- One round back takes one round away, the running sum included.
decrypt_round-encrypt_round :
    (key : Tea16) (s : Rounds) → IsWords s → decrypt_round key (encrypt_round key s) ≡ s
unfolding encrypt_round decrypt_round
decrypt_round-encrypt_round key s h =
    let sum' = wrapping_add s.sum tea_delta in
    let fx = mixed key.k0 key.k1 sum' s.y in
    let x' = wrapping_add s.x fx in
    let fy = mixed key.k2 key.k3 sum' x' in
    rw
      (
        sub-add s.y fy h.y_fits (mixed-lt key.k2 key.k3 sum' x'),
        sub-add s.x fx h.x_fits (mixed-lt key.k0 key.k1 sum' s.y),
        sub-add s.sum tea_delta h.sum_fits (omega arith),
      )
      refl

-- Rounds may be taken off at the end as well as at the start.
encrypt_rounds_last :
    (key : Tea16) (n : ℕ) (s : Rounds)
    → encrypt_rounds key (suc n) s ≡ encrypt_round key (encrypt_rounds key n s)
unfolding encrypt_rounds
encrypt_rounds_last key zero s = refl
encrypt_rounds_last key (suc n) s = encrypt_rounds_last key n (encrypt_round key s)

decrypt_rounds-encrypt_rounds :
    (key : Tea16) (n : ℕ) (s : Rounds)
    → IsWords s
    → decrypt_rounds key n (encrypt_rounds key n s) ≡ s
unfolding decrypt_rounds
decrypt_rounds-encrypt_rounds key zero s h = unfold encrypt_rounds in refl
decrypt_rounds-encrypt_rounds key (suc n) s h =
    rw
      (
        encrypt_rounds_last key n s,
        decrypt_round-encrypt_round key (encrypt_rounds key n s) (encrypt_rounds-IsWords key n s h),
      )
      (decrypt_rounds-encrypt_rounds key n s h)

-- The running sum after `n` rounds.
encrypt_rounds_sum :
    (key : Tea16) (n : ℕ) (s : Rounds)
    → (encrypt_rounds key n s).sum % 2 ^ 32 ≡ (s.sum + n * tea_delta) % 2 ^ 32
unfolding encrypt_rounds encrypt_round
encrypt_rounds_sum key zero s = omega arith
encrypt_rounds_sum key (suc n) s = omega (arith, encrypt_rounds_sum key n (encrypt_round key s))

abbrev split : ℕ → ℕ → Rounds
split sum n = record { sum = sum; x = n / 2 ^ 32 % 2 ^ 32; y = n % 2 ^ 32 }

split-IsWords : (sum n : ℕ) → sum < 2 ^ 32 → IsWords (split sum n)
split-IsWords sum n h = record { sum_fits = h; x_fits = omega arith; y_fits = omega arith }

joined-sum : (s : Rounds) → IsWords s → joined s ≡ s.x * 2 ^ 32 + s.y
unfolding joined
joined-sum s h = bit_or-shifted 32 s.x s.y h.y_fits

split-joined : (s : Rounds) → IsWords s → split s.sum (joined s) ≡ s
split-joined s h = ground (arith, joined-sum s h)

joined-split : (sum n : ℕ) → sum < 2 ^ 32 → n < 2 ^ 64 → joined (split sum n) ≡ n
joined-split sum n fits h = omega (arith, joined-sum (split sum n) (split-IsWords sum n fits))

joined-lt : (s : Rounds) → IsWords s → joined s < 2 ^ 64
joined-lt s h = omega (arith, joined-sum s h)

decrypt_rounds-IsWords :
    (key : Tea16) (n : ℕ) (s : Rounds) → IsWords s → IsWords (decrypt_rounds key n s)
unfolding decrypt_rounds decrypt_round
decrypt_rounds-IsWords key zero s h = h
decrypt_rounds-IsWords key (suc n) s h =
    decrypt_rounds-IsWords key n (decrypt_round key s)
      (record { sum_fits = omega arith; x_fits = omega arith; y_fits = omega arith })

-- A block of 64 bits encrypts to one.
pub encrypt-lt : (key : Tea16) (n : ℕ) → encrypt key n < 2 ^ 64
unfolding encrypt
encrypt-lt key n =
    joined-lt _ (encrypt_rounds-IsWords key 16 (split 0 n) (split-IsWords 0 n (omega arith)))

pub decrypt-lt : (key : Tea16) (n : ℕ) → decrypt key n < 2 ^ 64
unfolding decrypt
decrypt-lt key n =
    joined-lt _ (
      decrypt_rounds-IsWords key 16 (split 0xE3779B90 n) (split-IsWords 0xE3779B90 n (omega arith)))

-- The state after the sixteen rounds is the one that decryption starts from.
module _ (key : Tea16) (n : ℕ) where
  abbrev last : Rounds
  last = encrypt_rounds key 16 (split 0 n)

  last-IsWords : IsWords last
  last-IsWords = encrypt_rounds-IsWords key 16 (split 0 n) (split-IsWords 0 n (omega arith))

  last_sum : last.sum ≡ 0xE3779B90
  last_sum = omega (arith, encrypt_rounds_sum key 16 (split 0 n), last-IsWords.sum_fits)

  resumes : split 0xE3779B90 (joined last) ≡ last
  resumes = ap (λ (t : ℕ). split t (joined last)) (sym last_sum) ∙ split-joined last last-IsWords

-- Decrypting a block with the key that encrypted it gives the block back.
pub decrypt-encrypt : (key : Tea16) (n : ℕ) → n < 2 ^ 64 → decrypt key (encrypt key n) ≡ n
unfolding decrypt encrypt
decrypt-encrypt key n h =
    ap (λ t. joined (decrypt_rounds key 16 t)) (resumes key n)
    ∙ ap joined (decrypt_rounds-encrypt_rounds key 16 (split 0 n) (split-IsWords 0 n (omega arith)))
    ∙ joined-split 0 n (omega arith) h
