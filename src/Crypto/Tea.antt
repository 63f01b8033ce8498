-- ===== src/Crypto/Tea.antt =====
-- ricq-core/src/crypto/qqtea.rs, `mod tea`: sixteen rounds of TEA on one block of 64 bits. A `u32`
-- or `u64` is a number below 2 ^ 32 or 2 ^ 64, and the wrapping operations are written out.
pub mod Inverse
pub mod Keys
use ricq.Base.{ℕ, zero, suc, ◌+◌, ◌-◌, ◌*◌, ◌/◌, ◌%◌, ◌^◌, bit_or, bit_xor, List, take, drop}
use ricq.Base.{length, ◌==◌, if◌then◌else◌}
use ricq.Wire.{Wire}
use ricq.Result.{Result, ok, panic}

abbrev pub wrapping_add : ℕ → ℕ → ℕ
wrapping_add a b = (a + b) % 2 ^ 32

abbrev pub wrapping_sub : ℕ → ℕ → ℕ
wrapping_sub a b = (a + 2 ^ 32 - b) % 2 ^ 32

abbrev pub tea_delta : ℕ
tea_delta = 0x9E3779B9

pub record Tea16 : Type 0 where
  pub k0 : ℕ
  pub k1 : ℕ
  pub k2 : ℕ
  pub k3 : ℕ

-- The loop's variables.
pub record Rounds : Type 0 where
  pub sum : ℕ
  pub x : ℕ
  pub y : ℕ

-- `ka + (v << 4) ^ (v + sum) ^ kb + (v >> 5)`, what a round adds to the other half.
pub mixed : ℕ → ℕ → ℕ → ℕ → ℕ
mixed ka kb sum v =
    bit_xor (bit_xor (wrapping_add ka (v * 2 ^ 4 % 2 ^ 32)) (wrapping_add v sum))
      (wrapping_add kb (v / 2 ^ 5))

pub encrypt_round : Tea16 → Rounds → Rounds
encrypt_round key s =
    let sum' = wrapping_add s.sum tea_delta in
    let x' = wrapping_add s.x (mixed key.k0 key.k1 sum' s.y) in
    let y' = wrapping_add s.y (mixed key.k2 key.k3 sum' x') in record { sum = sum'; x = x'; y = y' }

pub decrypt_round : Tea16 → Rounds → Rounds
decrypt_round key s =
    let y' = wrapping_sub s.y (mixed key.k2 key.k3 s.sum s.x) in
    let x' = wrapping_sub s.x (mixed key.k0 key.k1 s.sum y') in
    record { sum = wrapping_sub s.sum tea_delta; x = x'; y = y' }

pub encrypt_rounds : Tea16 → ℕ → Rounds → Rounds
encrypt_rounds key zero s = s
encrypt_rounds key (suc n) s = encrypt_rounds key n (encrypt_round key s)

pub decrypt_rounds : Tea16 → ℕ → Rounds → Rounds
decrypt_rounds key zero s = s
decrypt_rounds key (suc n) s = decrypt_rounds key n (decrypt_round key s)

-- `((x as u64) << 32) | y as u64`
pub joined : Rounds → ℕ
joined s = bit_or (s.x * 2 ^ 32) s.y

pub encrypt : Tea16 → ℕ → ℕ
encrypt key n =
    joined (encrypt_rounds key 16 (record { sum = 0; x = n / 2 ^ 32 % 2 ^ 32; y = n % 2 ^ 32 }))

pub decrypt : Tea16 → ℕ → ℕ
decrypt key n = joined (
    decrypt_rounds key 16
      (record { sum = tea_delta * 2 ^ 4 % 2 ^ 32; x = n / 2 ^ 32 % 2 ^ 32; y = n % 2 ^ 32 }))

-- `Tea16::new`: the key schedule.
unfoldable pub key_words : ⦃w : Wire⦄ → List ℕ → Tea16
key_words ⦃w⦄ key = record {
  k0 = w.of_be (take 4 key);
  k1 = w.of_be (take 4 (drop 4 key));
  k2 = w.of_be (take 4 (drop 8 key));
  k3 = w.of_be (take 4 (drop 12 key));
}

-- `GenericArray::from_slice` and `Tea16::new` together. `GenericArray::from_slice` panics unless the key has sixteen bytes.
pub key_of : ⦃w : Wire⦄ → List ℕ → Result Tea16
key_of key = if length key == 16 then ok (key_words key) else panic
