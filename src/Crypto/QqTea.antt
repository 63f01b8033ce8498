-- ===== src/Crypto/QqTea.antt =====
-- ricq-core/src/crypto/qqtea.rs: `qqtea_encrypt` and `qqtea_decrypt`, TEA in a chaining mode of its
-- own with a padded head and seven zero bytes at the end.
pub mod Blocks
pub mod RoundTrip
use ricq.Base.{ℕ, zero, suc, ◌+◌, ◌-◌, ◌*◌, ◌/◌, ◌%◌, bit_and, bit_or, bit_xor, Bool, ◌&&◌}
use ricq.Base.{List, [], ◌∷◌, ◌++◌, length, take, drop, replicate, get_or, ◌==◌, ltb}
use ricq.Base.{if◌then◌else◌}
use ricq.Wire.{Wire}
use ricq.Result.{Result, ok, panic, and_then, map_ok}
use ricq.Crypto.Tea.{Tea16, encrypt, decrypt, key_of}

-- The loop of `qqtea_encrypt` over the blocks, with `iv1` and `iv2`.
pub encrypt_blocks : Tea16 → ℕ → ℕ → List ℕ → List ℕ
encrypt_blocks key iv1 iv2 [] = []
encrypt_blocks key iv1 iv2 (block ∷ blocks) =
    let holder = bit_xor block iv1 in
    let iv1' = bit_xor (encrypt key holder) iv2 in iv1' ∷ encrypt_blocks key iv1' holder blocks

-- The loop of `qqtea_decrypt`.
pub decrypt_blocks : Tea16 → ℕ → ℕ → List ℕ → List ℕ
decrypt_blocks key iv1 iv2 [] = []
decrypt_blocks key iv1 iv2 (block ∷ blocks) =
    let tmp_block = decrypt key (bit_xor block iv2) in
    let holder = bit_xor tmp_block iv1 in holder ∷ decrypt_blocks key block tmp_block blocks

-- `BigEndian::read_u64_into` and `write_u64_into`, over `n` blocks.
pub read_u64_into : ⦃w : Wire⦄ → ℕ → List ℕ → List ℕ
read_u64_into zero bytes = []
read_u64_into ⦃w⦄ (suc n) bytes = w.of_be (take 8 bytes) ∷ read_u64_into n (drop 8 bytes)

pub write_u64_into : ⦃w : Wire⦄ → List ℕ → List ℕ
write_u64_into [] = []
write_u64_into ⦃w⦄ (block ∷ blocks) = w.be 8 block ++ write_u64_into blocks

pub fill_count : List ℕ → ℕ
fill_count text = 9 - (length text + 1) % 8

-- The head byte, the filling (random, or 220s in a debug build), the text and seven zeros.
pub plaintext : (ℕ → List ℕ) → List ℕ → List ℕ
unfolding fill_count
plaintext filling text =
    bit_or (fill_count text - 2) 0xF8 ∷ (filling (fill_count text) ++ (text ++ replicate 7 0))

pub qqtea_encrypt : ⦃w : Wire⦄ → (ℕ → List ℕ) → List ℕ → List ℕ → Result (List ℕ)
qqtea_encrypt filling text key =
    let plain = plaintext filling text in
    map_ok
      (λ cipher.
        write_u64_into (encrypt_blocks cipher 0 0 (read_u64_into (length plain / 8) plain)))
      (key_of key)

-- `result[begin_pos..end_pos]`: an empty text has no byte 0, and a slice whose ends cross panics.
pub unpad : List ℕ → Result (List ℕ)
unpad result =
    let begin_pos = bit_and (get_or result 0 0) 7 + 3 in
    let end_pos = length result - 7 in
    if ltb 0 (length result) && ltb begin_pos (end_pos + 1)
    then ok (drop begin_pos (take end_pos result))
    else panic

-- `read_u64_into` panics on a length that is no multiple of eight.
pub qqtea_decrypt : ⦃w : Wire⦄ → List ℕ → List ℕ → Result (List ℕ)
qqtea_decrypt text key =
    if length text % 8 == 0
    then and_then (key_of key) (λ cipher.
      unpad (write_u64_into (decrypt_blocks cipher 0 0 (read_u64_into (length text / 8) text))))
    else panic
