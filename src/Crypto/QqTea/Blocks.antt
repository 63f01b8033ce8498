-- ===== src/Crypto/QqTea/Blocks.antt =====
-- Bytes to blocks and back, and the chaining loops on blocks.
use ricq.Base.{ℕ, zero, suc, ◌*◌, ◌^◌, ◌≤◌, ◌<◌, ◌≡◌, refl, arith, bit_xor, ap, ap₂, ◌∙◌}
use ricq.Base.{List, [], ◌∷◌, ◌++◌, length, take, drop, All, length-append, length-take}
use ricq.Base.{length-drop, All-take, All-drop, All-append, take-append-drop, take-append}
use ricq.Base.{drop-append}
use ricq.Base.Xor.{bit_xor_cancel, bit_xor-lt}
use ricq.Wire.{Wire, IsByte, IsBytes}
use ricq.Crypto.Tea.{Tea16, encrypt, decrypt}
use ricq.Crypto.Tea.Inverse.{encrypt-lt, decrypt-encrypt}
use ricq.Crypto.QqTea.{encrypt_blocks, decrypt_blocks, read_u64_into, write_u64_into}

abbrev pub IsBlock : ℕ → Type 0
IsBlock n = n < 2 ^ 64

-- Decrypting the chain gives the blocks back, from any two initial vectors.
pub decrypt_blocks-encrypt_blocks :
    (key : Tea16) (iv1 iv2 : ℕ) (blocks : List ℕ)
    → IsBlock iv1
    → IsBlock iv2
    → All IsBlock blocks
    → decrypt_blocks key iv1 iv2 (encrypt_blocks key iv1 iv2 blocks) ≡ blocks
unfolding encrypt_blocks decrypt_blocks
decrypt_blocks-encrypt_blocks key iv1 iv2 [] h k hs = refl
decrypt_blocks-encrypt_blocks key iv1 iv2 (b ∷ blocks) h k hs =
    let holder = bit_xor b iv1 in
    let fits : IsBlock holder = bit_xor-lt 64 b iv1 hs.0 h in
    rw
      (
        bit_xor_cancel (encrypt key holder) iv2,
        decrypt-encrypt key holder fits,
        bit_xor_cancel b iv1,
      )
      (ap (λ t. b ∷ t)
        (decrypt_blocks-encrypt_blocks key (bit_xor (encrypt key holder) iv2) holder blocks
          (bit_xor-lt 64 _ _ (encrypt-lt key holder) k) fits hs.1))

pub encrypt_blocks-All :
    (key : Tea16) (iv1 iv2 : ℕ) (blocks : List ℕ)
    → IsBlock iv1
    → IsBlock iv2
    → All IsBlock blocks
    → All IsBlock (encrypt_blocks key iv1 iv2 blocks)
unfolding encrypt_blocks
encrypt_blocks-All key iv1 iv2 [] h k hs = tt
encrypt_blocks-All key iv1 iv2 (b ∷ blocks) h k hs =
    let holder = bit_xor b iv1 in
    let next : IsBlock (bit_xor (encrypt key holder) iv2) =
      bit_xor-lt 64 _ _ (encrypt-lt key holder) k in
    (
      next,
      encrypt_blocks-All key (bit_xor (encrypt key holder) iv2) holder blocks next
          (bit_xor-lt 64 b iv1 hs.0 h) hs.1,
    )

pub length-encrypt_blocks :
    (key : Tea16) (iv1 iv2 : ℕ) (blocks : List ℕ)
    → length (encrypt_blocks key iv1 iv2 blocks) ≡ length blocks
unfolding encrypt_blocks
length-encrypt_blocks key iv1 iv2 [] = refl
length-encrypt_blocks key iv1 iv2 (b ∷ blocks) =
    let holder = bit_xor b iv1 in
    ap suc (length-encrypt_blocks key (bit_xor (encrypt key holder) iv2) holder blocks)

pub length-decrypt_blocks :
    (key : Tea16) (iv1 iv2 : ℕ) (blocks : List ℕ)
    → length (decrypt_blocks key iv1 iv2 blocks) ≡ length blocks
unfolding decrypt_blocks
length-decrypt_blocks key iv1 iv2 [] = refl
length-decrypt_blocks key iv1 iv2 (b ∷ blocks) =
    ap suc (length-decrypt_blocks key b (decrypt key (bit_xor b iv2)) blocks)

module _ ⦃w : Wire⦄ where
  pub length-read_u64_into : (n : ℕ) (bytes : List ℕ) → length (read_u64_into n bytes) ≡ n
  unfolding read_u64_into
  length-read_u64_into zero bytes = refl
  length-read_u64_into (suc n) bytes = ap suc (length-read_u64_into n (drop 8 bytes))

  pub length-write_u64_into : (blocks : List ℕ) → length (write_u64_into blocks) ≡ 8 * length blocks
  unfolding write_u64_into
  length-write_u64_into [] = refl
  length-write_u64_into (b ∷ blocks) =
      rw (length-append (w.be 8 b) (write_u64_into blocks))
        (omega (arith, w.length-be 8 b, length-write_u64_into blocks))

  pub write_u64_into-IsBytes : (blocks : List ℕ) → IsBytes (write_u64_into blocks)
  unfolding write_u64_into
  write_u64_into-IsBytes [] = tt
  write_u64_into-IsBytes (b ∷ blocks) =
      All-append IsByte (w.be 8 b) _ (w.be-IsBytes 8 b) (write_u64_into-IsBytes blocks)

  length-take_block : (bytes : List ℕ) → 8 ≤ length bytes → length (take 8 bytes) ≡ 8
  length-take_block bytes h = omega (arith, length-take 8 bytes)

  of_be-IsBlock :
      (bytes : List ℕ) → 8 ≤ length bytes → IsBytes bytes → IsBlock (w.of_be (take 8 bytes))
  of_be-IsBlock bytes e h =
      rw (length-take_block bytes e) at (w.of_be-lt (take 8 bytes) (All-take IsByte 8 bytes h))

  be_block :
      (bytes : List ℕ)
      → 8 ≤ length bytes
      → IsBytes bytes
      → w.be 8 (w.of_be (take 8 bytes)) ≡ take 8 bytes
  be_block bytes e h =
      rw (length-take_block bytes e) at (w.be-of_be (take 8 bytes) (All-take IsByte 8 bytes h))

  pub read_u64_into-All :
      (n : ℕ) (bytes : List ℕ)
      → length bytes ≡ 8 * n
      → IsBytes bytes
      → All IsBlock (read_u64_into n bytes)
  unfolding read_u64_into
  read_u64_into-All zero bytes e h = tt
  read_u64_into-All (suc n) bytes e h = (
    of_be-IsBlock bytes (omega arith) h,
    read_u64_into-All n (drop 8 bytes) (omega (arith, length-drop 8 bytes))
        (All-drop IsByte 8 bytes h),
  )

  pub write_u64_into-read_u64_into :
      (n : ℕ) (bytes : List ℕ)
      → length bytes ≡ 8 * n
      → IsBytes bytes
      → write_u64_into (read_u64_into n bytes) ≡ bytes
  unfolding read_u64_into write_u64_into
  write_u64_into-read_u64_into zero [] e h = refl
  write_u64_into-read_u64_into zero (b ∷ bytes) e h = absurd (omega arith)
  write_u64_into-read_u64_into (suc n) bytes e h =
      ap₂ ◌++◌ (be_block bytes (omega arith) h) (
        write_u64_into-read_u64_into n (drop 8 bytes) (omega (arith, length-drop 8 bytes))
          (All-drop IsByte 8 bytes h))
      ∙ take-append-drop 8 bytes

  pub read_u64_into-write_u64_into :
      (n : ℕ) (blocks : List ℕ)
      → length blocks ≡ n
      → All IsBlock blocks
      → read_u64_into n (write_u64_into blocks) ≡ blocks
  unfolding read_u64_into write_u64_into
  read_u64_into-write_u64_into zero [] e h = refl
  read_u64_into-write_u64_into zero (b ∷ blocks) e h = absurd (omega arith)
  read_u64_into-write_u64_into (suc n) [] e h = absurd (omega arith)
  read_u64_into-write_u64_into (suc n) (b ∷ blocks) e h =
      rw
        (
          take-append 8 (w.be 8 b) (write_u64_into blocks) (w.length-be 8 b),
          drop-append 8 (w.be 8 b) (write_u64_into blocks) (w.length-be 8 b),
        )
        (ap₂ ◌∷◌ (omega (arith, w.of_be-be 8 b, h.0))
          (read_u64_into-write_u64_into n blocks (omega arith) h.1))
