-- ===== src/Crypto/QqTea/RoundTrip.antt =====
-- `qqtea_encrypt` and `qqtea_decrypt` of ricq-core/src/crypto/qqtea.rs, one behind the other.
use ricq.Base.{ℕ, suc, ◌+◌, ◌-◌, ◌*◌, ◌/◌, ◌%◌, ◌≤◌, ◌<◌, ◌≡◌, ◌≢◌, ◌⊎◌, refl, arith, ap}
use ricq.Base.{bit_and, bit_or, ◌∙◌, List, ◌∷◌, ◌++◌, length, take, drop, replicate}
use ricq.Base.{length-append, All-append, All-replicate, take-append, drop-append}
use ricq.Base.{append_assoc, ◌==◌, ==_eq, ne→==, lt→ltb, Bool-cases, inl, inr}
use ricq.Base.Bits.{low_three, bit_or_flags-lt}
use ricq.Wire.{Wire, IsByte, IsBytes}
use ricq.Result.{ok, panic, Result-cases, ok-injective}
use ricq.Crypto.Tea.{Tea16, key_of}
use ricq.Crypto.Tea.Keys.{key_of_sixteen, key_of_other, key_of-ne-err}
use ricq.Crypto.QqTea.{fill_count, plaintext, qqtea_encrypt, qqtea_decrypt, unpad}
use ricq.Crypto.QqTea.{encrypt_blocks, decrypt_blocks, read_u64_into, write_u64_into}
use ricq.Crypto.QqTea.Blocks.{
  decrypt_blocks-encrypt_blocks, encrypt_blocks-All, length-encrypt_blocks, length-decrypt_blocks,
  length-read_u64_into, length-write_u64_into, write_u64_into-IsBytes, read_u64_into-All,
  write_u64_into-read_u64_into, read_u64_into-write_u64_into,
}

-- What fills the gap gives as many bytes as it is asked for.
pub record IsFilling (filling : ℕ → List ℕ) : Type 0 where
  pub size : (n : ℕ) → length (filling n) ≡ n
  pub bytes : (n : ℕ) → IsBytes (filling n)

fill_count_range : (text : List ℕ) → (2 ≤ fill_count text) × (fill_count text ≤ 9)
unfolding fill_count
fill_count_range text = omega arith

-- The slice that `unpad` takes, counted behind the head byte.
unpad_lem :
    (head : ℕ) (rest : List ℕ) (n k : ℕ)
    → bit_and head 7 + 3 ≡ suc n
    → suc (length rest) - 7 ≡ suc k
    → n ≤ k
    → unpad (head ∷ rest) ≡ ok (drop n (take k rest))
unfolding unpad
unpad_lem head rest n k b e h =
    rw (b, e, lt→ltb 0 (suc (length rest)) (omega arith), lt→ltb (suc n) (suc k + 1) (omega arith))

middle :
    (front text tail : List ℕ)
    → drop (length front) (take (length front + length text) (front ++ (text ++ tail))) ≡ text
middle front text tail =
    rw
      (
        ← append_assoc front text tail,
        take-append (length front + length text) (front ++ text) tail (length-append front text),
      )
      (drop-append (length front) front text refl)

module _ (filling : ℕ → List ℕ) (f : IsFilling filling) (text : List ℕ) where
  abbrev zeros : List ℕ
  zeros = replicate 7 0

  length-plaintext : length (plaintext filling text) ≡ fill_count text + length text + 8
  unfolding plaintext
  length-plaintext =
      rw (length-append (filling (fill_count text)) (text ++ zeros), length-append text zeros)
        (omega (arith, f.size (fill_count text)))

  -- The padded text fills whole blocks.
  whole_blocks : length (plaintext filling text) ≡ 8 * (length (plaintext filling text) / 8)
  whole_blocks = unfold fill_count in omega (arith, length-plaintext)

  plaintext-IsBytes : IsBytes text → IsBytes (plaintext filling text)
  unfolding plaintext
  plaintext-IsBytes h = (
    bit_or_flags-lt (fill_count text - 2) (omega (arith, fill_count_range text)),
    All-append IsByte (filling (fill_count text)) _ (f.bytes (fill_count text))
        (All-append IsByte text zeros h (All-replicate IsByte 7 0 (omega arith))),
  )

  -- Taking the padding off again.
  unpad-plaintext : unpad (plaintext filling text) ≡ ok text
  unfolding plaintext
  unpad-plaintext =
      let front = filling (fill_count text) in
      unpad_lem (bit_or (fill_count text - 2) 0xF8) (front ++ (text ++ zeros)) (length front)
        (length front + length text)
        (omega (
          arith,
          low_three (fill_count text - 2) (omega (arith, fill_count_range text)),
          fill_count_range text,
          f.size (fill_count text),
        ))
        (rw (length-append front (text ++ zeros), length-append text zeros) (omega arith))
        (omega arith)
      ∙ ap ok (middle front text zeros)

module _ ⦃w : Wire⦄ where
  abbrev chained : Tea16 → List ℕ → List ℕ
  chained cipher plain =
      write_u64_into (encrypt_blocks cipher 0 0 (read_u64_into (length plain / 8) plain))

  length-chained :
      (cipher : Tea16) (plain : List ℕ) → length (chained cipher plain) ≡ 8 * (length plain / 8)
  length-chained cipher plain = rw (
    length-write_u64_into (encrypt_blocks cipher 0 0 (read_u64_into (length plain / 8) plain)),
    length-encrypt_blocks cipher 0 0 (read_u64_into (length plain / 8) plain),
    length-read_u64_into (length plain / 8) plain,
  )

  -- Whole blocks of bytes come back from the chain.
  unchained :
      (cipher : Tea16) (n : ℕ) (plain : List ℕ)
      → length plain ≡ 8 * n
      → IsBytes plain
      → write_u64_into (
          decrypt_blocks cipher 0 0
            (read_u64_into n (write_u64_into (encrypt_blocks cipher 0 0 (read_u64_into n plain)))))
        ≡ plain
  unchained cipher n plain e h =
      let blocks = read_u64_into n plain in
      let fits = read_u64_into-All n plain e h in
      rw
        (
          read_u64_into-write_u64_into n (encrypt_blocks cipher 0 0 blocks)
              (rw (length-encrypt_blocks cipher 0 0 blocks) (length-read_u64_into n plain))
              (encrypt_blocks-All cipher 0 0 blocks (omega arith) (omega arith) fits),
          decrypt_blocks-encrypt_blocks cipher 0 0 blocks (omega arith) (omega arith) fits,
        )
        (write_u64_into-read_u64_into n plain e h)

  decrypt_lem :
      (text key : List ℕ) (cipher : Tea16) (n : ℕ)
      → length text ≡ 8 * n
      → key_of key ≡ ok cipher
      → qqtea_decrypt text key
        ≡ unpad (write_u64_into (decrypt_blocks cipher 0 0 (read_u64_into n text)))
  unfolding qqtea_decrypt
  decrypt_lem text key cipher n h e =
      let whole : length text % 8 ≡ 0 = omega arith in
      let count : length text / 8 ≡ n = omega arith in rw (whole, e, count)

  -- For every text of bytes, every key of sixteen bytes and every filling of the padding,
  -- `qqtea_encrypt` returns, and `qqtea_decrypt` of what it returned with the same key is the text.
  pub qqtea_decrypt-qqtea_encrypt :
      (filling : ℕ → List ℕ) (text key : List ℕ)
      → IsFilling filling
      → IsBytes text
      → length key ≡ 16
      → (cipher_text : List ℕ) × (qqtea_encrypt filling text key ≡ ok cipher_text)
        × (qqtea_decrypt cipher_text key ≡ ok text)
  unfolding qqtea_encrypt
  qqtea_decrypt-qqtea_encrypt filling text key f h k =
      let (cipher, e) = key_of_sixteen key k in
      let plain = plaintext filling text in
      let whole = whole_blocks filling f text in
      (
        chained cipher plain,
        rw e,
        decrypt_lem (chained cipher plain) key cipher (length plain / 8)
              (length-chained cipher plain) e
            ∙ ap unpad (
                unchained cipher (length plain / 8) plain whole
                  (plaintext-IsBytes filling f text h))
            ∙ unpad-plaintext filling f text,
      )

  -- A key of sixteen bytes is all that `qqtea_encrypt` needs.
  pub qqtea_encrypt_returns :
      (filling : ℕ → List ℕ) (text key : List ℕ)
      → length key ≡ 16
      → (cipher_text : List ℕ) × (qqtea_encrypt filling text key ≡ ok cipher_text)
  unfolding qqtea_encrypt
  qqtea_encrypt_returns filling text key k =
      let (cipher, e) = key_of_sixteen key k in (chained cipher (plaintext filling text), rw e)

  chained_shape :
      (filling : ℕ → List ℕ) (text : List ℕ) (cipher : Tea16)
      → IsFilling filling
      → (length (chained cipher (plaintext filling text)) ≡ 16 + (length text + 1) / 8 * 8)
        × IsBytes (chained cipher (plaintext filling text))
  unfolding fill_count
  chained_shape filling text cipher f = (
    omega (arith, length-chained cipher (plaintext filling text), length-plaintext filling f text),
    write_u64_into-IsBytes _,
  )

  -- The ciphertext of a text of `n` bytes has `16 + (n + 1) / 8 * 8` of them, a multiple of eight,
  -- and all of them are bytes.
  pub qqtea_encrypt_shape :
      (filling : ℕ → List ℕ) (text key cipher_text : List ℕ)
      → IsFilling filling
      → qqtea_encrypt filling text key ≡ ok cipher_text
      → (length cipher_text ≡ 16 + (length text + 1) / 8 * 8) × IsBytes cipher_text
  unfolding qqtea_encrypt
  qqtea_encrypt_shape filling text key cipher_text f h = elim (Result-cases (key_of key)) [
    | inl (cipher, e) ↦ rw (← ok-injective (rw e at h)) (chained_shape filling text cipher f)
    | inr (inl (x, e)) ↦ cc
    | inr (inr e) ↦ cc
  ]

  unpad_short : (result : List ℕ) → length result < 10 → unpad result ≡ panic
  unfolding unpad
  unpad_short result h = ground arith

  decrypt_short :
      (text key : List ℕ) → length text < 16 → length text % 8 ≡ 0 → qqtea_decrypt text key ≡ panic
  unfolding qqtea_decrypt
  decrypt_short text key h e = elim (Result-cases (key_of key)) [
    | inl (cipher, k) ↦
        rw (e, k)
          (unpad_short _ (
            rw
              (
                length-write_u64_into
                    (decrypt_blocks cipher 0 0 (read_u64_into (length text / 8) text)),
                length-decrypt_blocks cipher 0 0 (read_u64_into (length text / 8) text),
                length-read_u64_into (length text / 8) text,
              )
              (omega arith)))
    | inr (inl (x, k)) ↦ absurd (key_of-ne-err key x k)
    | inr (inr k) ↦ rw (e, k)
  ]

  -- `qqtea_decrypt` panics on a key that has not sixteen bytes, on a text whose length is no multiple
  -- of eight, and on a text of fewer than sixteen bytes.
  pub qqtea_decrypt_panics :
      (text key : List ℕ)
      → (length key ≢ 16) ⊎ (length text % 8 ≢ 0) ⊎ (length text < 16)
      → qqtea_decrypt text key ≡ panic
  qqtea_decrypt_panics text key (inl h) = unfold qqtea_decrypt in ground (arith, key_of_other key h)
  qqtea_decrypt_panics text key (inr (inl h)) = unfold qqtea_decrypt in rw (ne→== _ 0 h)
  qqtea_decrypt_panics text key (inr (inr h)) = elim (Bool-cases (length text % 8 == 0)) [
    | inl e ↦ decrypt_short text key h (==_eq _ 0 e)
    | inr e ↦ unfold qqtea_decrypt in rw e
  ]
