-- ===== src/Binary/Reader/ReadBack.antt =====
-- The readers of ricq-core/src/binary/binary_reader.rs on a buffer whose front is what was
-- written.
use ricq.Base.{ℕ, ◌+◌, ◌%◌, ◌^◌, ◌<◌, ◌≡◌, refl, arith, ap}
use ricq.Base.{List, ◌++◌, length, take, drop, length-append, append_assoc}
use ricq.Base.{take-append, drop-append, ltb, le→ltb, false}
use ricq.Wire.{Wire}
use ricq.Result.{ok}
use ricq.Utf8.{IsText}
use ricq.Binary.Reader.{get_be, copy_to_bytes, read_string}
use ricq.Binary.Reader.{read_bytes_short, as_usize, usize_sub}

-- What starts with `n` bytes is not too short to read them.
pub not_short : (xs rest : List ℕ) (n : ℕ) → length xs ≡ n → ltb (length (xs ++ rest)) n ≡ false
not_short xs rest n h = le→ltb (length (xs ++ rest)) n (rw (length-append xs rest) (omega arith))

pub copy_to_bytes-append :
    (n : ℕ) (xs rest : List ℕ) → length xs ≡ n → copy_to_bytes n (xs ++ rest) ≡ ok (xs, rest)
unfolding copy_to_bytes
copy_to_bytes-append n xs rest h =
    rw (not_short xs rest n h, take-append n xs rest h, drop-append n xs rest h)

pub copy_to_bytes-ok :
    (n : ℕ) (r : List ℕ) → ltb (length r) n ≡ false → copy_to_bytes n r ≡ ok (take n r, drop n r)
unfolding copy_to_bytes
copy_to_bytes-ok n r h = rw h

module _ ⦃w : Wire⦄ where
  pub get_be-ok :
      (n : ℕ) (r : List ℕ)
      → ltb (length r) n ≡ false
      → get_be n r ≡ ok (w.of_be (take n r), drop n r)
  unfolding get_be
  get_be-ok n r h = rw h

  pub get_be-append :
      (n v : ℕ) (rest : List ℕ) → get_be n (w.be n v ++ rest) ≡ ok (v % 256 ^ n, rest)
  unfolding get_be
  get_be-append n v rest = rw (
    not_short (w.be n v) rest n (w.length-be n v),
    take-append n (w.be n v) rest (w.length-be n v),
    drop-append n (w.be n v) rest (w.length-be n v),
    w.of_be-be n v,
  )

  -- What `write_bytes_short` wrote, up to 65535 bytes.
  pub read_bytes_short-append :
      (v rest : List ℕ)
      → length v < 2 ^ 16
      → read_bytes_short ((w.be 2 (length v % 2 ^ 16) ++ v) ++ rest) ≡ ok (v, rest)
  unfolding read_bytes_short
  read_bytes_short-append v rest h =
      let size : length v % 2 ^ 16 % 256 ^ 2 ≡ length v = omega arith in
      rw
        (
          append_assoc (w.be 2 (length v % 2 ^ 16)) v rest,
          get_be-append 2 (length v % 2 ^ 16) (v ++ rest),
          size,
        )
        (copy_to_bytes-append (length v) v rest refl)

  -- What `write_string` wrote, up to the longest text that an `i32` can count.
  pub read_string-append :
      (v rest : List ℕ)
      → length v + 4 < 2 ^ 31
      → IsText v
      → read_string ((w.be 4 ((length v + 4) % 2 ^ 32) ++ v) ++ rest) ≡ ok (v, rest)
  unfolding read_string
  read_string-append v rest h t =
      let size : (length v + 4) % 2 ^ 32 % 256 ^ 4 ≡ length v + 4 = omega arith in
      let back : usize_sub (as_usize (length v + 4)) 4 ≡ length v = ground arith in
      rw
        (
          append_assoc (w.be 4 ((length v + 4) % 2 ^ 32)) v rest,
          get_be-append 4 ((length v + 4) % 2 ^ 32) (v ++ rest),
          size,
          back,
          copy_to_bytes-append (length v) v rest refl,
        )
        (ap (λ t. ok (t, rest)) t)
