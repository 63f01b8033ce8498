-- ===== src/Binary/Reader.antt =====
-- ricq-core/src/binary/binary_reader.rs. A reader takes the bytes that remain and returns a value
-- with those that are left; the packages' `get_` methods, `copy_to_bytes` and `advance` panic where
-- too few remain. `usize` has 64 bits and wraps, as in a release build.
pub mod ReadBack
pub mod TlvMap
pub mod Total
use ricq.Base.{ℕ, zero, suc, ◌+◌, ◌-◌, ◌%◌, ◌^◌, ◌≡◌, refl, arith, Bool, true, false, ap, ◌∙◌}
use ricq.Base.{List, [], ◌∷◌, ◌++◌, length, take, drop, ltb, ◌==◌, if◌then◌else◌}
use ricq.Base.{length-append, take-append, drop-append, le→ltb}
use ricq.Wire.{Wire}
use ricq.Result.{Result, ok, err, panic, RqError}
use ricq.Utf8.{from_utf8_lossy}
use ricq.HashMap.{HashMap, empty, insert}

abbrev pub Reader {ℓ} : Type ℓ → Type ℓ
Reader A = List ℕ → Result (A × List ℕ)

-- What follows a read goes on with the bytes that it left.
abbrev pub go_on {ℓ κ} :
    {A : Type ℓ} {B : Type κ} → Result (A × List ℕ) → (A → Reader B) → Result (B × List ℕ)
go_on (ok (a, r)) f = f a r
go_on (err e) f = err e
go_on panic f = panic

infixl 5 ◌>>=◌ ◌>>◌
abbrev pub ◌>>=◌ {ℓ κ} : {A : Type ℓ} {B : Type κ} → Reader A → (A → Reader B) → Reader B
◌>>=◌ m f r = go_on (m r) f

abbrev pub ◌>>◌ {ℓ κ} : {A : Type ℓ} {B : Type κ} → Reader A → Reader B → Reader B
m >> k = m >>= λ _. k

abbrev pub pure {ℓ} : {A : Type ℓ} → A → Reader A
pure a r = ok (a, r)

abbrev pub fail {ℓ} : {A : Type ℓ} → RqError → Reader A
fail e r = err e

-- `Buf::remaining`
abbrev pub remaining : Reader ℕ
remaining r = ok (length r, r)

unfoldable pub get_u8 : Reader ℕ
get_u8 [] = panic
get_u8 (b ∷ r) = ok (b, r)

unfoldable pub copy_to_bytes : ℕ → Reader (List ℕ)
copy_to_bytes n r = if ltb (length r) n then panic else ok (take n r, drop n r)

unfoldable pub advance : ℕ → Reader (Unit {0})
advance n r = if ltb (length r) n then panic else ok (tt, drop n r)

-- An `i32` as a `usize`, and `usize` subtraction.
abbrev pub as_usize : ℕ → ℕ
as_usize n = if ltb n (2 ^ 31) then n else n + 2 ^ 64 - 2 ^ 32

abbrev pub usize_sub : ℕ → ℕ → ℕ
usize_sub a b = (a + 2 ^ 64 - b) % 2 ^ 64

-- How a round of `read_tlv_map` ends: with `return m`, or with one more entry.
pub data Round : Type 0 where
  done more : HashMap → Round

abbrev pub next_round :
    Result (Round × List ℕ) → (HashMap → Reader HashMap) → Result (HashMap × List ℕ)
next_round (ok (done m, r)) again = ok (m, r)
next_round (ok (more m, r)) again = again m r
next_round (err e) again = err e
next_round panic again = panic

module _ ⦃w : Wire⦄ where
  -- Reading an integer of `n` bytes; a signed one is kept as its bit pattern.
  unfoldable pub get_be : ℕ → Reader ℕ
  get_be n r = if ltb (length r) n then panic else ok (w.of_be (take n r), drop n r)

  abbrev pub get_u16 : Reader ℕ
  get_u16 = get_be 2

  abbrev pub get_i32 : Reader ℕ
  get_i32 = get_be 4

  abbrev pub get_u32 : Reader ℕ
  get_u32 = get_be 4

  abbrev pub get_i64 : Reader ℕ
  get_i64 = get_be 8

  unfoldable pub read_string_limit : ℕ → Reader (List ℕ)
  read_string_limit limit = do bytes ← copy_to_bytes limit; pure (from_utf8_lossy bytes)

  unfoldable pub read_string : Reader (List ℕ)
  read_string = do
    len ← get_i32
    bytes ← copy_to_bytes (usize_sub (as_usize len) 4)
    pure (from_utf8_lossy bytes)

  unfoldable pub read_string_short : Reader (List ℕ)
  read_string_short = do len ← get_u16; bytes ← copy_to_bytes len; pure (from_utf8_lossy bytes)

  unfoldable pub read_bytes_short : Reader (List ℕ)
  read_bytes_short = do len ← get_u16; copy_to_bytes len

  -- The tag of one entry. A size other than 1, 2 and 4 reads nothing.
  pub read_tag : ℕ → Reader ℕ
  read_tag tag_size r =
      if tag_size == 1
      then get_u8 r
      else if tag_size == 2
      then get_u16 r
      else if tag_size == 4
      then (do k ← get_i32; pure (k % 2 ^ 16)) r
      else ok (0, r)

  -- The length and the bytes of an entry whose tag has been read.
  pub tlv_value : HashMap → ℕ → Reader Round
  tlv_value m k = do
    size ← remaining
    if ltb size 2 then pure (done m) else do
      len ← get_u16
      left ← remaining
      if ltb left len
          then pure (done m)
          else do value ← copy_to_bytes len; pure (more (insert k value m))

  -- One round of the loop, with the map so far.
  pub tlv_round : ℕ → HashMap → Reader Round
  tlv_round tag_size m = do
    size ← remaining
    if ltb size tag_size
        then pure (done m)
        else do k ← read_tag tag_size; if k == 255 then pure (done m) else tlv_value m k

  -- A round takes two bytes at least, so as many rounds as there are bytes and one more are enough;
  -- running out of them is `panic`.
  pub tlv_loop : ℕ → ℕ → HashMap → Reader HashMap
  tlv_loop zero tag_size m r = panic
  tlv_loop (suc fuel) tag_size m r = next_round (tlv_round tag_size m r) (tlv_loop fuel tag_size)

  unfoldable pub read_tlv_map : ℕ → Reader HashMap
  read_tlv_map tag_size r = tlv_loop (suc (length r)) tag_size empty r
