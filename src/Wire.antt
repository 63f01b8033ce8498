-- ===== src/Wire.antt =====
-- Byte buffers. A `Bytes`, `BytesMut`, `Vec<u8>` or `&[u8]` is the list of its bytes. How the
-- packages `bytes` and `byteorder` lay an unsigned integer out over bytes is the parameter `Wire`;
-- its laws are what their documentation says of `put_u16`, `get_u16`, `read_u64` and the like.
pub mod BigEndian
use ricq.Base.{ℕ, ◌%◌, ◌^◌, ◌<◌, ◌≡◌}
use ricq.Base.{List, length, All}

abbrev pub IsByte : ℕ → Type 0
IsByte b = b < 256

abbrev pub IsBytes : List ℕ → Type 0
IsBytes bs = All IsByte bs

pub record Wire : Type 0 where
  -- The `w` bytes that writing an integer of `w` bytes appends (`w` is 2, 4 or 8).
  pub be : ℕ → ℕ → List ℕ
  -- The integer that reading these bytes gives.
  pub of_be : List ℕ → ℕ
  pub length-be : (w n : ℕ) → length (be w n) ≡ w
  pub be-IsBytes : (w n : ℕ) → IsBytes (be w n)
  -- Writing cuts the value to `w` bytes, and reading gives the cut value back.
  pub of_be-be : (w n : ℕ) → of_be (be w n) ≡ n % 256 ^ w
  -- Bytes that were read are written back as they were.
  pub be-of_be : (bs : List ℕ) → IsBytes bs → be (length bs) (of_be bs) ≡ bs
  pub of_be-lt : (bs : List ℕ) → IsBytes bs → of_be bs < 256 ^ length bs
