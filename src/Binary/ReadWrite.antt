-- ===== src/Binary/ReadWrite.antt =====
-- The readers of binary_reader.rs on what the writers of binary_writer.rs wrote.
use ricq.Base.{ℕ, ◌+◌, ◌<◌, ◌^◌, ◌≡◌, List, ◌++◌, length}
use ricq.Wire.{Wire}
use ricq.Result.{ok}
use ricq.Utf8.{IsText}
use ricq.Binary.Reader.{read_bytes_short, read_string}
use ricq.Binary.Reader.ReadBack.{read_bytes_short-append, read_string-append}
use ricq.Binary.Writer.{write_bytes_short, write_string}
use ricq.Binary.Writer.Writes.{Writes-bytes_short, Writes-string}

-- For every text `v` of fewer than 2 ^ 31 - 4 bytes, `write_string` appends bytes to any buffer and
-- does not panic, and `read_string` at these bytes returns `v` and leaves what stands behind them.
pub read_string-write_string :
    ⦃w : Wire⦄
    → (v : List ℕ) → length v + 4 < 2 ^ 31
    → IsText v
    → (bytes : List ℕ) × ((buf : List ℕ) → write_string v buf ≡ ok (buf ++ bytes))
      × ((rest : List ℕ) → read_string (bytes ++ rest) ≡ ok (v, rest))
read_string-write_string v h t = (_, (Writes-string v).onto, λ rest. read_string-append v rest h t)

-- For every `v` of fewer than 2 ^ 16 bytes, `write_bytes_short` appends bytes to any buffer and does
-- not panic, and `read_bytes_short` at these bytes returns `v` and leaves what stands behind them.
pub read_bytes_short-write_bytes_short :
    ⦃w : Wire⦄
    → (v : List ℕ) → length v < 2 ^ 16
    → (bytes : List ℕ) × ((buf : List ℕ) → write_bytes_short v buf ≡ ok (buf ++ bytes))
      × ((rest : List ℕ) → read_bytes_short (bytes ++ rest) ≡ ok (v, rest))
read_bytes_short-write_bytes_short v h =
    (_, (Writes-bytes_short v).onto, λ rest. read_bytes_short-append v rest h)
