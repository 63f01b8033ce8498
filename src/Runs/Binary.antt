-- ===== src/Runs/Binary.antt =====
-- Runs of the models of ricq-core/src/binary, hex.rs and common.rs.
use ricq.Base.{ℕ, ◌+◌, ◌^◌, ◌≤◌, ◌≡◌, ◌≢◌, arith, List, [], ◌∷◌, ◌++◌, length}
use ricq.Wire.BigEndian.{big_endian}
use ricq.Result.{ok}
use ricq.HashMap.{HashMap, empty}
use ricq.Binary.Reader.{read_tlv_map}
use ricq.Binary.Reader.TlvMap.{IsEntry, insert_all, tlvs_bytes, read_tlv_map-tlvs_bytes}
use ricq.Binary.Reader.Total.{read_tlv_map_returns}
use ricq.Runs.Crypto.{hello}

pub entry : (k : ℕ) (v : List ℕ) → k + 1 ≤ 2 ^ 16 → k ≢ 255 → length v + 1 ≤ 2 ^ 16 → IsEntry (k, v)
entry k v a b c = record { tag_fits = omega arith; not_end = b; value_fits = omega arith }

abbrev two_entries : List (ℕ × List ℕ)
two_entries = (0x104, hello) ∷ (0x402, []) ∷ []

read_tlv_map-tlvs_bytes_example :
    read_tlv_map 2 (tlvs_bytes two_entries ++ (9 ∷ [])) ≡ ok (insert_all empty two_entries, 9 ∷ [])
read_tlv_map-tlvs_bytes_example =
    read_tlv_map-tlvs_bytes two_entries (9 ∷ [])
      (
        entry 0x104 hello (omega arith) (λ e. omega (arith, e)) (omega arith),
        (entry 0x402 [] (omega arith) (λ e. omega (arith, e)) (omega arith), tt),
      )
      (omega arith)

read_tlv_map_returns_example :
    (p : HashMap × List ℕ) × (read_tlv_map 2 hello ≡ ok p) × (length p.1 ≤ 5)
read_tlv_map_returns_example = read_tlv_map_returns 2 hello
