-- ===== src/Wtlogin/TlvReader/Tickets.antt =====
-- `read_t531` of ricq-core/src/command/wtlogin/tlv_reader.rs on entries that were written.
use ricq.Base.{ℕ, ◌≡◌, arith, ap, sym, ◌∙◌, List, [], ◌++◌, All, none, some, append-nil}
use ricq.Wire.{Wire}
use ricq.Result.{ok, panic}
use ricq.HashMap.{get, empty}
use ricq.Binary.Reader.{read_tlv_map}
use ricq.Binary.Reader.TlvMap.{IsEntry, insert_all, tlvs_bytes, read_tlv_map-tlvs_bytes}
use ricq.Wtlogin.TlvReader.{split_t531, read_t531}

module _ ⦃w : Wire⦄ where
  read_t531-map :
      (es : List (ℕ × List ℕ))
      → All IsEntry es
      → read_t531 (tlvs_bytes es) ≡ split_t531 (insert_all empty es)
  unfolding read_t531
  read_t531-map es h = rw (
      ap (read_tlv_map 2) (sym (append-nil (tlvs_bytes es)))
      ∙ read_tlv_map-tlvs_bytes es [] h (omega arith))

  -- For well-formed entries among which are the entries 0x16a and 0x10c: with an entry 0x106,
  -- `read_t531` returns its value with that of 0x10c behind it, and that of 0x16a; without one, it panics.
  pub read_t531-tickets :
      (es : List (ℕ × List ℕ)) (t16a t10c : List ℕ)
      → All IsEntry es
      → get 0x16a (insert_all empty es) ≡ some t16a
      → get 0x10c (insert_all empty es) ≡ some t10c
      → ((t106 : List ℕ)
          → get 0x106 (insert_all empty es) ≡ some t106
          → read_t531 (tlvs_bytes es) ≡ ok (record { a1 = t106 ++ t10c; no_pic_sig = t16a }))
        × (get 0x106 (insert_all empty es) ≡ none → read_t531 (tlvs_bytes es) ≡ panic)
  unfolding split_t531
  read_t531-tickets es t16a t10c h a c =
      (λ t106 b. rw (read_t531-map es h, a, c, b), λ b. rw (read_t531-map es h, a, c, b))
