-- ===== src/Binary/Reader/TlvMap.antt =====
-- `read_tlv_map` of ricq-core/src/binary/binary_reader.rs on entries that were written.
use ricq.Base.{ℕ, zero, suc, ◌%◌, ◌^◌, ◌<◌, ◌≡◌, ◌≢◌, refl, arith, ap, ◌∙◌}
use ricq.Base.{List, [], ◌∷◌, ◌++◌, All, length, length-append, append_assoc}
use ricq.Base.{lt→ltb, ne→==}
use ricq.Wire.{Wire}
use ricq.Result.{ok}
use ricq.HashMap.{HashMap, empty, insert}
use ricq.Binary.Reader.{read_tag, tlv_value, tlv_round, tlv_loop}
use ricq.Binary.Reader.ReadBack.{not_short, get_be-append, copy_to_bytes-append}
use ricq.Binary.Reader.{read_tlv_map, done, more}

-- A tag and a value that an entry with a tag of two bytes can hold: the tag 255 ends a map.
pub record IsEntry (e : ℕ × List ℕ) : Type 0 where
  pub tag_fits : e.0 < 2 ^ 16
  pub not_end : e.0 ≢ 255
  pub value_fits : length e.1 < 2 ^ 16

-- The map that entries make, a later one in place of an earlier one with its tag.
abbrev pub insert_all : HashMap → List (ℕ × List ℕ) → HashMap
insert_all m [] = m
insert_all m ((k, v) ∷ es) = insert_all (insert k v m) es

module _ ⦃w : Wire⦄ where
  abbrev pub tlv_bytes : ℕ → List ℕ → List ℕ
  tlv_bytes k v = w.be 2 k ++ (w.be 2 (length v % 2 ^ 16) ++ v)

  abbrev pub tlvs_bytes : List (ℕ × List ℕ) → List ℕ
  tlvs_bytes [] = []
  tlvs_bytes ((k, v) ∷ es) = tlv_bytes k v ++ tlvs_bytes es

  -- One entry is read, and the rest is left.
  tlv_round-tlv_bytes :
      (k : ℕ) (v rest : List ℕ) (m : HashMap)
      → IsEntry (k, v)
      → tlv_round 2 m (tlv_bytes k v ++ rest) ≡ ok (more (insert k v m), rest)
  unfolding tlv_round tlv_value read_tag
  tlv_round-tlv_bytes k v rest m h =
      let size : length v % 2 ^ 16 % 256 ^ 2 ≡ length v = omega (arith, h.value_fits) in
      let tail = w.be 2 (length v % 2 ^ 16) ++ (v ++ rest) in
      let tag : k % 256 ^ 2 ≡ k = omega (arith, h.tag_fits) in
      let shape : tlv_bytes k v ++ rest ≡ w.be 2 k ++ tail =
        append_assoc (w.be 2 k) (w.be 2 (length v % 2 ^ 16) ++ v) rest
        ∙ ap (λ t. w.be 2 k ++ t) (append_assoc (w.be 2 (length v % 2 ^ 16)) v rest) in
      rw
        (
          shape,
          not_short (w.be 2 k) tail 2 (w.length-be 2 k),
          get_be-append 2 k tail,
          tag,
          ne→== k 255 h.not_end,
        )
        (rw (
          not_short (w.be 2 (length v % 2 ^ 16)) (v ++ rest) 2 (w.length-be 2 _),
          get_be-append 2 (length v % 2 ^ 16) (v ++ rest),
          size,
          not_short v rest (length v) refl,
          copy_to_bytes-append (length v) v rest refl,
        ))

  tlv_round_end :
      (m : HashMap) (rest : List ℕ) → length rest < 2 → tlv_round 2 m rest ≡ ok (done m, rest)
  unfolding tlv_round
  tlv_round_end m rest h = rw (lt→ltb (length rest) 2 h)

  tlv_loop_more :
      (fuel : ℕ) (m m' : HashMap) (r r' : List ℕ)
      → tlv_round 2 m r ≡ ok (more m', r')
      → tlv_loop (suc fuel) 2 m r ≡ tlv_loop fuel 2 m' r'
  unfolding tlv_loop
  tlv_loop_more fuel m m' r r' e = rw e

  tlv_loop-tlvs_bytes :
      (es : List (ℕ × List ℕ)) (fuel : ℕ) (m : HashMap) (rest : List ℕ)
      → All IsEntry es
      → length rest < 2
      → length (tlvs_bytes es ++ rest) < fuel
      → tlv_loop fuel 2 m (tlvs_bytes es ++ rest) ≡ ok (insert_all m es, rest)
  tlv_loop-tlvs_bytes es zero m rest h s f = absurd (omega arith)
  tlv_loop-tlvs_bytes [] (suc fuel) m rest h s f = unfold tlv_loop in rw (tlv_round_end m rest s)
  tlv_loop-tlvs_bytes ((k, v) ∷ es) (suc fuel) m rest h s f =
      let tail = tlvs_bytes es ++ rest in
      let shape : tlvs_bytes ((k, v) ∷ es) ++ rest ≡ tlv_bytes k v ++ tail =
        append_assoc (tlv_bytes k v) (tlvs_bytes es) rest in
      let shorter : length tail < fuel = omega (
        arith,
        ap length shape,
        length-append (tlv_bytes k v) tail,
        length-append (w.be 2 k) (w.be 2 (length v % 2 ^ 16) ++ v),
        w.length-be 2 k,
      ) in
      ap (λ t. tlv_loop (suc fuel) 2 m t) shape
      ∙ tlv_loop_more fuel m (insert k v m) (tlv_bytes k v ++ tail) tail
          (tlv_round-tlv_bytes k v tail m h.0)
      ∙ tlv_loop-tlvs_bytes es fuel (insert k v m) rest h.1 s shorter

  -- For every list of entries (tags below 2 ^ 16 other than 255, values below 2 ^ 16 bytes), written
  -- one behind the other, and at most one byte behind them, `read_tlv_map` with tags of two bytes
  -- returns the map of the entries and leaves that byte.
  pub read_tlv_map-tlvs_bytes :
      (es : List (ℕ × List ℕ)) (rest : List ℕ)
      → All IsEntry es
      → length rest < 2
      → read_tlv_map 2 (tlvs_bytes es ++ rest) ≡ ok (insert_all empty es, rest)
  unfolding read_tlv_map
  read_tlv_map-tlvs_bytes es rest h s =
      tlv_loop-tlvs_bytes es (suc (length (tlvs_bytes es ++ rest))) empty rest h s (omega arith)
