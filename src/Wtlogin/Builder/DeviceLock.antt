-- ===== src/Wtlogin/Builder/DeviceLock.antt =====
-- The body of the device-lock packet of builder.rs, and the reader of binary_reader.rs.
use ricq.Base.{ℕ, ◌%◌, ◌^◌, ◌<◌, ◌≡◌, refl, arith, List, [], ◌∷◌, ◌++◌, length, length-append}
use ricq.Base.{some, append-nil, ◌∙◌, ap, sym, All, ◌≢◌}
use ricq.Wire.{Wire}
use ricq.Result.{ok}
use ricq.HashMap.{HashMap, get, insert, erase, empty}
use ricq.Binary.Reader.{read_tlv_map}
use ricq.Binary.Reader.TlvMap.{IsEntry, tlvs_bytes, insert_all, read_tlv_map-tlvs_bytes}
use ricq.Binary.Writer.Writes.{Writes, Writes->>, Writes-put_slice}
use ricq.Binary.Writer.{CounterWriter}
use ricq.Engine.{Engine}
use ricq.Wtlogin.TlvWriter.Early.{t8, t104}
use ricq.Wtlogin.TlvWriter.Middle.{t116}
use ricq.Wtlogin.TlvWriter.Late.{t401}
use ricq.Wtlogin.TlvWriter.Entries.{IsTlv, tlv-IsTlv, Counted, Counted-default, Counted-▸}
use ricq.Wtlogin.Builder.{write_entries}
use ricq.Wtlogin.Builder.Small.{device_lock_entries}

module _ ⦃w : Wire⦄ where
  abbrev t8_value : ℕ → List ℕ
  t8_value local_id = w.be 2 0 ++ (w.be 4 local_id ++ w.be 2 0)

  t8-IsTlv : (local_id : ℕ) → IsTlv 0x08 (t8_value local_id) (t8 local_id)
  unfolding t8
  t8-IsTlv local_id =
      tlv-IsTlv 0x08
        (Writes->> (Writes-put_slice _) (Writes->> (Writes-put_slice _) (Writes-put_slice _)))

  t104-IsTlv : (dat : List ℕ) → IsTlv 0x104 dat (t104 dat)
  unfolding t104
  t104-IsTlv dat = tlv-IsTlv 0x104 (Writes-put_slice dat)

  t401-IsTlv : (d : List ℕ) → IsTlv 0x401 d (t401 d)
  unfolding t401
  t401-IsTlv d = tlv-IsTlv 0x401 (Writes-put_slice d)

  abbrev t116_value : ℕ → ℕ → List ℕ
  t116_value misc_bitmap sub_sig_map =
      0 ∷ (w.be 4 misc_bitmap ++ (w.be 4 sub_sig_map ++ (1 ∷ w.be 4 1600000226)))

  t116-IsTlv :
      (misc_bitmap sub_sig_map : ℕ)
      → IsTlv 0x116 (t116_value misc_bitmap sub_sig_map) (t116 misc_bitmap sub_sig_map)
  unfolding t116
  t116-IsTlv misc_bitmap sub_sig_map =
      let put = Writes-put_slice in
      tlv-IsTlv 0x116
        (Writes->> (put _) (Writes->> (put _) (Writes->> (put _) (Writes->> (put _) (put _)))))

  abbrev lock_entries : Engine → List (ℕ × List ℕ)
  lock_entries e =
      let version = e.transport.version in
      (0x08, t8_value 2052)
      ∷ (0x104, e.transport.sig.t104)
      ∷ (0x116, t116_value version.misc_bitmap version.sub_sig_map)
      ∷ (0x401, e.transport.sig.g)
      ∷ []

  device_lock_entries-Counted : (e : Engine) → Counted (device_lock_entries e) (lock_entries e)
  unfolding device_lock_entries
  device_lock_entries-Counted e =
      Counted-▸
        (Counted-▸ (Counted-▸ (Counted-▸ Counted-default (t8-IsTlv 2052)) (t104-IsTlv _))
          (t116-IsTlv _ _))
        (t401-IsTlv _)

  entry : (k : ℕ) (v : List ℕ) → k < 2 ^ 16 → k ≢ 255 → length v < 2 ^ 16 → IsEntry (k, v)
  entry k v a b c = record { tag_fits = a; not_end = b; value_fits = c }

  length-t8_value : (local_id : ℕ) → length (t8_value local_id) ≡ 8
  length-t8_value local_id = omega (
    arith,
    length-append (w.be 2 0) (w.be 4 local_id ++ w.be 2 0),
    length-append (w.be 4 local_id) (w.be 2 0),
    w.length-be 2 0,
    w.length-be 4 local_id,
  )

  length-t116_value : (m s : ℕ) → length (t116_value m s) ≡ 14
  length-t116_value m s = omega (
    arith,
    length-append (w.be 4 m) (w.be 4 s ++ (1 ∷ w.be 4 1600000226)),
    length-append (w.be 4 s) (1 ∷ w.be 4 1600000226),
    w.length-be 4 m,
    w.length-be 4 s,
    w.length-be 4 1600000226,
  )

  lock_entries-IsEntry :
      (e : Engine)
      → length e.transport.sig.t104 < 2 ^ 16
      → length e.transport.sig.g < 2 ^ 16
      → All IsEntry (lock_entries e)
  lock_entries-IsEntry e h k = (
    entry 0x08 _ (omega arith) (λ p. omega arith) (omega (arith, length-t8_value 2052)),
    (
      entry 0x104 _ (omega arith) (λ p. omega arith) h,
      (
        entry 0x116 _ (omega arith) (λ p. omega arith)
            (omega (
              arith,
              length-t116_value e.transport.version.misc_bitmap e.transport.version.sub_sig_map,
            )),
        (entry 0x401 _ (omega arith) (λ p. omega arith) k, tt),
      ),
    ),
  )

  write_entries-Counted :
      {c : CounterWriter} {es : List (ℕ × List ℕ)} (sub_command : ℕ)
      → Counted c es
      → Writes
          (write_entries sub_command c)
          (w.be 2 sub_command ++ (w.be 2 (length es % 2 ^ 16) ++ tlvs_bytes es))
  unfolding write_entries
  write_entries-Counted sub_command h =
      rw h.counted (Writes->> (Writes-put_slice _) (Writes->> (Writes-put_slice _) h.writes))

  -- For a `t104` and a `g` of fewer than 2 ^ 16 bytes, the body of the device-lock packet is the number
  -- 20, the number 4, and bytes that `read_tlv_map` reads to their end; in the map that it returns,
  -- 0x104 has the `t104` and 0x401 the `g` of the client.
  pub read_tlv_map-device_lock_entries :
      (e : Engine)
      → length e.transport.sig.t104 < 2 ^ 16
      → length e.transport.sig.g < 2 ^ 16
      → (bytes : List ℕ) × (m : HashMap) × (write_entries 20 (device_lock_entries e) []
          ≡ ok (w.be 2 20 ++ (w.be 2 4 ++ bytes)))
        × (read_tlv_map 2 bytes ≡ ok (m, []))
        × (get 0x104 m ≡ some e.transport.sig.t104)
        × (get 0x401 m ≡ some e.transport.sig.g)
  unfolding get insert erase
  read_tlv_map-device_lock_entries e h k = (
    tlvs_bytes (lock_entries e),
    insert_all empty (lock_entries e),
    (write_entries-Counted 20 (device_lock_entries-Counted e)).onto [],
    ap (λ t. read_tlv_map 2 t) (sym (append-nil (tlvs_bytes (lock_entries e))))
        ∙ read_tlv_map-tlvs_bytes (lock_entries e) [] (lock_entries-IsEntry e h k) (omega arith),
    refl,
    refl,
  )
