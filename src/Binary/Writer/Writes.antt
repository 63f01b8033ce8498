-- ===== src/Binary/Writer/Writes.antt =====
-- What the writers of ricq-core/src/binary/binary_writer.rs append.
use ricq.Base.{ℕ, ◌+◌, ◌-◌, ◌%◌, ◌^◌, ◌≡◌, refl, arith, sym, ap, ◌∙◌, List, [], ◌++◌}
use ricq.Base.{length, take, length-append, append_assoc, append-nil, take-append, drop-append}
use ricq.Base.{none, some, leb, leb→le, take-all, ap₂, Bool-cases, inl, inr}
use ricq.Wire.{Wire}
use ricq.Result.{ok}
use ricq.Binary.Writer.{PacketWriter, ◌>>◌, put_slice}
use ricq.Binary.Writer.{write_bytes_short, write_string, write_short_lv, write_option, overwrite}
use ricq.Binary.Writer.{write_tlv_limited_size, encrypt_and_write}
use ricq.Crypto.QqTea.{qqtea_encrypt}

pub record Writes (w : PacketWriter) (bytes : List ℕ) : Type 0 where
  pub onto : (buf : List ℕ) → w buf ≡ ok (buf ++ bytes)

pub Writes-put_slice : (bytes : List ℕ) → Writes (put_slice bytes) bytes
Writes-put_slice bytes = record { onto = λ buf. refl }

pub Writes->> :
    {v w : PacketWriter} {xs ys : List ℕ} → Writes v xs → Writes w ys → Writes (v >> w) (xs ++ ys)
Writes->> {xs = xs} {ys = ys} hv hw = record {
  onto = λ buf. rw (hv.onto buf, hw.onto (buf ++ xs)) (ap ok (append_assoc buf xs ys));
}

-- Overwriting bytes in the middle with as many others.
pub overwrite_middle :
    (front old new tail : List ℕ)
    → length old ≡ length new
    → overwrite (length front) new ((front ++ old) ++ tail) ≡ front ++ (new ++ tail)
overwrite_middle front old new tail h =
    let same : length (front ++ old) ≡ length front + length new =
      rw (length-append front old) (omega arith) in
    ap₂ ◌++◌
      (rw (append_assoc front old tail) (take-append (length front) front (old ++ tail) refl))
      (ap (λ t. new ++ t) (drop-append (length front + length new) (front ++ old) tail same))

pub Writes-none : Writes (write_option none) []
unfolding write_option
Writes-none = record { onto = λ buf. ap ok (sym (append-nil buf)) }

pub Writes-some : {w : PacketWriter} {xs : List ℕ} → Writes w xs → Writes (write_option (some w)) xs
unfolding write_option
Writes-some h = record { onto = h.onto }

module _ ⦃w : Wire⦄ where
  pub Writes-bytes_short :
      (bytes : List ℕ) → Writes (write_bytes_short bytes) (w.be 2 (length bytes % 2 ^ 16) ++ bytes)
  unfolding write_bytes_short
  Writes-bytes_short bytes = Writes->> (Writes-put_slice _) (Writes-put_slice _)

  pub Writes-string : (v : List ℕ) → Writes (write_string v) (w.be 4 ((length v + 4) % 2 ^ 32) ++ v)
  unfolding write_string
  Writes-string v = Writes->> (Writes-put_slice _) (Writes-put_slice _)

  -- The patch lands on the two bytes that were kept for the length.
  pub Writes-short_lv :
      {body : PacketWriter} {bytes : List ℕ}
      → Writes body bytes
      → Writes (write_short_lv body) (w.be 2 (length bytes % 2 ^ 16) ++ bytes)
  unfolding write_short_lv
  Writes-short_lv {bytes = bytes} h = record {
    onto = λ buf.
        let grown : length ((buf ++ w.be 2 0) ++ bytes) - length (buf ++ w.be 2 0) ≡ length bytes =
          rw (length-append (buf ++ w.be 2 0) bytes) (omega arith) in
        let len = w.be 2 (length bytes % 2 ^ 16) in
        rw (h.onto (buf ++ w.be 2 0), grown)
          (ap ok (
            overwrite_middle buf (w.be 2 0) len bytes
              (w.length-be 2 0 ∙ sym (w.length-be 2 (length bytes % 2 ^ 16)))));
  }

  -- A slice that is too long is cut.
  pub Writes-limited_size :
      (bytes : List ℕ) (limit : ℕ)
      → Writes
          (write_tlv_limited_size bytes limit)
          (w.be 2 (length (take limit bytes) % 2 ^ 16) ++ take limit bytes)
  unfolding write_tlv_limited_size
  Writes-limited_size bytes limit = elim (Bool-cases (leb (length bytes) limit)) [
    | inl e ↦ rw (e, take-all limit bytes (leb→le _ _ e)) (Writes-bytes_short bytes)
    | inr e ↦ rw e (Writes-bytes_short (take limit bytes))
  ]

  pub Writes-encrypt :
      (filling : ℕ → List ℕ) (key bytes : List ℕ) {cipher_text : List ℕ}
      → qqtea_encrypt filling bytes key ≡ ok cipher_text
      → Writes (encrypt_and_write filling key bytes) cipher_text
  unfolding encrypt_and_write
  Writes-encrypt filling key bytes h = record { onto = λ buf. rw h }
