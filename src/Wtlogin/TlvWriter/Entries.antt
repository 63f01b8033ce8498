-- ===== src/Wtlogin/TlvWriter/Entries.antt =====
-- What an entry, and what a list of entries appends.
use ricq.Base.{ℕ, suc, ◌≡◌, refl, arith, sym, ap, ◌∙◌, List, [], ◌∷◌, ◌++◌, length}
use ricq.Base.{length-append, append_assoc, append-nil, none, some}
use ricq.Wire.{Wire}
use ricq.Binary.Reader.TlvMap.{tlv_bytes, tlvs_bytes}
use ricq.Binary.Writer.{PacketWriter, CounterWriter, counter_default, write_option, ◌▸◌, ◌▸?◌}
use ricq.Binary.Writer.Writes.{
  Writes, Writes->>, Writes-put_slice, Writes-short_lv, Writes-none, Writes-some,
}
use ricq.Binary.Writer.Written.{Written}
use ricq.Wtlogin.TlvWriter.{tlv}

abbrev pub tags : List (ℕ × List ℕ) → List ℕ
tags [] = []
tags ((k, v) ∷ es) = k ∷ tags es

tags-append : (es fs : List (ℕ × List ℕ)) → tags (es ++ fs) ≡ tags es ++ tags fs
tags-append [] fs = refl
tags-append ((k, v) ∷ es) fs = ap (λ t. k ∷ t) (tags-append es fs)

pub length-tags : (es : List (ℕ × List ℕ)) → length (tags es) ≡ length es
length-tags [] = refl
length-tags ((k, v) ∷ es) = ap suc (length-tags es)

module _ ⦃w : Wire⦄ where
  -- The writer appends one entry with this tag and value.
  pub record IsTlv (tag : ℕ) (value : List ℕ) (entry : PacketWriter) : Type 0 where
    pub writes : Writes entry (tlv_bytes tag value)

  pub tlv-IsTlv :
      (tag : ℕ) {body : PacketWriter} {value : List ℕ}
      → Writes body value
      → IsTlv tag value (tlv tag body)
  unfolding tlv
  tlv-IsTlv tag h = record { writes = Writes->> (Writes-put_slice _) (Writes-short_lv h) }

  tlvs_bytes-append :
      (es fs : List (ℕ × List ℕ)) → tlvs_bytes (es ++ fs) ≡ tlvs_bytes es ++ tlvs_bytes fs
  tlvs_bytes-append [] fs = refl
  tlvs_bytes-append ((k, v) ∷ es) fs =
      ap (λ t. tlv_bytes k v ++ t) (tlvs_bytes-append es fs)
      ∙ sym (append_assoc (tlv_bytes k v) (tlvs_bytes es) (tlvs_bytes fs))

  -- A counter that has counted these entries and appends them.
  pub record Counted (c : CounterWriter) (es : List (ℕ × List ℕ)) : Type 0 where
    pub counted : c.count ≡ length es
    pub writes : Writes c.writer (tlvs_bytes es)

  pub Counted-default : Counted counter_default []
  unfolding counter_default write_option
  Counted-default = record { counted = refl; writes = Writes-none }

  one_more :
      (es : List (ℕ × List ℕ)) (tag : ℕ) (value : List ℕ)
      → tlvs_bytes (es ++ ((tag, value) ∷ [])) ≡ tlvs_bytes es ++ tlv_bytes tag value
  one_more es tag value =
      tlvs_bytes-append es ((tag, value) ∷ [])
      ∙ ap (λ t. tlvs_bytes es ++ t) (append-nil (tlv_bytes tag value))

  pub Counted-▸ :
      {c : CounterWriter} {es : List (ℕ × List ℕ)} {tag : ℕ} {value : List ℕ} {entry : PacketWriter}
      → Counted c es
      → IsTlv tag value entry
      → Counted (c ▸ entry) (es ++ ((tag, value) ∷ []))
  unfolding ◌▸◌
  Counted-▸ {c} {es} {tag} {value} {entry} h k = record {
    counted = omega (arith, h.counted, length-append es ((tag, value) ∷ []));
    writes = rw (one_more es tag value) (Writes->> h.writes k.writes);
  }

  pub Counted-▸?-some :
      {c : CounterWriter} {es : List (ℕ × List ℕ)} {tag : ℕ} {value : List ℕ} {entry : PacketWriter}
      → Counted c es
      → IsTlv tag value entry
      → Counted (c ▸? some entry) (es ++ ((tag, value) ∷ []))
  unfolding ◌▸?◌ write_option
  Counted-▸?-some {es = es} {tag} {value} h k = record {
    counted = omega (arith, h.counted, length-append es ((tag, value) ∷ []));
    writes = rw (one_more es tag value) (Writes->> h.writes (Writes-some k.writes));
  }

  pub Counted-▸?-none :
      {c : CounterWriter} {es : List (ℕ × List ℕ)} → Counted c es → Counted (c ▸? none) es
  unfolding ◌▸?◌
  Counted-▸?-none {es = es} h = record {
    counted = omega (arith, h.counted);
    writes = rw (← append-nil (tlvs_bytes es)) (Writes->> h.writes Writes-none);
  }

  -- A writer of one entry with this tag, whatever its value.
  pub record HasTag (tag : ℕ) (entry : PacketWriter) : Type 0 where
    pub value : List ℕ
    pub is_tlv : IsTlv tag value entry

  pub tlv-HasTag : (tag : ℕ) {body : PacketWriter} → Written body → HasTag tag (tlv tag body)
  tlv-HasTag tag h = record { value = h.bytes; is_tlv = tlv-IsTlv tag h.writes }

  pub HasTag-Written : {tag : ℕ} {entry : PacketWriter} → HasTag tag entry → Written entry
  HasTag-Written h = record { bytes = _; writes = h.is_tlv.writes }

  -- A counter that has counted entries with these tags, in this order, and appends them.
  pub record Tagged (c : CounterWriter) (ts : List ℕ) : Type 0 where
    pub entries : List (ℕ × List ℕ)
    pub order : tags entries ≡ ts
    pub counted_all : Counted c entries

  pub Tagged-default : Tagged counter_default []
  Tagged-default = record { entries = []; order = refl; counted_all = Counted-default }

  pub Tagged-▸ :
      {c : CounterWriter} {ts : List ℕ} {tag : ℕ} {entry : PacketWriter}
      → Tagged c ts
      → HasTag tag entry
      → Tagged (c ▸ entry) (ts ++ (tag ∷ []))
  Tagged-▸ {tag = tag} h k = record {
    entries = h.entries ++ ((tag, k.value) ∷ []);
    order = rw (tags-append h.entries ((tag, k.value) ∷ []), h.order);
    counted_all = Counted-▸ h.counted_all k.is_tlv;
  }

  pub Tagged-▸?-some :
      {c : CounterWriter} {ts : List ℕ} {tag : ℕ} {entry : PacketWriter}
      → Tagged c ts
      → HasTag tag entry
      → Tagged (c ▸? some entry) (ts ++ (tag ∷ []))
  Tagged-▸?-some {tag = tag} h k = record {
    entries = h.entries ++ ((tag, k.value) ∷ []);
    order = rw (tags-append h.entries ((tag, k.value) ∷ []), h.order);
    counted_all = Counted-▸?-some h.counted_all k.is_tlv;
  }

  pub Tagged-▸?-none : {c : CounterWriter} {ts : List ℕ} → Tagged c ts → Tagged (c ▸? none) ts
  Tagged-▸?-none h = record {
    entries = h.entries;
    order = h.order;
    counted_all = Counted-▸?-none h.counted_all;
  }
