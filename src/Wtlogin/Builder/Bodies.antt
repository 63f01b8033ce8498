-- ===== src/Wtlogin/Builder/Bodies.antt =====
-- The bodies of the login packets of ricq-core/src/command/wtlogin/builder.rs as lists of entries.
use ricq.Base.{ℕ, ◌%◌, ◌^◌, ◌≡◌, ◌∙◌, List, [], ◌∷◌, ◌++◌, length}
use ricq.Base.{append-nil, append_assoc, Bool, true, false, if◌then◌else◌, some, none}
use ricq.Wire.{Wire}
use ricq.Result.{ok}
use ricq.Binary.Reader.TlvMap.{tlvs_bytes}
use ricq.Binary.Writer.{PacketWriter, CounterWriter, ◌▸◌, ◌▸?◌}
use ricq.Binary.Writer.Writes.{Writes->>, Writes-put_slice}
use ricq.Binary.Writer.Written.{Written-put_slice}
use ricq.Engine.{Engine}
use ricq.Wtlogin.TlvWriter.Entries.{
  HasTag, tlv-HasTag, Tagged, Tagged-default, Tagged-▸, Tagged-▸?-some, Tagged-▸?-none, tags,
}
use ricq.Wtlogin.TlvWriter.Tags.{
  t1-HasTag, t8-HasTag, t18-HasTag, t100-HasTag, t107-HasTag, t116-HasTag, t141-HasTag, t142-HasTag,
  t145-HasTag, t147-HasTag, t154-HasTag, t177-HasTag, t187-HasTag, t188-HasTag, t191-HasTag,
  t194-HasTag, t202-HasTag, t516-HasTag, t521-HasTag, t536-HasTag,
}
use ricq.Wtlogin.TlvWriter.Sealed.{t106-HasTag, t144-HasTag, t511-HasTag, t525-HasTag}
use ricq.Wtlogin.Builder.{Outside, write_entries}
use ricq.Wtlogin.Builder.Login.{login_entries}

seven_behind :
    (xs : List ℕ) (a b c d e f g : ℕ)
    → ((((((xs ++ (a ∷ [])) ++ (b ∷ [])) ++ (c ∷ [])) ++ (d ∷ [])) ++ (e ∷ [])) ++ (f ∷ []))
        ++ (g ∷ [])
      ≡ xs ++ (a ∷ b ∷ c ∷ d ∷ e ∷ f ∷ g ∷ [])
seven_behind xs a b c d e f g = simp append_assoc

abbrev early_tags : Bool → List ℕ
early_tags allow_slider =
    (0x18 ∷ 0x01 ∷ 0x106 ∷ 0x116 ∷ 0x100 ∷ 0x107 ∷ 0x142 ∷ 0x144 ∷ 0x145 ∷ 0x147 ∷ 0x154 ∷ 0x141
      ∷ 0x08 ∷ 0x511 ∷ 0x187 ∷ 0x188 ∷ 0x194 ∷ [])
    ++ (if allow_slider then 0x191 ∷ [] else [])

-- The tags of a login with a password, with the one that asks for a slider or without.
abbrev pub login_tags : Bool → List ℕ
login_tags allow_slider =
    early_tags allow_slider ++ (0x202 ∷ 0x177 ∷ 0x516 ∷ 0x521 ∷ 0x525 ∷ 0x544 ∷ 0x545 ∷ [])

module _ ⦃w : Wire⦄ where
  infixl 5 ◌⊳◌
  abbrev ◌⊳◌ :
      {c : CounterWriter} {ts : List ℕ} {tag : ℕ} {entry : PacketWriter}
      → Tagged c ts
      → HasTag tag entry
      → Tagged (c ▸ entry) (ts ++ (tag ∷ []))
  h ⊳ k = Tagged-▸ h k

  -- An entry that is there or not.
  Tagged-▸?-if :
      {c : CounterWriter} {ts : List ℕ} {tag : ℕ} {entry : PacketWriter} (b : Bool)
      → Tagged c ts
      → HasTag tag entry
      → Tagged (c ▸? (if b then some entry else none)) (ts ++ (if b then tag ∷ [] else []))
  Tagged-▸?-if true h k = Tagged-▸?-some h k
  Tagged-▸?-if {ts = ts} false h k = rw (append-nil ts) (Tagged-▸?-none h)

  Tagged-≡ : {c : CounterWriter} {ts us : List ℕ} → ts ≡ us → Tagged c ts → Tagged c us
  Tagged-≡ e h = record { entries = h.entries; order = h.order ∙ e; counted_all = h.counted_all }

  -- What a body with a counter of entries with these tags is.
  abbrev pub IsBody : ℕ → List ℕ → PacketWriter → Type 0
  IsBody sub_command ts body =
      (es : List (ℕ × List ℕ)) × (tags es ≡ ts)
      × ((buf : List ℕ)
          → body buf
            ≡ ok (buf ++ (w.be 2 sub_command ++ (w.be 2 (length es % 2 ^ 16) ++ tlvs_bytes es))))

  pub Tagged-IsBody :
      {c : CounterWriter} {ts : List ℕ} (sub_command : ℕ)
      → Tagged c ts
      → IsBody sub_command ts (write_entries sub_command c)
  unfolding write_entries
  Tagged-IsBody sub_command h = (
    h.entries,
    h.order,
    rw h.counted_all.counted
        (Writes->> (Writes-put_slice _) (Writes->> (Writes-put_slice _) h.counted_all.writes)).onto,
  )

  login_entries-Tagged :
      (out : Outside) (password_md5 sign : List ℕ) (allow_slider : Bool) (e : Engine)
      → length e.transport.device.ip_address ≡ 4
      → length e.transport.sig.tgtgt_key ≡ 16
      → Tagged (login_entries out password_md5 sign allow_slider e) (login_tags allow_slider)
  unfolding login_entries
  login_entries-Tagged out password_md5 sign allow_slider e h k =
      let sig = e.transport.sig in
      let device = e.transport.device in
      Tagged-≡ (seven_behind (early_tags allow_slider) 0x202 0x177 0x516 0x521 0x525 0x544 0x545) (
        Tagged-▸?-if allow_slider
          (Tagged-default
            ⊳ t18-HasTag _ _
            ⊳ t1-HasTag _ _ _ device.ip_address h
            ⊳ t106-HasTag out.md5 (out.filling 0) _ _ _ _ _ _ _ _ _ _ _ out.length-md5
            ⊳ t116-HasTag _ _
            ⊳ t100-HasTag _ _ _
            ⊳ t107-HasTag _
            ⊳ t142-HasTag _
            ⊳ t144-HasTag _ _ _ _ _ _ _ _ _ _ _ _ _ _ _ sig.tgtgt_key k
            ⊳ t145-HasTag _
            ⊳ t147-HasTag _ _ _
            ⊳ t154-HasTag _
            ⊳ t141-HasTag _ _
            ⊳ t8-HasTag _
            ⊳ t511-HasTag _
            ⊳ t187-HasTag _ _
            ⊳ t188-HasTag _ _
            ⊳ t194-HasTag _)
          (t191-HasTag 0x82)
        ⊳ t202-HasTag _ _
        ⊳ t177-HasTag _ _
        ⊳ t516-HasTag
        ⊳ t521-HasTag _
        ⊳ t525-HasTag (t536-HasTag _)
        ⊳ tlv-HasTag 0x544 (Written-put_slice _)
        ⊳ tlv-HasTag 0x545 (Written-put_slice _))

  -- For an address of four bytes and a `tgtgt_key` of sixteen, the body of the password login appends
  -- to any buffer the number 9, the number of its entries as two bytes, and these entries; their tags
  -- are those of `login_tags`, in this order. It does not panic.
  pub login_entries-IsBody :
      (out : Outside) (password_md5 sign : List ℕ) (allow_slider : Bool) (e : Engine)
      → length e.transport.device.ip_address ≡ 4
      → length e.transport.sig.tgtgt_key ≡ 16
      → IsBody 9
          (login_tags allow_slider)
          (write_entries 9 (login_entries out password_md5 sign allow_slider e))
  login_entries-IsBody out password_md5 sign allow_slider e h k =
      Tagged-IsBody 9 (login_entries-Tagged out password_md5 sign allow_slider e h k)
