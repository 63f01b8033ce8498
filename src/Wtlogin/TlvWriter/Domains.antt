-- ===== src/Wtlogin/TlvWriter/Domains.antt =====
-- tlv_writer.rs: the entry 0x511 with the domains, of which one may start with a number in brackets.
use ricq.Base.{ℕ, zero, suc, ◌-◌, ◌%◌, ◌^◌, bit_and, bit_or, List, [], ◌∷◌, length, take, drop}
use ricq.Base.{Option, none, some, ltb, ◌==◌, if◌then◌else◌}
use ricq.Wire.{Wire}
use ricq.Result.{ok}
use ricq.Base.Decimal.{parse}
use ricq.Base.Int.{ℤ, pos, negsuc}
use ricq.Binary.Writer.{PacketWriter, ◌>>◌, put_slice, put_u8, put_u16, write_short_lv}
use ricq.Wtlogin.TlvWriter.{tlv}

-- `find` for a character of one byte.
unfoldable pub find : ℕ → List ℕ → Option ℕ
find c [] = none
find c (b ∷ s) = if b == c then some 0 else later (find c s)
  where
    later : Option ℕ → Option ℕ
    later none = none
    later (some i) = some (suc i)

-- The bits of an `i32`.
abbrev pub bits : ℤ → ℕ
bits (pos n) = n
bits (negsuc n) = 2 ^ 32 - 1 - n

unfoldable pub domain_flags : ℤ → ℕ
domain_flags i =
    let z2 = ltb 0 (bit_and 1048576 (bits i)) in
    let z = ltb 0 (bit_and (bits i) 134217728) in
    let b = if z2 then 1 else 0 in if z then bit_or b 2 else b

abbrev pub not_empty : List (List ℕ) → List (List ℕ)
not_empty [] = []
not_empty (d ∷ domains) =
    let rest = not_empty domains in if ltb 0 (length d) then d ∷ rest else rest

module _ ⦃w : Wire⦄ where
  -- A domain whose brackets hold no number is left out.
  unfoldable pub write_flagged : Option ℤ → List ℕ → PacketWriter
  write_flagged none name = λ buf. ok buf
  write_flagged (some i) name = do put_u8 (domain_flags i); write_short_lv (put_slice name)

  abbrev plain_domain : List ℕ → PacketWriter
  plain_domain d = do put_u8 0x01; write_short_lv (put_slice d)

  -- The brackets: `(` at the start, and `)` at an index that is not 0.
  unfoldable pub write_domain : Option ℕ → Option ℕ → List ℕ → PacketWriter
  write_domain (some zero) (some (suc i)) d =
      write_flagged (parse (2 ^ 31) (drop 1 (take (suc i) d))) (drop (suc (suc i)) d)
  write_domain (some zero) (some zero) d = plain_domain d
  write_domain (some zero) none d = plain_domain d
  write_domain (some (suc j)) index_of2 d = plain_domain d
  write_domain none index_of2 d = plain_domain d

  unfoldable pub write_domains : List (List ℕ) → PacketWriter
  write_domains [] = λ buf. ok buf
  write_domains (d ∷ domains) = do write_domain (find 40 d) (find 41 d) d; write_domains domains

  unfoldable pub t511 : List (List ℕ) → PacketWriter
  t511 domains =
      tlv 0x511
        (do put_u16 (length (not_empty domains) % 2 ^ 16); write_domains (not_empty domains))
