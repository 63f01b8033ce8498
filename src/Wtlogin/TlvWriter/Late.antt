-- ===== src/Wtlogin/TlvWriter/Late.antt =====
-- tlv_writer.rs: the entries from 0x174 on, without 0x511.
use ricq.Base.{ℕ, ◌%◌, ◌^◌, List, [], ◌∷◌}
use ricq.Wire.{Wire}
use ricq.Binary.Writer.{PacketWriter, ◌>>◌, put_slice, put_u8, put_u16, put_u32, put_u64}
use ricq.Binary.Writer.{with_written, write_short_lv, write_tlv_limited_size, encrypt_and_write}
use ricq.Wtlogin.TlvWriter.{tlv}

module _ ⦃w : Wire⦄ where
  unfoldable pub t174 : List ℕ → PacketWriter
  t174 dat = tlv 0x174 (put_slice dat)

  unfoldable pub t177 : ℕ → List ℕ → PacketWriter
  t177 build_time sdk_version =
      tlv 0x177 (do put_u8 0x01; put_u32 build_time; write_short_lv (put_slice sdk_version))

  unfoldable pub t187 : (List ℕ → List ℕ) → List ℕ → PacketWriter
  t187 md5 mac_address = tlv 0x187 (put_slice (md5 mac_address))

  unfoldable pub t188 : (List ℕ → List ℕ) → List ℕ → PacketWriter
  t188 md5 android_id = tlv 0x188 (put_slice (md5 android_id))

  unfoldable pub t191 : ℕ → PacketWriter
  t191 k = tlv 0x191 (put_u8 k)

  unfoldable pub t193 : List ℕ → PacketWriter
  t193 ticket = tlv 0x193 (put_slice ticket)

  unfoldable pub t194 : List ℕ → PacketWriter
  t194 imsi_md5 = tlv 0x194 (put_slice imsi_md5)

  unfoldable pub t197 : PacketWriter
  t197 = tlv 0x197 (put_slice (0 ∷ []))

  unfoldable pub t198 : PacketWriter
  t198 = tlv 0x198 (put_slice (0 ∷ []))

  unfoldable pub t202 : List ℕ → List ℕ → PacketWriter
  t202 wifi_bssid wifi_ssid =
      tlv 0x202 (do write_tlv_limited_size wifi_bssid 16; write_tlv_limited_size wifi_ssid 32)

  unfoldable pub t318 : List ℕ → PacketWriter
  t318 tgt_qr = tlv 0x318 (put_slice tgt_qr)

  -- What the entry 0x400 encrypts; the signed numbers are their bit patterns.
  unfoldable pub t400_plain : ℕ → ℕ → List ℕ → List ℕ → ℕ → ℕ → List ℕ → PacketWriter
  t400_plain as_millis uin guid dpwd j2 j3 rand_seed = do
    put_u16 1
    put_u64 uin
    put_slice guid
    put_slice dpwd
    put_u32 (j2 % 2 ^ 32)
    put_u32 (j3 % 2 ^ 32)
    put_u32 (as_millis % 2 ^ 32)
    put_slice rand_seed

  unfoldable pub t400 :
      (ℕ → List ℕ) → ℕ → List ℕ → ℕ → List ℕ → List ℕ → ℕ → ℕ → List ℕ → PacketWriter
  t400 filling as_millis g uin guid dpwd j2 j3 rand_seed = tlv 0x400 (
      with_written (t400_plain as_millis uin guid dpwd j2 j3 rand_seed)
        λ bytes. encrypt_and_write filling g bytes)

  unfoldable pub t401 : List ℕ → PacketWriter
  t401 d = tlv 0x401 (put_slice d)

  unfoldable pub t516 : PacketWriter
  t516 = tlv 0x516 (put_u32 0)

  unfoldable pub t521 : ℕ → PacketWriter
  t521 i = tlv 0x521 (do put_u32 i; put_u16 0)

  unfoldable pub t525 : PacketWriter → PacketWriter
  t525 t536 = tlv 0x525 (do put_u16 1; t536)

  -- The tag is 0x526.
  unfoldable pub t536 : List ℕ → PacketWriter
  t536 login_extra_data = tlv 0x526 (put_slice login_extra_data)
