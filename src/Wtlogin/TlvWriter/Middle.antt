-- ===== src/Wtlogin/TlvWriter/Middle.antt =====
-- tlv_writer.rs: the entries 0x109 to 0x16b.
use ricq.Base.{ℕ, List, [], Bool}
use ricq.Wire.{Wire}
use ricq.Base.Decimal.{to_string}
use ricq.Base.Int.{ℤ}
use ricq.Binary.Writer.{PacketWriter, ◌>>◌, put_slice, put_u8, put_u16, put_u32}
use ricq.Binary.Writer.{with_written, write_bytes_short, write_tlv_limited_size, encrypt_and_write}
use ricq.Wtlogin.TlvWriter.{tlv, flag}
use ricq.Wtlogin.TlvWriter.Early.{t16e, t52d}

module _ ⦃w : Wire⦄ where
  unfoldable pub t109 : (List ℕ → List ℕ) → List ℕ → PacketWriter
  t109 md5 android_id = tlv 0x109 (put_slice (md5 android_id))

  unfoldable pub t112 : ℤ → PacketWriter
  t112 uin = tlv 0x112 (put_slice (to_string uin))

  unfoldable pub t116 : ℕ → ℕ → PacketWriter
  t116 misc_bitmap sub_sig_map =
      tlv 0x116
        (do put_u8 0x00; put_u32 misc_bitmap; put_u32 sub_sig_map; put_u8 0x01; put_u32 1600000226)

  unfoldable pub t124 : List ℕ → List ℕ → List ℕ → List ℕ → PacketWriter
  t124 os_type os_version sim_info apn = tlv 0x124 (do
    write_tlv_limited_size os_type 16
    write_tlv_limited_size os_version 16
    put_u16 2
    write_tlv_limited_size sim_info 16
    write_tlv_limited_size [] 16
    write_tlv_limited_size apn 16)

  unfoldable pub t128 : Bool → Bool → Bool → ℕ → List ℕ → List ℕ → List ℕ → PacketWriter
  t128 is_guid_from_file_null is_guid_available is_guid_changed guid_flag build_model guid
        build_brand =
      tlv 0x128 (do
        put_u16 0
        put_u8 (flag is_guid_from_file_null)
        put_u8 (flag is_guid_available)
        put_u8 (flag is_guid_changed)
        put_u32 guid_flag
        write_tlv_limited_size build_model 32
        write_tlv_limited_size guid 16
        write_tlv_limited_size build_brand 16)

  unfoldable pub t141 : List ℕ → List ℕ → PacketWriter
  t141 sim_info apn =
      tlv 0x141 (do put_u16 1; write_bytes_short sim_info; put_u16 2; write_bytes_short apn)

  unfoldable pub t142 : List ℕ → PacketWriter
  t142 apk_id = tlv 0x142 (do put_u16 0; write_tlv_limited_size apk_id 32)

  unfoldable pub t143 : List ℕ → PacketWriter
  t143 arr = tlv 0x143 (put_slice arr)

  -- What the entry 0x144 encrypts: five entries.
  unfoldable pub t144_plain :
      (List ℕ → List ℕ)
      → List ℕ
      → List ℕ
      → List ℕ
      → List ℕ
      → List ℕ
      → List ℕ
      → Bool
      → Bool
      → Bool
      → ℕ
      → List ℕ
      → List ℕ
      → List ℕ
      → PacketWriter
  t144_plain md5 imei dev_info os_type os_version sim_info apn is_guid_from_file_null
        is_guid_available is_guid_changed guid_flag build_model guid build_brand =
      do
        put_u16 5
        t109 md5 imei
        t52d dev_info
        t124 os_type os_version sim_info apn
        t128 is_guid_from_file_null is_guid_available is_guid_changed guid_flag build_model guid
            build_brand
        t16e build_model

  unfoldable pub t144 :
      (List ℕ → List ℕ)
      → (ℕ → List ℕ)
      → List ℕ
      → List ℕ
      → List ℕ
      → List ℕ
      → List ℕ
      → List ℕ
      → Bool
      → Bool
      → Bool
      → ℕ
      → List ℕ
      → List ℕ
      → List ℕ
      → List ℕ
      → PacketWriter
  t144 md5 filling imei dev_info os_type os_version sim_info apn is_guid_from_file_null
        is_guid_available is_guid_changed guid_flag build_model guid build_brand tgtgt_key =
      tlv 0x144 (
        with_written
          (t144_plain md5 imei dev_info os_type os_version sim_info apn is_guid_from_file_null
            is_guid_available is_guid_changed guid_flag build_model guid build_brand)
          λ bytes. encrypt_and_write filling tgtgt_key bytes)

  unfoldable pub t145 : List ℕ → PacketWriter
  t145 guid = tlv 0x145 (put_slice guid)

  unfoldable pub t147 : ℕ → List ℕ → List ℕ → PacketWriter
  t147 app_id apk_version_name apk_signature_md5 = tlv 0x147 (do
    put_u32 app_id
    write_tlv_limited_size apk_version_name 32
    write_tlv_limited_size apk_signature_md5 32)

  unfoldable pub t154 : ℕ → PacketWriter
  t154 seq = tlv 0x154 (put_u32 seq)

  unfoldable pub t166 : ℕ → PacketWriter
  t166 image_type = tlv 0x166 (put_u8 image_type)
