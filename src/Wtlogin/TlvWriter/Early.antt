-- ===== src/Wtlogin/TlvWriter/Early.antt =====
-- tlv_writer.rs: the entries 0x01 to 0x108.
use ricq.Base.{ℕ, ◌%◌, ◌^◌, List, [], ◌∷◌, length, replicate, ◌==◌, ltb, if◌then◌else◌, Bool}
use ricq.Wire.{Wire}
use ricq.Result.{panic}
use ricq.Base.Decimal.{to_string}
use ricq.Base.Int.{pos}
use ricq.Binary.Writer.{PacketWriter, ◌>>◌, put_slice, put_u8, put_u16, put_u32, put_u64}
use ricq.Binary.Writer.{with_written, write_bytes_short, write_short_lv, encrypt_and_write}
use ricq.Wtlogin.TlvWriter.{tlv, flag}

module _ ⦃w : Wire⦄ where
  -- The bytes of an address of another length panic.
  unfoldable pub t1 : ℕ → ℕ → ℕ → List ℕ → PacketWriter
  t1 random as_secs uin ip =
      if length ip == 4
      then tlv 0x01 (do
        put_u16 1
        put_u32 random
        put_u32 uin
        put_u32 (as_secs % 2 ^ 32)
        put_slice ip
        put_u16 0)
      else λ buf. panic

  unfoldable pub t1b : ℕ → ℕ → ℕ → ℕ → ℕ → ℕ → ℕ → PacketWriter
  t1b micro version size margin dpi ec_level hint = tlv 0x1b (do
    put_u32 micro
    put_u32 version
    put_u32 size
    put_u32 margin
    put_u32 dpi
    put_u32 ec_level
    put_u32 hint
    put_u16 0)

  unfoldable pub t1d : ℕ → PacketWriter
  t1d misc_bitmap = tlv 0x1d (do put_u8 1; put_u32 misc_bitmap; put_u32 0; put_u8 0; put_u32 0)

  unfoldable pub t1f : Bool → List ℕ → List ℕ → List ℕ → List ℕ → ℕ → PacketWriter
  t1f is_root os_name os_version sim_operator_name apn network_type = tlv 0x1f (do
    put_u8 (flag is_root)
    write_bytes_short os_name
    write_bytes_short os_version
    put_u16 network_type
    write_bytes_short sim_operator_name
    write_bytes_short []
    write_bytes_short apn)

  unfoldable pub t2 : List ℕ → List ℕ → PacketWriter
  t2 result sign = tlv 0x02 (do put_u16 0; write_bytes_short result; write_bytes_short sign)

  unfoldable pub t8 : ℕ → PacketWriter
  t8 local_id = tlv 0x08 (do put_u16 0; put_u32 local_id; put_u16 0)

  unfoldable pub t10a : List ℕ → PacketWriter
  t10a arr = tlv 0x10A (put_slice arr)

  unfoldable pub t16 : ℕ → ℕ → ℕ → List ℕ → List ℕ → List ℕ → List ℕ → PacketWriter
  t16 sso_version app_id sub_app_id guid apk_id apk_version_name apk_sign = tlv 0x16 (do
    put_u32 sso_version
    put_u32 app_id
    put_u32 sub_app_id
    put_slice guid
    write_bytes_short apk_id
    write_bytes_short apk_version_name
    write_bytes_short apk_sign)

  unfoldable pub t16a : List ℕ → PacketWriter
  t16a arr = tlv 0x16A (put_slice arr)

  unfoldable pub t16e : List ℕ → PacketWriter
  t16e build_model = tlv 0x16E (put_slice build_model)

  unfoldable pub t17a : ℕ → PacketWriter
  t17a value = tlv 0x17a (put_u32 (value % 2 ^ 32))

  unfoldable pub t17c : List ℕ → PacketWriter
  t17c code = tlv 0x17c (write_short_lv (put_slice code))

  unfoldable pub t18 : ℕ → ℕ → PacketWriter
  t18 app_id uin =
      tlv 0x18
        (do put_u16 1; put_u32 1536; put_u32 app_id; put_u32 0; put_u32 uin; put_u16 0; put_u16 0)

  unfoldable pub t33 : List ℕ → PacketWriter
  t33 guid = tlv 0x33 (put_slice guid)

  unfoldable pub t35 : ℕ → PacketWriter
  t35 product_type = tlv 0x35 (put_u32 product_type)

  unfoldable pub t52d : List ℕ → PacketWriter
  t52d dev_info = tlv 0x52d (put_slice dev_info)

  unfoldable pub t100 : ℕ → ℕ → ℕ → PacketWriter
  t100 sso_version protocol main_sig_map = tlv 0x100 (do
    put_u16 1
    put_u32 sso_version
    put_u32 16
    put_u32 protocol
    put_u32 0
    put_u32 main_sig_map)

  unfoldable pub t104 : List ℕ → PacketWriter
  t104 dat = tlv 0x104 (put_slice dat)

  -- Four draws where there is no guid.
  unfoldable pub guid_or_random : (ℕ → ℕ) → List ℕ → PacketWriter
  guid_or_random random [] = do
    put_u32 (random 1)
    put_u32 (random 2)
    put_u32 (random 3)
    put_u32 (random 4)
  guid_or_random random (b ∷ guid) = put_slice (b ∷ guid)

  -- The bytes that the entry 0x106 encrypts, with the draws for the random part.
  unfoldable pub t106_plain :
      (ℕ → ℕ) → ℕ → ℕ → ℕ → ℕ → ℕ → List ℕ → Bool → List ℕ → List ℕ → ℕ → PacketWriter
  t106_plain random as_secs uin salt app_id sso_ver password_md5 guid_available guid tgtgt_key wtf =
      do
        put_u16 4
        put_u32 (random 0)
        put_u32 sso_ver
        put_u32 16
        put_u32 0
        put_u64 (if uin == 0 then salt else uin)
        put_u32 (as_secs % 2 ^ 32)
        put_slice (replicate 4 0)
        put_u8 0x01
        put_slice password_md5
        put_slice tgtgt_key
        put_u32 wtf
        put_u8 (flag guid_available)
        guid_or_random random guid
        put_u32 app_id
        put_u32 1
        write_short_lv (put_slice (to_string (pos uin)))
        put_u16 0

  unfoldable pub t106_key : List ℕ → ℕ → ℕ → PacketWriter
  t106_key password_md5 salt uin = do
    put_slice password_md5
    put_slice (replicate 4 0)
    put_u32 (if ltb 0 salt then salt else uin)

  unfoldable pub t106 :
      (List ℕ → List ℕ)
      → (ℕ → List ℕ)
      → (ℕ → ℕ)
      → ℕ
      → ℕ
      → ℕ
      → ℕ
      → ℕ
      → List ℕ
      → Bool
      → List ℕ
      → List ℕ
      → ℕ
      → PacketWriter
  t106 md5 filling random as_secs uin salt app_id sso_ver password_md5 guid_available guid tgtgt_key
        wtf =
      tlv 0x106 (
        with_written (t106_key password_md5 salt uin) λ v.
          with_written
            (t106_plain random as_secs uin salt app_id sso_ver password_md5 guid_available guid
              tgtgt_key wtf)
            λ bytes. encrypt_and_write filling (md5 v) bytes)

  unfoldable pub t107 : ℕ → PacketWriter
  t107 pic_type = tlv 0x107 (do put_u16 pic_type; put_u8 0x00; put_u16 0; put_u8 0x01)

  unfoldable pub t108 : List ℕ → PacketWriter
  t108 ksid = tlv 0x108 (put_slice ksid)
