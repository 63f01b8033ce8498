-- ===== src/Wtlogin/Builder/Qrcode.antt =====
-- builder.rs: the packets of a login with a QR code.
use ricq.Base.{ℕ, ◌+◌, ◌%◌, ◌^◌, List, [], ◌∷◌, length, replicate, ltb, ◌&&◌, if◌then◌else◌}
use ricq.Base.{Option, none, some, Bool, true, false}
use ricq.Base.Int.{pos}
use ricq.Wire.{Wire}
use ricq.Result.{Result, ok, err, panic, codes}
use ricq.Hex.{decode_hex}
use ricq.Binary.Writer.{PacketWriter, CounterWriter, ◌>>◌, counter_default, ◌▸◌, ◌▸?◌, put_slice}
use ricq.Binary.Writer.{put_u8, put_u16, put_u32, put_u64, write_short_lv, with_written}
use ricq.Protocol.Device.{Protocol, ipad, android_phone, android_watch, android_pad, macos, qidian}
use ricq.Protocol.Packet.{Packet, login}
use ricq.Engine.{Engine, next_seq}
use ricq.Wtlogin.TlvWriter.{tlv, guid_flag}
use ricq.Wtlogin.TlvWriter.Early.{t1, t1b, t1d, t1f, t8, t16, t16a, t18, t33, t35, t100, t107}
use ricq.Wtlogin.TlvWriter.Middle.{t116, t141, t142, t144, t145, t147, t154}
use ricq.Wtlogin.TlvWriter.Late.{t177, t187, t188, t191, t194, t202, t318, t516, t521}
use ricq.Wtlogin.TlvWriter.Domains.{t511}
use ricq.Wtlogin.Builder.{Outside, as_bits, write_entries, build_oicq_request_packet, packet_of}

unfoldable pub domains : List (List ℕ)
domains =
    codes "tenpay.com"
    ∷ codes "openmobile.qq.com"
    ∷ codes "docs.qq.com"
    ∷ codes "connect.qq.com"
    ∷ codes "qzone.qq.com"
    ∷ codes "vip.qq.com"
    ∷ codes "gamecenter.qq.com"
    ∷ codes "qun.qq.com"
    ∷ codes "game.qq.com"
    ∷ codes "qqweb.qq.com"
    ∷ codes "office.qq.com"
    ∷ codes "ti.qq.com"
    ∷ codes "mail.qq.com"
    ∷ codes "mma.qq.com"
    ∷ []

abbrev is_macos : Protocol → Bool
is_macos macos = true
is_macos ipad = false
is_macos android_phone = false
is_macos android_watch = false
is_macos android_pad = false
is_macos qidian = false

module _ ⦃w : Wire⦄ where
  -- `write_hex`: what is no hexadecimal text panics.
  unfoldable pub write_hex : List ℕ → PacketWriter
  write_hex h = write_decoded (decode_hex h)
    where
      write_decoded : Result (Option (List ℕ)) → PacketWriter
      write_decoded (ok (some bytes)) = put_slice bytes
      write_decoded (ok none) = λ buf. panic
      write_decoded (err x) = λ buf. panic
      write_decoded panic = λ buf. panic

  unfoldable pub build_code2d_request_packet : ℕ → ℕ → ℕ → ℕ → List ℕ → PacketWriter
  build_code2d_request_packet as_secs seq j cmd body = do
    put_u32 (as_secs % 2 ^ 32)
    put_u8 2
    put_u16 ((43 + length body + 1) % 2 ^ 16)
    put_u16 cmd
    put_slice (replicate 21 0)
    put_u8 3
    put_u16 0
    put_u16 50
    put_u32 seq
    put_u64 j
    put_slice body
    put_u8 3

  -- What both requests put around their body.
  unfoldable pub code2d_body : Engine → List ℕ → PacketWriter
  code2d_body e req_body = do
    put_u8 0
    put_u16 (length req_body % 2 ^ 16)
    put_u32 e.transport.version.app_id
    put_u32 114
    write_hex (codes "000000")
    put_slice req_body

  abbrev trans_emp : Outside → Engine → PacketWriter → Result (Packet × Engine)
  trans_emp out e body =
      packet_of login (codes "wtlogin.trans_emp") (pos 0) e
        (build_oicq_request_packet out e (pos 0) 0x812 body)

  unfoldable pub qrcode_fetch_entries : Engine → CounterWriter
  qrcode_fetch_entries e =
      let sig = e.transport.sig in
      let version = e.transport.version in
      let device = e.transport.device in
      counter_default
      ▸ t16 version.sso_version 16 version.sub_app_id sig.guid version.apk_id
          version.sort_version_name version.apk_sign
      ▸ t1b 0 0 3 4 72 2 2
      ▸ t1d version.misc_bitmap
      ▸ (if is_macos version.protocol
          then t1f false (codes "Mac OSX") (codes "10") (codes "mac carrier") device.apn 2
          else t1f false device.os_type (codes "7.1.2") device.sim_info device.apn 2)
      ▸ t33 sig.guid
      ▸ t35 (if is_macos version.protocol then 5 else 8)

  unfoldable pub qrcode_fetch_body : Engine → PacketWriter
  qrcode_fetch_body e = do
    put_u16 0
    put_u32 16
    put_u64 0
    put_u8 8
    write_short_lv (put_slice [])
    put_u16 ((qrcode_fetch_entries e).count % 2 ^ 16)
    (qrcode_fetch_entries e).writer

  unfoldable pub build_qrcode_fetch_request_packet : Outside → Engine → Result (Packet × Engine)
  build_qrcode_fetch_request_packet out e = trans_emp out e (
      with_written (qrcode_fetch_body e) λ body.
        with_written (build_code2d_request_packet out.as_secs 0 0 0x31 body) (code2d_body e))

  unfoldable pub qrcode_query_body : List ℕ → PacketWriter
  qrcode_query_body sig = do
    put_u16 5
    put_u8 1
    put_u32 8
    put_u32 16
    write_short_lv (put_slice sig)
    put_u64 0
    put_u8 8
    write_short_lv (put_slice [])
    put_u16 0

  unfoldable pub build_qrcode_result_query_request_packet :
      Outside → List ℕ → Engine → Result (Packet × Engine)
  build_qrcode_result_query_request_packet out sig e = trans_emp out e (
      with_written (qrcode_query_body sig) λ body.
        with_written (build_code2d_request_packet out.as_secs 1 0 0x12 body) (code2d_body e))

  unfoldable pub qrcode_login_entries : Outside → List ℕ → List ℕ → List ℕ → Engine → CounterWriter
  qrcode_login_entries out tmp_pwd tmp_no_pic_sig tgt_qr e =
      let sig = e.transport.sig in
      let version = e.transport.version in
      let device = e.transport.device in
      counter_default
      ▸ t18 16 (as_bits 32 e.uin)
      ▸ t1 (out.random 0) out.as_secs (as_bits 32 e.uin) device.ip_address
      ▸ tlv 0x106 (put_slice tmp_pwd)
      ▸ t116 version.misc_bitmap version.sub_sig_map
      ▸ t100 version.sso_version version.sub_app_id version.main_sig_map
      ▸ t107 0
      ▸ t142 version.apk_id
      ▸ t144 out.md5 (out.filling 0) device.imei (out.gen_pb_data device) device.os_type
          device.version.release device.sim_info device.apn false true false guid_flag device.model
          sig.guid device.brand sig.tgtgt_key
      ▸ t145 sig.guid
      ▸ t147 16 version.sort_version_name version.apk_sign
      ▸ t16a tmp_no_pic_sig
      ▸ t154 (next_seq e).0
      ▸ t141 device.sim_info device.apn
      ▸ t8 2052
      ▸ t511 domains
      ▸ t187 out.md5 device.mac_address
      ▸ t188 out.md5 device.android_id
      ▸? (if ltb 0 (length device.imsi_md5) then some (t194 device.imsi_md5) else none)
      ▸ t191 0x00
      ▸? (if ltb 0 (length device.wifi_bssid) && ltb 0 (length device.wifi_ssid)
          then some (t202 device.wifi_bssid device.wifi_ssid)
          else none)
      ▸ t177 version.build_time version.sdk_version
      ▸ t516
      ▸ t521 8
      ▸ t318 tgt_qr

  unfoldable pub build_qrcode_login_packet :
      Outside → List ℕ → List ℕ → List ℕ → Engine → Result (Packet × Engine)
  build_qrcode_login_packet out tmp_pwd tmp_no_pic_sig tgt_qr e =
      packet_of login (codes "wtlogin.login") e.uin e (
        build_oicq_request_packet out e e.uin 0x0810
          (write_entries 9 (qrcode_login_entries out tmp_pwd tmp_no_pic_sig tgt_qr e)))
