-- ===== src/Wtlogin/Builder/Exchange.antt =====
-- builder.rs: the packets that renew a session.
use ricq.Base.{ℕ, [], ◌∷◌, Option, none, some, true, false}
use ricq.Wire.{Wire}
use ricq.Result.{Result, codes}
use ricq.Binary.Writer.{CounterWriter, counter_default, ◌▸◌, put_slice}
use ricq.Protocol.Oicq.{st}
use ricq.Protocol.Packet.{Packet, login, simple}
use ricq.Engine.{Engine, next_seq}
use ricq.Wtlogin.TlvWriter.{tlv, guid_flag}
use ricq.Wtlogin.TlvWriter.Early.{t1, t8, t10a, t16a, t18, t100, t107, t108}
use ricq.Wtlogin.TlvWriter.Middle.{t112, t116, t141, t142, t143, t144, t145, t147, t154}
use ricq.Wtlogin.TlvWriter.Late.{t177, t187, t188, t194, t202, t400, t516, t521, t525, t536}
use ricq.Wtlogin.TlvWriter.Domains.{t511}
use ricq.Wtlogin.Builder.{
  Outside, as_bits, write_entries, build_request, build_oicq_request_packet, packet_of,
}
use ricq.Wtlogin.Builder.Login.{id_or_imei}
use ricq.Wtlogin.Builder.Qrcode.{domains}

abbrev unwrap_or : Option ℕ → ℕ → ℕ
unwrap_or none d = d
unwrap_or (some n) d = n

module _ ⦃w : Wire⦄ where
  unfoldable pub tgtgt_no_pic_sig_entries : Outside → Engine → CounterWriter
  tgtgt_no_pic_sig_entries out e =
      let sig = e.transport.sig in
      let version = e.transport.version in
      let device = e.transport.device in
      counter_default
      ▸ t18 16 (as_bits 32 e.uin)
      ▸ t1 (out.random 0) out.as_secs (as_bits 32 e.uin) device.ip_address
      ▸ tlv 0x106 (put_slice sig.encrypted_a1)
      ▸ t116 version.misc_bitmap version.sub_sig_map
      ▸ t100 version.sso_version 2 version.main_sig_map
      ▸ t107 0
      ▸ t108 sig.ksid
      ▸ t144 out.md5 (out.filling 0) device.android_id (out.gen_pb_data device) device.os_type
          device.version.release device.sim_info device.apn false true false guid_flag device.model
          sig.guid device.brand sig.tgtgt_key
      ▸ t142 version.apk_id
      ▸ t145 sig.guid
      ▸ t16a sig.srm_token
      ▸ t154 (next_seq e).0
      ▸ t141 device.sim_info device.apn
      ▸ t8 2052
      ▸ t511 domains
      ▸ t147 16 version.sort_version_name version.apk_sign
      ▸ t177 version.build_time version.sdk_version
      ▸ t400 (out.filling 1) out.as_millis sig.g (as_bits 64 e.uin) sig.guid sig.dpwd 1 16
          sig.rand_seed
      ▸ t187 out.md5 device.mac_address
      ▸ t188 out.md5 device.android_id
      ▸ t194 device.imsi_md5
      ▸ t202 device.wifi_bssid device.wifi_ssid
      ▸ t516
      ▸ t521 0
      ▸ t525 (t536 (0x01 ∷ 0x00 ∷ []))
      ▸ tlv 0x545 (put_slice (id_or_imei device.qimei device))

  unfoldable pub build_request_tgtgt_no_pic_sig_packet : Outside → Engine → Result (Packet × Engine)
  build_request_tgtgt_no_pic_sig_packet out e =
      packet_of simple (codes "wtlogin.exchange_emp") e.uin e
        (build_request out st e e.uin 0x810 (write_entries 15 (tgtgt_no_pic_sig_entries out e)))

  unfoldable pub change_sig_entries : Outside → Option ℕ → Engine → CounterWriter
  change_sig_entries out main_sig_map e =
      let sig = e.transport.sig in
      let version = e.transport.version in
      let device = e.transport.device in
      counter_default
      ▸ t100 version.sso_version 100 (unwrap_or main_sig_map version.main_sig_map)
      ▸ t10a sig.tgt
      ▸ t116 version.misc_bitmap version.sub_sig_map
      ▸ t108 sig.ksid
      ▸ t144 out.md5 (out.filling 0) device.android_id (out.gen_pb_data device) device.os_type
          device.version.release device.sim_info device.apn false true false guid_flag device.model
          sig.guid device.brand (out.md5 sig.d2key)
      ▸ t112 e.uin
      ▸ t143 sig.d2
      ▸ t142 version.apk_id
      ▸ t154 (next_seq e).0
      ▸ t18 16 (as_bits 32 e.uin)
      ▸ t141 device.sim_info device.apn
      ▸ t8 2052
      ▸ t147 16 version.sort_version_name version.apk_sign
      ▸ t177 version.build_time version.sdk_version
      ▸ t187 out.md5 device.mac_address
      ▸ t188 out.md5 device.android_id
      ▸ t194 device.imsi_md5
      ▸ t511 domains
      ▸ t202 device.wifi_bssid device.wifi_ssid

  unfoldable pub build_request_change_sig_packet :
      Outside → Option ℕ → Engine → Result (Packet × Engine)
  build_request_change_sig_packet out main_sig_map e =
      packet_of login (codes "wtlogin.exchange_emp") e.uin e (
        build_oicq_request_packet out e e.uin 0x810
          (write_entries 11 (change_sig_entries out main_sig_map e)))
