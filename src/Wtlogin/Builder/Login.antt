-- ===== src/Wtlogin/Builder/Login.antt =====
-- builder.rs: the packet of a login with a password.
use ricq.Base.{ℕ, ◌+◌, List, [], ◌∷◌, Option, none, some, Bool, true, false, if◌then◌else◌}
use ricq.Wire.{Wire}
use ricq.Result.{Result, codes}
use ricq.Binary.Writer.{CounterWriter, counter_default, ◌▸◌, ◌▸?◌, put_slice}
use ricq.Protocol.Device.{Device, Qimei}
use ricq.Protocol.Packet.{Packet, login}
use ricq.Engine.{Engine, next_seq}
use ricq.Wtlogin.TlvWriter.{tlv, guid_flag}
use ricq.Wtlogin.TlvWriter.Early.{t1, t8, t18, t100, t106, t107}
use ricq.Wtlogin.TlvWriter.Middle.{t116, t141, t142, t144, t145, t147, t154}
use ricq.Wtlogin.TlvWriter.Late.{t177, t187, t188, t191, t194, t202, t516, t521, t525, t536}
use ricq.Wtlogin.TlvWriter.Domains.{t511}
use ricq.Wtlogin.Builder.{Outside, as_bits, write_entries, build_oicq_request_packet, packet_of}
use ricq.Wtlogin.Builder.Qrcode.{domains}

-- `Either`: the id of the program if there is one, and of the phone if there is none.
abbrev pub id_or_imei : Option Qimei → Device → List ℕ
id_or_imei none device = device.imei
id_or_imei (some qimei) device = qimei.q16

module _ ⦃w : Wire⦄ where
  unfoldable pub login_entries : Outside → List ℕ → List ℕ → Bool → Engine → CounterWriter
  login_entries out password_md5 sign allow_slider e =
      let sig = e.transport.sig in
      let version = e.transport.version in
      let device = e.transport.device in
      counter_default
      ▸ t18 16 (as_bits 32 e.uin)
      ▸ t1 (out.random 0) out.as_secs (as_bits 32 e.uin) device.ip_address
      ▸ t106 out.md5 (out.filling 0) (λ n. out.random (1 + n)) out.as_secs (as_bits 32 e.uin) 0
          version.app_id version.sso_version password_md5 true sig.guid sig.tgtgt_key 0
      ▸ t116 version.misc_bitmap version.sub_sig_map
      ▸ t100 version.sso_version version.sub_app_id version.main_sig_map
      ▸ t107 0
      ▸ t142 version.apk_id
      ▸ t144 out.md5 (out.filling 1) device.imei (out.gen_pb_data device) device.os_type
          device.version.release device.sim_info device.apn false true false guid_flag device.model
          sig.guid device.brand sig.tgtgt_key
      ▸ t145 sig.guid
      ▸ t147 16 version.sort_version_name version.apk_sign
      ▸ t154 (next_seq e).0
      ▸ t141 device.sim_info device.apn
      ▸ t8 2052
      ▸ t511 domains
      ▸ t187 out.md5 device.mac_address
      ▸ t188 out.md5 device.android_id
      ▸ t194 device.imsi_md5
      ▸? (if allow_slider then some (t191 0x82) else none)
      ▸ t202 device.wifi_bssid device.wifi_ssid
      ▸ t177 version.build_time version.sdk_version
      ▸ t516
      ▸ t521 0
      ▸ t525 (t536 (0x01 ∷ 0x00 ∷ []))
      ▸ tlv 0x544 (put_slice sign)
      ▸ tlv 0x545 (put_slice (id_or_imei device.qimei device))

  unfoldable pub build_login_packet :
      Outside → List ℕ → List ℕ → Bool → Engine → Result (Packet × Engine)
  build_login_packet out password_md5 sign allow_slider e =
      packet_of login (codes "wtlogin.login") e.uin e (
        build_oicq_request_packet out e e.uin 0x0810
          (write_entries 9 (login_entries out password_md5 sign allow_slider e)))
