-- ===== src/Wtlogin/Builder/Small.antt =====
-- builder.rs: the packets of the steps between the password and the session.
use ricq.Base.{ℕ, List}
use ricq.Wire.{Wire}
use ricq.Result.{Result, codes}
use ricq.Binary.Writer.{PacketWriter, CounterWriter, counter_default, ◌▸◌, put_slice}
use ricq.Protocol.Packet.{Packet, login}
use ricq.Engine.{Engine}
use ricq.Wtlogin.TlvWriter.{tlv}
use ricq.Wtlogin.TlvWriter.Early.{t2, t8, t17a, t17c, t104}
use ricq.Wtlogin.TlvWriter.Middle.{t116}
use ricq.Wtlogin.TlvWriter.Late.{t174, t193, t197, t198, t401}
use ricq.Wtlogin.Builder.{Outside, write_entries, build_oicq_request_packet, packet_of}

module _ ⦃w : Wire⦄ where
  abbrev misc : Engine → PacketWriter
  misc e = t116 e.transport.version.misc_bitmap e.transport.version.sub_sig_map

  abbrev wtlogin_login : Outside → Engine → PacketWriter → Result (Packet × Engine)
  wtlogin_login out e body =
      packet_of login (codes "wtlogin.login") e.uin e
        (build_oicq_request_packet out e e.uin 0x810 body)

  unfoldable pub device_lock_entries : Engine → CounterWriter
  device_lock_entries e =
      counter_default ▸ t8 2052 ▸ t104 e.transport.sig.t104 ▸ misc e ▸ t401 e.transport.sig.g

  unfoldable pub build_device_lock_login_packet : Outside → Engine → Result (Packet × Engine)
  build_device_lock_login_packet out e =
      wtlogin_login out e (write_entries 20 (device_lock_entries e))

  unfoldable pub captcha_entries : List ℕ → List ℕ → Engine → CounterWriter
  captcha_entries result sign e =
      counter_default ▸ t2 result sign ▸ t8 2052 ▸ t104 e.transport.sig.t104 ▸ misc e

  unfoldable pub build_captcha_packet :
      Outside → List ℕ → List ℕ → Engine → Result (Packet × Engine)
  build_captcha_packet out result sign e =
      wtlogin_login out e (write_entries 2 (captcha_entries result sign e))

  unfoldable pub sms_request_entries : Engine → CounterWriter
  sms_request_entries e =
      counter_default
      ▸ t8 2052
      ▸ t104 e.transport.sig.t104
      ▸ misc e
      ▸ t174 e.transport.sig.t174
      ▸ t17a 9
      ▸ t197

  unfoldable pub build_sms_request_packet : Outside → Engine → Result (Packet × Engine)
  build_sms_request_packet out e = wtlogin_login out e (write_entries 8 (sms_request_entries e))

  unfoldable pub sms_code_submit_entries : List ℕ → List ℕ → Engine → CounterWriter
  sms_code_submit_entries code sign e =
      counter_default
      ▸ t8 2052
      ▸ t104 e.transport.sig.t104
      ▸ misc e
      ▸ t174 e.transport.sig.t174
      ▸ t17c code
      ▸ t401 e.transport.sig.g
      ▸ t198
      ▸ tlv 0x544 (put_slice sign)

  unfoldable pub build_sms_code_submit_packet :
      Outside → List ℕ → List ℕ → Engine → Result (Packet × Engine)
  build_sms_code_submit_packet out code sign e =
      wtlogin_login out e (write_entries 7 (sms_code_submit_entries code sign e))

  unfoldable pub ticket_submit_entries : List ℕ → List ℕ → Engine → CounterWriter
  ticket_submit_entries ticket sign e =
      counter_default
      ▸ t193 ticket
      ▸ t8 2052
      ▸ t104 e.transport.sig.t104
      ▸ misc e
      ▸ tlv 0x544 (put_slice sign)
      ▸ tlv 0x547 (put_slice e.transport.sig.t547)

  unfoldable pub build_ticket_submit_packet :
      Outside → List ℕ → List ℕ → Engine → Result (Packet × Engine)
  build_ticket_submit_packet out ticket sign e =
      wtlogin_login out e (write_entries 2 (ticket_submit_entries ticket sign e))
