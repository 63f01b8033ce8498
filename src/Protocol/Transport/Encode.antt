-- ===== src/Protocol/Transport/Encode.antt =====
-- `Transport::encode_packet` and `encode_body` of ricq-core/src/protocol/transport.rs. Sums of
-- lengths wrap, as in a release build.
use ricq.Base.{
  ℕ, ◌+◌, ◌-◌, ◌%◌, ◌^◌, List, [], ◌∷◌, ◌++◌, length, replicate, Option, none, some, ◌||◌, ◌==◌,
}
use ricq.Base.{if◌then◌else◌}
use ricq.Base.Decimal.{to_string}
use ricq.Wire.{Wire}
use ricq.Result.{Result, ok, and_then, map_ok}
use ricq.Crypto.QqTea.{qqtea_encrypt}
use ricq.Binary.Writer.{
  PacketWriter, ◌>>◌, put_slice, put_u8, put_u16, put_u32, write_string, overwrite,
}
use ricq.Protocol.Device.{Qimei, device_ksid}
use ricq.Protocol.Packet.{
  PacketType, simple, login, EncryptType, no_encrypt, d2_key, empty_key, packet_type_value,
  encrypt_type_value, Packet,
}
use ricq.Protocol.Transport.{Transport}

-- A packet without a ticket goes with the empty key.
unfoldable pub choose_encrypt_type : List ℕ → EncryptType → EncryptType
choose_encrypt_type [] chosen = empty_key
choose_encrypt_type (b ∷ d2) chosen = chosen

-- The bytes of the id of the program, or none.
abbrev pub q16_bytes : Option Qimei → List ℕ
q16_bytes none = []
q16_bytes (some qimei) = qimei.q16

module _ ⦃w : Wire⦄ where
  -- A length that counts its own four bytes, and the bytes.
  abbrev pub put_counted : List ℕ → PacketWriter
  put_counted bytes = do put_u32 ((length bytes % 2 ^ 32 + 4) % 2 ^ 32); put_slice bytes

  unfoldable pub write_ticket : PacketType → EncryptType → Transport → ℕ → PacketWriter
  write_ticket simple encrypt_type t seq_id = put_u32 seq_id
  write_ticket login d2_key t seq_id = put_counted t.sig.d2
  write_ticket login no_encrypt t seq_id = put_u32 4
  write_ticket login empty_key t seq_id = put_u32 4

  unfoldable pub write_head : Transport → Packet → PacketWriter
  write_head t pkt = do
    put_u32 (packet_type_value pkt.packet_type)
    put_u8 (encrypt_type_value pkt.encrypt_type)
    write_ticket pkt.packet_type pkt.encrypt_type t pkt.seq_id
    put_u8 0x00
    write_string (to_string pkt.uin)

  unfoldable pub write_tgt : List ℕ → PacketWriter
  write_tgt tgt = if length tgt == 0 || length tgt == 4 then put_u32 0x04 else put_counted tgt

  -- What a login packet says of itself before the name of the command.
  unfoldable pub write_login_head : PacketType → Transport → ℕ → PacketWriter
  write_login_head simple t seq_id = λ buf. ok buf
  write_login_head login t seq_id = do
    put_u32 seq_id
    put_u32 t.version.app_id
    put_u32 t.version.sub_app_id
    put_slice (0x01 ∷ (replicate 9 0x00 ++ (0x01 ∷ 0x00 ∷ [])))
    write_tgt t.sig.tgt

  -- And of its device behind the id of the session.
  unfoldable pub write_login_device : PacketType → Transport → PacketWriter
  write_login_device simple t = λ buf. ok buf
  write_login_device login t = do
    write_string t.device.imei
    put_u32 0x04
    put_u16 ((length (device_ksid t.device) % 2 ^ 16 + 2) % 2 ^ 16)
    put_slice (device_ksid t.device)

  unfoldable pub write_sign : Option (List ℕ) → PacketWriter
  write_sign none = λ buf. ok buf
  write_sign (some sign) = put_counted sign

  unfoldable pub write_sso_head : Transport → Packet → PacketWriter
  write_sso_head t pkt = do
    write_login_head pkt.packet_type t pkt.seq_id
    write_string pkt.command_name
    put_counted t.sig.out_packet_session_id
    write_login_device pkt.packet_type t
    write_sign pkt.sign
    put_u32 ((4 + length (q16_bytes t.device.qimei) % 2 ^ 32) % 2 ^ 32)
    put_slice (q16_bytes t.device.qimei)

  -- The length is written as 0 first, and patched when the head is there; it counts its own bytes.
  unfoldable pub with_length : PacketWriter → PacketWriter
  with_length head buf =
      let pos = length buf in
      map_ok (λ buf'. overwrite pos (w.be 4 ((length buf' - pos) % 2 ^ 32)) buf')
        (head (buf ++ w.be 4 0))

  unfoldable pub encode_body : Transport → Packet → PacketWriter
  encode_body t pkt = do with_length (write_sso_head t pkt); put_counted pkt.body

  -- The key that goes with the kind of encryption; without one nothing is encrypted.
  unfoldable pub encrypt_body : (ℕ → List ℕ) → Transport → EncryptType → List ℕ → Result (List ℕ)
  encrypt_body filling t no_encrypt body = ok body
  encrypt_body filling t d2_key body = qqtea_encrypt filling body t.sig.d2key
  encrypt_body filling t empty_key body = qqtea_encrypt filling body (replicate 16 0)

  unfoldable pub encode_packet : (ℕ → List ℕ) → Transport → Packet → Result (List ℕ)
  encode_packet filling t p =
      let pkt = record p { encrypt_type = choose_encrypt_type t.sig.d2 p.encrypt_type } in
      and_then (write_head t pkt []) λ head.
        and_then (encode_body t pkt [])
          λ body. map_ok (λ ed. head ++ ed) (encrypt_body filling t pkt.encrypt_type body)
