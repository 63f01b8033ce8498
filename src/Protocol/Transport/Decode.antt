-- ===== src/Protocol/Transport/Decode.antt =====
-- `Transport::decode_packet` and `decode_sso_frame` of ricq-core/src/protocol/transport.rs. What the
-- package `flate2` makes of a compressed body is the argument `inflate`.
use ricq.Base.{
  ℕ, ◌-◌, ◌^◌, List, replicate, Option, none, some, ◌&&◌, Bool, true, false, ltb, leb, ◌==◌,
}
use ricq.Base.{if◌then◌else◌, same_bytes}
use ricq.Base.Decimal.{parse}
use ricq.Base.Int.{ℤ, pos}
use ricq.Wire.{Wire}
use ricq.Result.{
  Result, ok, err, and_then, map_ok, codes, packet_dropped, session_expired, unsuccessful_ret_code,
}
use ricq.Crypto.QqTea.{qqtea_decrypt}
use ricq.Binary.Reader.{
  Reader, ◌>>=◌, ◌>>◌, pure, fail, remaining, get_u8, get_i32, copy_to_bytes, usize_sub, as_usize,
  read_string,
}
use ricq.Protocol.Oicq.{Codec}
use ricq.Protocol.Oicq.Decode as Oicq
use ricq.Protocol.Packet.{
  EncryptType, no_encrypt, d2_key, empty_key, packet_type_from, encrypt_type_from, Packet,
  packet_default,
}
use ricq.Protocol.Transport.{Transport}

-- `-10008` as the bits of an `i32`.
abbrev pub expired_code : ℕ
expired_code = 2 ^ 32 - 10008

unfoldable pub check_ret_code : ℕ → Result (Unit {0})
check_ret_code ret_code =
    if ret_code == 0
    then ok tt
    else if ret_code == expired_code
    then err session_expired
    else err (unsuccessful_ret_code ret_code)

-- A reader, or its error, goes on where another one reads.
abbrev pub lift {ℓ} : {A : Type ℓ} → Result A → Reader A
lift result r = map_ok (λ a. (a, r)) result

-- A reader of another buffer; what it leaves is dropped.
abbrev pub inside {ℓ} : {A : Type ℓ} → List ℕ → Reader A → Reader A
inside bytes reader r = map_ok (λ p. (p.0, r)) (reader bytes)

unfoldable pub default_uin : Option ℤ → ℤ
default_uin none = pos 0
default_uin (some uin) = uin

module _ ⦃w : Wire⦄ where
  -- The id of the session, which is not looked at, and the flag; a heartbeat has neither.
  unfoldable pub read_session : Bool → Packet → Reader (Packet × Option ℕ)
  read_session true pkt = pure (pkt, none)
  read_session false pkt = do
    session_id_len ← get_i32
    copy_to_bytes (usize_sub (as_usize session_id_len) 4)
    compress_flag ← get_i32
    pure (pkt, some compress_flag)

  -- The head of a frame; there is a flag unless the packet is a heartbeat.
  unfoldable pub read_sso_head : Packet → Reader (Packet × Option ℕ)
  read_sso_head pkt = do
    seq_id ← get_i32
    ret_code ← get_i32
    lift (check_ret_code ret_code)
    message ← read_string
    command_name ← read_string
    read_session (same_bytes command_name (codes "Heartbeat.Alive"))
        (record pkt { seq_id = seq_id; message = message; command_name = command_name })

  unfoldable pub read_sso_body : (List ℕ → Result (List ℕ)) → Packet × Option ℕ → Reader Packet
  read_sso_body inflate (pkt, none) = pure pkt
  read_sso_body inflate (pkt, some compress_flag) = do
    n ← get_i32
    left ← remaining
    body ← copy_to_bytes (
        if ltb 0 (usize_sub (as_usize n) 4) && leb (usize_sub (as_usize n) 4) left
        then usize_sub (as_usize n) 4
        else left)
    body' ← lift (if compress_flag == 1 then inflate body else ok body)
    pure (record pkt { body = body' })

  unfoldable pub decode_sso_frame : (List ℕ → Result (List ℕ)) → Packet → Reader Packet
  decode_sso_frame inflate pkt = do
    head_len ← get_i32
    left ← remaining
    if ltb left (usize_sub (as_usize head_len) 4) then fail packet_dropped else do
      head ← copy_to_bytes (usize_sub (as_usize head_len) 4)
      p ← inside head (read_sso_head pkt)
      read_sso_body inflate p

  unfoldable pub decrypt_body : Transport → EncryptType → List ℕ → Result (List ℕ)
  decrypt_body t no_encrypt body = ok body
  decrypt_body t d2_key body = qqtea_decrypt body t.sig.d2key
  decrypt_body t empty_key body = qqtea_decrypt body (replicate 16 0)

  -- With the empty key the body is an envelope.
  unfoldable pub open_envelope : Codec → EncryptType → Packet → Result Packet
  open_envelope codec no_encrypt pkt = ok pkt
  open_envelope codec d2_key pkt = ok pkt
  open_envelope codec empty_key pkt =
      map_ok (λ p. record pkt { body = p.0.body }) (Oicq.decode codec pkt.body)

  -- The kinds of the packet and the account.
  unfoldable pub read_packet_head : Reader Packet
  read_packet_head = do
    n ← get_i32
    packet_type ← lift (packet_type_from n)
    m ← get_u8
    encrypt_type ← lift (encrypt_type_from m)
    get_u8
    uin ← read_string
    pure (record packet_default {
      packet_type = packet_type;
      encrypt_type = encrypt_type;
      uin = default_uin (parse (2 ^ 63) uin);
    })

  unfoldable pub decode_packet : (List ℕ → Result (List ℕ)) → Transport → List ℕ → Result Packet
  decode_packet inflate t bytes = and_then (read_packet_head bytes) λ p.
      and_then (decrypt_body t p.0.encrypt_type p.1) λ body.
        and_then (decode_sso_frame inflate p.0 body)
          λ q. open_envelope t.oicq_codec p.0.encrypt_type q.0
