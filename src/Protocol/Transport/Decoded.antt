-- ===== src/Protocol/Transport/Decoded.antt =====
-- What `decode_packet` gives for a packet that a server wrote: a head in the clear with the kinds and
-- the account, and behind it a frame, as it is or encrypted.
use ricq.Base.{ℕ, ◌≡◌, refl, arith, List, ◌∷◌, ◌++◌, append_assoc, Bool, true, false}
use ricq.Base.{if◌then◌else◌, ◌==◌, same_bytes, ap, inl, inr}
use ricq.Base.Decimal.{to_string}
use ricq.Base.Decimal.RoundTrip.{InRange, parse-to_string, to_string_text}
use ricq.Base.Int.{ℤ}
use ricq.Wire.{Wire}
use ricq.Utf8.{IsAscii-IsText}
use ricq.Result.{Result, Result-cases, ok, err, panic, and_then, map_ok}
use ricq.Binary.Reader.{get_u8, go_on}
use ricq.Binary.Reader.ReadBack.{get_be-append, read_string-append}
use ricq.Protocol.Oicq.{Codec}
use ricq.Protocol.Oicq.Decode as Oicq
use ricq.Protocol.Packet.{
  PacketType, EncryptType, no_encrypt, d2_key, empty_key, packet_type_value, encrypt_type_value,
  packet_default, Packet,
}
use ricq.Protocol.Packet.Numbers.{
  packet_type_from-packet_type_value, encrypt_type_from-encrypt_type_value, packet_type_fits,
}
use ricq.Protocol.Transport.{Transport}
use ricq.Protocol.Transport.Encoded.{Sealed}
use ricq.Protocol.Transport.Frame.{
  SsoFrame, IsSsoFrame, heartbeat, text, sso_frame, session_bytes, filled, read_sso_head-sso_head,
  decode_sso_frame-sso_frame, read_session-session_bytes, read_sso_body-text,
}
use ricq.Protocol.Transport.Decode.{
  check_ret_code, default_uin, read_session, read_sso_body, decode_sso_frame, decrypt_body,
  open_envelope, read_packet_head, decode_packet,
}

module _ ⦃w : Wire⦄ where
  -- The head in the clear; the byte before the account is not looked at.
  abbrev pub server_head : PacketType → EncryptType → ℕ → ℤ → List ℕ
  server_head packet_type encrypt_type z uin =
      w.be 4 (packet_type_value packet_type)
      ++ (encrypt_type_value encrypt_type ∷ z ∷ text (to_string uin))

  -- The packet with what its head in the clear says.
  abbrev pub addressed : PacketType → EncryptType → ℤ → Packet
  addressed packet_type encrypt_type uin = record packet_default {
    packet_type = packet_type;
    encrypt_type = encrypt_type;
    uin = uin;
  }

  -- What is made of the body of a frame; that of a heartbeat is left out.
  abbrev pub opened_body : (List ℕ → Result (List ℕ)) → SsoFrame → Bool → Packet → Result Packet
  opened_body inflate f true pkt = ok pkt
  opened_body inflate f false pkt =
      map_ok (λ b. record pkt { body = b })
        (if f.compress_flag == 1 then inflate f.body else ok f.body)

  read_packet_head-server_head :
      (kind : PacketType) (enc : EncryptType) (z : ℕ) (uin : ℤ) (sent : List ℕ)
      → InRange uin
      → read_packet_head (server_head kind enc z uin ++ sent) ≡ ok (addressed kind enc uin, sent)
  unfolding read_packet_head get_u8 default_uin
  read_packet_head-server_head kind enc z uin sent h =
      let (ascii, short) = to_string_text uin in
      let rest = encrypt_type_value enc ∷ z ∷ text (to_string uin) in
      rw (
        append_assoc (w.be 4 (packet_type_value kind)) rest sent,
        get_be-append 4 (packet_type_value kind) (rest ++ sent),
        packet_type_fits kind,
        packet_type_from-packet_type_value.0 kind,
        encrypt_type_from-encrypt_type_value.0 enc,
        read_string-append (to_string uin) sent (omega (arith, short))
            (IsAscii-IsText (to_string uin) ascii),
        parse-to_string uin h,
      )

  decrypt_body-Sealed :
      (t : Transport) (enc : EncryptType) (frame sent : List ℕ)
      → Sealed t enc frame sent
      → decrypt_body t enc sent ≡ ok frame
  unfolding decrypt_body
  decrypt_body-Sealed t no_encrypt frame sent h = ap ok h
  decrypt_body-Sealed t d2_key frame sent h = h
  decrypt_body-Sealed t empty_key frame sent h = h

  session_and_body :
      (inflate : List ℕ → Result (List ℕ)) (f : SsoFrame) (pkt : Packet) (alive : Bool)
      → IsSsoFrame f
      → map_ok
          (λ q. q.0)
          (go_on
            (map_ok (λ p. (p.0, text f.body)) (read_session alive pkt (session_bytes f)))
            (read_sso_body inflate))
        ≡ opened_body inflate f alive pkt
  unfolding read_session read_sso_body
  session_and_body inflate f pkt true h = refl
  session_and_body inflate f pkt false h =
      rw
        (
          read_session-session_bytes f pkt h,
          read_sso_body-text inflate pkt f.compress_flag f.body h.body_fits,
        )
        (elim (Result-cases (if f.compress_flag == 1 then inflate f.body else ok f.body)) [
          | inl (b, e) ↦ rw e
          | inr (inl (x, e)) ↦ rw e
          | inr (inr e) ↦ rw e
        ])

  -- A frame whose code is zero, a heartbeat or not.
  frame_read :
      (inflate : List ℕ → Result (List ℕ)) (f : SsoFrame) (pkt : Packet) (alive : Bool)
      → IsSsoFrame f
      → f.ret_code ≡ 0
      → same_bytes f.command_name heartbeat ≡ alive
      → map_ok (λ q. q.0) (decode_sso_frame inflate pkt (sso_frame f))
        ≡ opened_body inflate f alive (filled f pkt)
  unfolding check_ret_code
  frame_read inflate f pkt alive h zero_code e =
      rw
        (
          decode_sso_frame-sso_frame inflate f pkt h,
          read_sso_head-sso_head f pkt h,
          ap check_ret_code zero_code,
          e,
        )
        (session_and_body inflate f (filled f pkt) alive h)

  and_then-front :
      {A B : Type 0} (r : Result (A × List ℕ)) (g : A → Result B)
      → and_then r (λ q. g q.0) ≡ and_then (map_ok (λ q. q.0) r) g
  and_then-front (ok q) g = refl
  and_then-front (err e) g = refl
  and_then-front panic g = refl

  -- The decoder behind the head in the clear.
  pub decode_packet-server_head :
      (inflate : List ℕ → Result (List ℕ)) (t : Transport) (kind : PacketType) (enc : EncryptType)
      (z : ℕ) (uin : ℤ) (frame sent : List ℕ)
      → InRange uin
      → Sealed t enc frame sent
      → decode_packet inflate t (server_head kind enc z uin ++ sent)
        ≡ and_then
            (map_ok (λ q. q.0) (decode_sso_frame inflate (addressed kind enc uin) frame))
            (open_envelope t.oicq_codec enc)
  unfolding decode_packet
  decode_packet-server_head inflate t kind enc z uin frame sent h s =
      rw
        (read_packet_head-server_head kind enc z uin sent h, decrypt_body-Sealed t enc frame sent s)
        (and_then-front (decode_sso_frame inflate (addressed kind enc uin) frame)
          (open_envelope t.oicq_codec enc))

  -- What a packet holds: under the empty key its body is an envelope, whose message is the body then.
  abbrev pub unsealed : Codec → EncryptType → Packet → Result Packet
  unsealed codec no_encrypt pkt = ok pkt
  unsealed codec d2_key pkt = ok pkt
  unsealed codec empty_key pkt =
      and_then (Oicq.decode codec pkt.body) λ (m, rest). ok (record pkt { body = m.body })

  open_envelope-unsealed :
      (codec : Codec) (enc : EncryptType) (pkt : Packet)
      → open_envelope codec enc pkt ≡ unsealed codec enc pkt
  unfolding open_envelope
  open_envelope-unsealed codec no_encrypt pkt = refl
  open_envelope-unsealed codec d2_key pkt = refl
  open_envelope-unsealed codec empty_key pkt = elim (Result-cases (Oicq.decode codec pkt.body)) [
    | inl (m, e) ↦ rw e
    | inr (inl (x, e)) ↦ rw e
    | inr (inr e) ↦ rw e
  ]

  -- A packet of a server, its account in the range of an `i64`, its frame well formed with the code
  -- zero, and sent as it is, under the `d2key` or under sixteen zeros as its kind of encryption says,
  -- is decoded to the packet with the kinds and the account of the head, and the number, the message,
  -- the command and the body of the frame. The body is inflated if its flag is one, left out for a
  -- heartbeat, and for the empty key what the envelope in it holds; an error of one of these is the
  -- result.
  pub decode_packet-server_frame :
      (inflate : List ℕ → Result (List ℕ)) (t : Transport) (kind : PacketType) (enc : EncryptType)
      (z : ℕ) (uin : ℤ) (f : SsoFrame) (sent : List ℕ)
      → InRange uin
      → IsSsoFrame f
      → f.ret_code ≡ 0
      → Sealed t enc (sso_frame f) sent
      → decode_packet inflate t (server_head kind enc z uin ++ sent)
        ≡ and_then
            (opened_body inflate f
              (same_bytes f.command_name heartbeat)
              (filled f (addressed kind enc uin)))
            (unsealed t.oicq_codec enc)
  decode_packet-server_frame inflate t kind enc z uin f sent h g zero_code s =
      rw
        (
          decode_packet-server_head inflate t kind enc z uin (sso_frame f) sent h s,
          frame_read inflate f (addressed kind enc uin) (same_bytes f.command_name heartbeat) g
              zero_code refl,
        )
        (λ i.
          and_then
            (opened_body inflate f (same_bytes f.command_name heartbeat)
              (filled f (addressed kind enc uin)))
            (λ pkt. open_envelope-unsealed t.oicq_codec enc pkt i))
