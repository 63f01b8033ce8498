-- ===== src/Protocol/Transport/Encoded.antt =====
-- What `encode_packet` of ricq-core/src/protocol/transport.rs puts on the wire.
use ricq.Base.{ℕ, ◌+◌, ◌-◌, ◌%◌, ◌^◌, ◌≡◌, refl, arith, sym, ap, ◌∙◌, List, [], ◌∷◌, ◌++◌, length}
use ricq.Base.{replicate, Option, none, some, length-append, append-nil}
use ricq.Base.{◌||◌, ◌==◌, if◌then◌else◌, Bool-cases, inl, inr}
use ricq.Base.Decimal.{to_string}
use ricq.Wire.{Wire, IsBytes}
use ricq.Result.{ok}
use ricq.Crypto.QqTea.{qqtea_decrypt}
use ricq.Crypto.QqTea.RoundTrip.{IsFilling, qqtea_decrypt-qqtea_encrypt}
use ricq.Binary.Writer.{PacketWriter}
use ricq.Binary.Writer.Writes.{Writes, Writes->>, Writes-put_slice, Writes-string, overwrite_middle}
use ricq.Protocol.Device.{device_ksid}
use ricq.Protocol.Packet.{
  PacketType, simple, login, EncryptType, no_encrypt, d2_key, empty_key, packet_type_value,
  encrypt_type_value, Packet,
}
use ricq.Protocol.Transport.{Transport}
use ricq.Protocol.Transport.Encode.{
  choose_encrypt_type, write_ticket, write_head, write_tgt, write_login_head, write_login_device,
  q16_bytes, write_sign, write_sso_head, with_length, encode_body, encrypt_body, encode_packet,
}

Writes-nothing : Writes (λ buf. ok buf) []
Writes-nothing = record { onto = λ buf. ap ok (sym (append-nil buf)) }

module _ ⦃w : Wire⦄ where
  -- The bytes behind their number, which counts its own four bytes.
  abbrev pub counted : List ℕ → List ℕ
  counted bytes = w.be 4 ((length bytes % 2 ^ 32 + 4) % 2 ^ 32) ++ bytes

  abbrev pub ticket_bytes : PacketType → EncryptType → Transport → ℕ → List ℕ
  ticket_bytes simple encrypt_type t seq_id = w.be 4 seq_id
  ticket_bytes login d2_key t seq_id = counted t.sig.d2
  ticket_bytes login no_encrypt t seq_id = w.be 4 4
  ticket_bytes login empty_key t seq_id = w.be 4 4

  -- The head in the clear: the kinds, the ticket, and the account in decimals.
  abbrev pub head_bytes : Transport → PacketType → EncryptType → Packet → List ℕ
  head_bytes t packet_type encrypt_type pkt =
      w.be 4 (packet_type_value packet_type)
      ++ (encrypt_type_value encrypt_type % 2 ^ 8
          ∷ (ticket_bytes packet_type encrypt_type t pkt.seq_id
              ++ (0 ∷ (w.be 4 ((length (to_string pkt.uin) + 4) % 2 ^ 32) ++ to_string pkt.uin))))

  -- The frame: its head behind the number of all bytes of the head, and the counted body.
  abbrev pub frame_bytes : List ℕ → List ℕ → List ℕ
  frame_bytes sso_head body = (w.be 4 ((length sso_head + 4) % 2 ^ 32) ++ sso_head) ++ counted body

  abbrev pub tgt_bytes : List ℕ → List ℕ
  tgt_bytes tgt = if length tgt == 0 || length tgt == 4 then w.be 4 4 else counted tgt

  abbrev pub login_head_bytes : PacketType → Transport → ℕ → List ℕ
  login_head_bytes simple t seq_id = []
  login_head_bytes login t seq_id =
      w.be 4 seq_id
      ++ (w.be 4 t.version.app_id
          ++ (w.be 4 t.version.sub_app_id
              ++ ((1 ∷ 0 ∷ 0 ∷ 0 ∷ 0 ∷ 0 ∷ 0 ∷ 0 ∷ 0 ∷ 0 ∷ 1 ∷ 0 ∷ []) ++ tgt_bytes t.sig.tgt)))

  abbrev pub login_device_bytes : PacketType → Transport → List ℕ
  login_device_bytes simple t = []
  login_device_bytes login t =
      (w.be 4 ((length t.device.imei + 4) % 2 ^ 32) ++ t.device.imei)
      ++ (w.be 4 4
          ++ (w.be 2 ((length (device_ksid t.device) % 2 ^ 16 + 2) % 2 ^ 16)
              ++ device_ksid t.device))

  abbrev pub sign_bytes : Option (List ℕ) → List ℕ
  sign_bytes none = []
  sign_bytes (some sign) = counted sign

  -- The head of the frame: what a login says of itself, the command, the session, what a login says of
  -- its device, the signature if there is one, and the id of the program.
  abbrev pub sso_head_bytes : Transport → Packet → List ℕ
  sso_head_bytes t pkt =
      login_head_bytes pkt.packet_type t pkt.seq_id
      ++ ((w.be 4 ((length pkt.command_name + 4) % 2 ^ 32) ++ pkt.command_name)
          ++ (counted t.sig.out_packet_session_id
              ++ (login_device_bytes pkt.packet_type t
                  ++ (sign_bytes pkt.sign
                      ++ (w.be 4 ((4 + length (q16_bytes t.device.qimei) % 2 ^ 32) % 2 ^ 32)
                          ++ q16_bytes t.device.qimei)))))

  Writes-ticket :
      (packet_type : PacketType) (encrypt_type : EncryptType) (t : Transport) (seq_id : ℕ)
      → Writes
          (write_ticket packet_type encrypt_type t seq_id)
          (ticket_bytes packet_type encrypt_type t seq_id)
  unfolding write_ticket
  Writes-ticket simple encrypt_type t seq_id = Writes-put_slice _
  Writes-ticket login d2_key t seq_id = Writes->> (Writes-put_slice _) (Writes-put_slice _)
  Writes-ticket login no_encrypt t seq_id = Writes-put_slice _
  Writes-ticket login empty_key t seq_id = Writes-put_slice _

  Writes-head :
      (t : Transport) (pkt : Packet)
      → Writes (write_head t pkt) (head_bytes t pkt.packet_type pkt.encrypt_type pkt)
  unfolding write_head
  Writes-head t pkt =
      let put = Writes-put_slice in
      Writes->> (put _) (
        Writes->> (put _) (
          Writes->> (Writes-ticket pkt.packet_type pkt.encrypt_type t pkt.seq_id)
            (Writes->> (put _) (Writes-string _))))

  -- The patch lands on the four bytes that were kept for the length, and counts them.
  Writes-with_length :
      {head : PacketWriter} {bytes : List ℕ}
      → Writes head bytes
      → Writes (with_length head) (w.be 4 ((length bytes + 4) % 2 ^ 32) ++ bytes)
  unfolding with_length
  Writes-with_length {bytes = bytes} h = record {
    onto = λ buf.
        let grown : length ((buf ++ w.be 4 0) ++ bytes) - length buf ≡ length bytes + 4 = omega (
          arith,
          length-append (buf ++ w.be 4 0) bytes,
          length-append buf (w.be 4 0),
          w.length-be 4 0,
        ) in
        let len = w.be 4 ((length bytes + 4) % 2 ^ 32) in
        rw (h.onto (buf ++ w.be 4 0), grown)
          (ap ok (
            overwrite_middle buf (w.be 4 0) len bytes
              (w.length-be 4 0 ∙ sym (w.length-be 4 ((length bytes + 4) % 2 ^ 32)))));
  }

  Writes-tgt : (tgt : List ℕ) → Writes (write_tgt tgt) (tgt_bytes tgt)
  unfolding write_tgt
  Writes-tgt tgt = elim (Bool-cases (length tgt == 0 || length tgt == 4)) [
    | inl e ↦ rw e (Writes-put_slice _)
    | inr e ↦ rw e (Writes->> (Writes-put_slice _) (Writes-put_slice _))
  ]

  Writes-login_head :
      (packet_type : PacketType) (t : Transport) (seq_id : ℕ)
      → Writes (write_login_head packet_type t seq_id) (login_head_bytes packet_type t seq_id)
  unfolding write_login_head
  Writes-login_head simple t seq_id = Writes-nothing
  Writes-login_head login t seq_id =
      let put = Writes-put_slice in
      Writes->> (put _) (Writes->> (put _) (Writes->> (put _) (Writes->> (put _) (Writes-tgt _))))

  Writes-login_device :
      (packet_type : PacketType) (t : Transport)
      → Writes (write_login_device packet_type t) (login_device_bytes packet_type t)
  unfolding write_login_device
  Writes-login_device simple t = Writes-nothing
  Writes-login_device login t =
      let put = Writes-put_slice in
      Writes->> (Writes-string _) (Writes->> (put _) (Writes->> (put _) (put _)))

  Writes-sign : (sign : Option (List ℕ)) → Writes (write_sign sign) (sign_bytes sign)
  unfolding write_sign
  Writes-sign none = Writes-nothing
  Writes-sign (some sign) = Writes->> (Writes-put_slice _) (Writes-put_slice _)

  Writes-sso_head :
      (t : Transport) (pkt : Packet) → Writes (write_sso_head t pkt) (sso_head_bytes t pkt)
  unfolding write_sso_head
  Writes-sso_head t pkt =
      let put = Writes-put_slice in
      Writes->> (Writes-login_head pkt.packet_type t pkt.seq_id) (
        Writes->> (Writes-string _) (
          Writes->> (Writes->> (put _) (put _)) (
            Writes->> (Writes-login_device pkt.packet_type t)
              (Writes->> (Writes-sign pkt.sign) (Writes->> (put _) (put _))))))

  Writes-encode_body :
      (t : Transport) (pkt : Packet)
      → Writes (encode_body t pkt) (frame_bytes (sso_head_bytes t pkt) pkt.body)
  unfolding encode_body
  Writes-encode_body t pkt =
      Writes->> (Writes-with_length (Writes-sso_head t pkt))
        (Writes->> (Writes-put_slice _) (Writes-put_slice _))

  -- What stands behind the head in the clear, where it decrypts to the frame.
  abbrev pub Sealed : Transport → EncryptType → List ℕ → List ℕ → Type 0
  Sealed t no_encrypt frame sent = sent ≡ frame
  Sealed t d2_key frame sent = qqtea_decrypt sent t.sig.d2key ≡ ok frame
  Sealed t empty_key frame sent = qqtea_decrypt sent (replicate 16 0) ≡ ok frame

  encrypt_body-Sealed :
      (filling : ℕ → List ℕ) (t : Transport) (encrypt_type : EncryptType) (frame : List ℕ)
      → IsFilling filling
      → IsBytes frame
      → (encrypt_type ≡ d2_key → length t.sig.d2key ≡ 16)
      → (sent : List ℕ) × (encrypt_body filling t encrypt_type frame ≡ ok sent)
        × Sealed t encrypt_type frame sent
  unfolding encrypt_body
  encrypt_body-Sealed filling t no_encrypt frame f h k = (frame, refl, refl)
  encrypt_body-Sealed filling t d2_key frame f h k =
      qqtea_decrypt-qqtea_encrypt filling frame t.sig.d2key f h (k refl)
  encrypt_body-Sealed filling t empty_key frame f h k =
      qqtea_decrypt-qqtea_encrypt filling frame (replicate 16 0) f h refl

  -- The kind of encryption of a packet: without a `d2` it is the empty key.
  abbrev pub kind_of : List ℕ → EncryptType → EncryptType
  kind_of [] asked = empty_key
  kind_of (b ∷ d2) asked = asked

  choose_encrypt_type-kind_of :
      (d2 : List ℕ) (asked : EncryptType) → choose_encrypt_type d2 asked ≡ kind_of d2 asked
  unfolding choose_encrypt_type
  choose_encrypt_type-kind_of [] asked = refl
  choose_encrypt_type-kind_of (b ∷ d2) asked = refl

  -- For every filling of the padding and every packet whose frame is bytes, and a `d2key` of
  -- sixteen bytes where it is the key that is chosen, `encode_packet` returns the head in the clear
  -- (the kind of the packet, the kind of the encryption, which is the empty key whenever there is
  -- no `d2`, the ticket and the account) and behind it bytes that are the frame, or that decrypt to
  -- the frame with the `d2key` or with sixteen zeros, as the kind says. The frame has its head
  -- behind the number of the head's bytes, those of the number included, and then the body of the
  -- packet behind its number of bytes.
  pub encode_packet-Sealed :
      (filling : ℕ → List ℕ) (t : Transport) (pkt : Packet)
      → IsFilling filling
      → IsBytes (frame_bytes (sso_head_bytes t pkt) pkt.body)
      → (kind_of t.sig.d2 pkt.encrypt_type ≡ d2_key → length t.sig.d2key ≡ 16)
      → (sent : List ℕ) × (encode_packet filling t pkt
          ≡ ok (head_bytes t pkt.packet_type (kind_of t.sig.d2 pkt.encrypt_type) pkt ++ sent))
        × Sealed t
            (kind_of t.sig.d2 pkt.encrypt_type)
            (frame_bytes (sso_head_bytes t pkt) pkt.body)
            sent
  unfolding encode_packet
  encode_packet-Sealed filling t p f h k =
      let kind = kind_of t.sig.d2 p.encrypt_type in
      let pkt = record p { encrypt_type = kind } in
      let (sent, e, s) =
        encrypt_body-Sealed filling t kind (frame_bytes (sso_head_bytes t p) p.body) f h k in
      (
        sent,
        rw (
          choose_encrypt_type-kind_of t.sig.d2 p.encrypt_type,
          (Writes-head t pkt).onto [],
          (Writes-encode_body t pkt).onto [],
          e,
        ),
        s,
      )
