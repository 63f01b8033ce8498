-- ===== src/Runs/Transport.antt =====
-- Runs of the model of ricq-core/src/protocol/transport.rs.
use ricq.Base.{
  ℕ, ◌∙◌, ap, inl, same_bytes, length-append, All-append, replicate, ◌^◌, ◌≡◌, refl, arith, List,
  [], ◌∷◌, ◌++◌, none, ◌<◌, length,
}
use ricq.Base.Int.{pos}
use ricq.Wire.BigEndian.{big_endian}
use ricq.Result.{Result, ok, err, and_then, codes, session_expired}
use ricq.Utf8.{IsAscii-IsText}
use ricq.Protocol.Packet.{Packet, packet_default, simple, d2_key, no_encrypt, empty_key}
use ricq.Protocol.Transport.{Transport}
use ricq.Protocol.Transport.Encode.{encode_packet}
use ricq.Protocol.Transport.Encoded.{
  head_bytes, frame_bytes, sso_head_bytes, Sealed, encode_packet-Sealed,
}
use ricq.Protocol.Transport.Frame.{SsoFrame, IsSsoFrame, sso_frame}
use ricq.Protocol.Transport.Decode.{decode_packet, expired_code}
use ricq.Protocol.Transport.Decoded.{server_head, decode_packet-server_frame}
use ricq.Protocol.Transport.Refused.{decode_packet-refused}
use ricq.Runs.Crypto.{filling_220, filling_220-IsFilling, hello, hello-IsBytes, sevens}
use ricq.Runs.Codec.{codec_of_sevens}
use ricq.Crypto.QqTea.{qqtea_encrypt, qqtea_decrypt}
use ricq.Crypto.QqTea.RoundTrip.{qqtea_decrypt-qqtea_encrypt, qqtea_encrypt_shape}
use ricq.Protocol.Oicq.{Message, ecdh}
use ricq.Protocol.Oicq.Decode as Oicq
use ricq.Protocol.Oicq.Envelope.{server_message, decode-server_message-qqtea_encrypt}
use ricq.Wire.{IsByte, IsBytes}
use ricq.Runs.Login.{some_sig, some_engine}

abbrev with_ticket : Transport
with_ticket = record some_engine.transport { sig = record some_sig { d2 = hello } }

abbrev outgoing : Packet
outgoing = record {
  packet_type = simple;
  encrypt_type = d2_key;
  seq_id = 0x3636;
  body = hello;
  command_name = codes "StatSvc.register";
  uin = pos 10001;
  message = [];
  sign = none;
}

encode_packet-Sealed_example :
    (sent : List ℕ) × (encode_packet filling_220 with_ticket outgoing
      ≡ ok (head_bytes with_ticket simple d2_key outgoing ++ sent))
    × Sealed with_ticket d2_key (frame_bytes (sso_head_bytes with_ticket outgoing) hello) sent
encode_packet-Sealed_example =
    encode_packet-Sealed filling_220 with_ticket outgoing filling_220-IsFilling (search arith)
      (λ e. refl)

abbrev answer : ℕ → SsoFrame
answer ret_code = record {
  seq_id = 0x3636;
  ret_code = ret_code;
  message = [];
  command_name = codes "StatSvc.register";
  session_id = 1 ∷ 2 ∷ 3 ∷ 4 ∷ [];
  compress_flag = 0;
  body = hello;
}

answer-IsSsoFrame : (ret_code : ℕ) → ret_code < 2 ^ 32 → IsSsoFrame (answer ret_code)
answer-IsSsoFrame ret_code h = record {
  seq_fits = omega arith;
  ret_fits = h;
  flag_fits = omega arith;
  message_fits = omega arith;
  command_fits = omega arith;
  session_fits = omega arith;
  head_fits = omega arith;
  body_fits = omega arith;
  message_text = IsAscii-IsText [] tt;
  command_text = IsAscii-IsText (codes "StatSvc.register") (search arith);
}

-- An envelope of the server around a body.
opened :
    (cipher_text : List ℕ) × (qqtea_encrypt filling_220 hello sevens ≡ ok cipher_text)
    × (Oicq.decode codec_of_sevens (server_message 9 8001 0x810 10001 0 cipher_text)
        ≡ ok (
          record { uin = 10001; command = 0x810; body = hello; encryption_method = ecdh },
          3 ∷ [],
        ))
opened =
    decode-server_message-qqtea_encrypt codec_of_sevens filling_220 hello sevens 9 8001 0x810 10001
      0 filling_220-IsFilling hello-IsBytes (omega arith) (omega arith) (omega arith) refl
      (inl (refl, refl))

opened-shape : (length opened.0 ≡ 16) × IsBytes opened.0
opened-shape = qqtea_encrypt_shape filling_220 hello sevens opened.0 filling_220-IsFilling opened.1

abbrev enveloped : SsoFrame
enveloped = record (answer 0) { body = server_message 9 8001 0x810 10001 0 opened.0 }

enveloped-IsSsoFrame : IsSsoFrame enveloped
enveloped-IsSsoFrame =
    let plain = answer-IsSsoFrame 0 (omega arith) in
    record {
      seq_fits = plain.seq_fits;
      ret_fits = plain.ret_fits;
      flag_fits = plain.flag_fits;
      message_fits = plain.message_fits;
      command_fits = plain.command_fits;
      session_fits = plain.session_fits;
      head_fits = plain.head_fits;
      message_text = plain.message_text;
      command_text = plain.command_text;
      body_fits = omega (arith, length-append opened.0 (3 ∷ []), opened-shape.0);
    }

sealed_frame :
    (sent : List ℕ) × (qqtea_encrypt filling_220 (sso_frame enveloped) (replicate 16 0) ≡ ok sent)
    × (qqtea_decrypt sent (replicate 16 0) ≡ ok (sso_frame enveloped))
sealed_frame =
    qqtea_decrypt-qqtea_encrypt filling_220 (sso_frame enveloped) (replicate 16 0)
      filling_220-IsFilling (search (arith, All-append IsByte, opened-shape)) refl

abbrev with_body : Message × List ℕ → Result Packet
with_body m = ok (record packet_default {
  encrypt_type = empty_key;
  seq_id = 0x3636;
  body = m.0.body;
  command_name = codes "StatSvc.register";
  uin = pos 10001;
})

decode_packet-server_frame_example :
    decode_packet ok with_ticket (server_head simple empty_key 0 (pos 10001) ++ sealed_frame.0)
    ≡ ok (record packet_default {
      encrypt_type = empty_key;
      seq_id = 0x3636;
      body = hello;
      command_name = codes "StatSvc.register";
      uin = pos 10001;
    })
unfolding same_bytes packet_default
decode_packet-server_frame_example =
    decode_packet-server_frame ok with_ticket simple empty_key 0 (pos 10001) enveloped
      sealed_frame.0 (omega arith) enveloped-IsSsoFrame refl sealed_frame.2
    ∙ ap (λ r. and_then r with_body) opened.2

decode_packet-refused_example :
    decode_packet ok with_ticket
      (server_head simple no_encrypt 0 (pos 10001) ++ sso_frame (answer expired_code))
    ≡ err session_expired
decode_packet-refused_example =
    decode_packet-refused ok with_ticket simple no_encrypt 0 (pos 10001) (answer expired_code)
      (sso_frame (answer expired_code)) (omega arith) (answer-IsSsoFrame expired_code (omega arith))
      (λ e. omega (arith, e)) refl
