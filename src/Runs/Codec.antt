-- ===== src/Runs/Codec.antt =====
-- Runs of the models of ricq-core/src/protocol/oicq.rs and of ricq/src/client/highway/codec.rs.
use ricq.Base.{ℕ, ◌%◌, ◌^◌, ◌≡◌, refl, arith, inl, List, [], ◌∷◌, ◌++◌, length}
use ricq.Wire.BigEndian.{big_endian}
use ricq.Result.{ok}
use ricq.Crypto.QqTea.{qqtea_encrypt, qqtea_decrypt}
use ricq.Protocol.Oicq.{Message, Codec, ecdh, st}
use ricq.Protocol.Oicq.Decode as Oicq
use ricq.Protocol.Oicq.Encode as Envelope
use ricq.Protocol.Oicq.Envelope.{server_message, decode-server_message-qqtea_encrypt}
use ricq.Protocol.Oicq.Opened.{client_message, encode-client_message}
use ricq.Highway.{HighwayFrame}
use ricq.Highway.Encode.{encode}
use ricq.Highway.Decode.{decode}
use ricq.Highway.Frames.{decode-encode, decode_drops_header}
use ricq.Base.{none, some}
use ricq.Runs.Crypto.{filling_220, filling_220-IsFilling, sevens, hello, hello-IsBytes}

abbrev pub codec_of_sevens : Codec
codec_of_sevens = record {
  ecdh_keys = record { initial_share_key = sevens; public_key = hello; public_key_ver = 1 };
  random_key = sevens;
  wt_session_ticket_key = [];
}

abbrev logged : Message
logged = record { uin = 10001; command = 0x810; body = hello; encryption_method = st }

encode-client_message_example :
    (cipher_text : List ℕ) × (Envelope.encode filling_220 codec_of_sevens logged
      ≡ ok (
          client_message
            (length (client_message 0 codec_of_sevens logged cipher_text) % 2 ^ 16)
            codec_of_sevens
            logged
            cipher_text))
    × (qqtea_decrypt cipher_text sevens ≡ ok hello)
encode-client_message_example =
    encode-client_message filling_220 codec_of_sevens logged filling_220-IsFilling hello-IsBytes
      refl

decode-server_message-qqtea_encrypt_example :
    (cipher_text : List ℕ) × (qqtea_encrypt filling_220 hello sevens ≡ ok cipher_text)
    × (Oicq.decode codec_of_sevens (server_message 9 8001 0x810 10001 0 cipher_text)
        ≡ ok (
          record { uin = 10001; command = 0x810; body = hello; encryption_method = ecdh },
          3 ∷ [],
        ))
decode-server_message-qqtea_encrypt_example =
    decode-server_message-qqtea_encrypt codec_of_sevens filling_220 hello sevens 9 8001 0x810 10001
      0 filling_220-IsFilling hello-IsBytes (omega arith) (omega arith) (omega arith) refl
      (inl (refl, refl))

abbrev frame : HighwayFrame
frame = record { head = 1 ∷ 2 ∷ []; body = hello }

decode-encode_example :
    (bytes : List ℕ) × ((buf : List ℕ) → encode frame buf ≡ ok (buf ++ bytes))
    × ((rest : List ℕ) → decode (bytes ++ rest) ≡ ok (some frame, rest))
decode-encode_example =
    decode-encode frame (record { head_fits = omega arith; body_fits = omega arith })

decode_drops_header_example :
    (start : List ℕ) × (length start ≡ 9)
    × (encode frame [] ≡ ok (start ++ ((1 ∷ []) ++ (2 ∷ hello ++ (41 ∷ [])))))
    × (decode (start ++ (1 ∷ [])) ≡ ok (none, 1 ∷ []))
decode_drops_header_example =
    decode_drops_header frame (1 ∷ []) (2 ∷ hello ++ (41 ∷ []))
      (record { head_fits = omega arith; body_fits = omega arith }) refl (omega arith) (omega arith)
