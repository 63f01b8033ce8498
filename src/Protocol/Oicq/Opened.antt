-- ===== src/Protocol/Oicq/Opened.antt =====
-- What `encode` of ricq-core/src/protocol/oicq.rs writes.
use ricq.Base.{ℕ, ◌%◌, ◌^◌, ◌≡◌, ap, List, [], ◌∷◌, ◌++◌, length, drop-append}
use ricq.Wire.{Wire, IsBytes}
use ricq.Result.{ok}
use ricq.Crypto.QqTea.{qqtea_encrypt, qqtea_decrypt}
use ricq.Crypto.QqTea.RoundTrip.{IsFilling, qqtea_decrypt-qqtea_encrypt}
use ricq.Binary.Writer.{overwrite}
use ricq.Binary.Writer.Writes.{Writes, Writes->>, Writes-put_slice, Writes-encrypt}
use ricq.Protocol.Oicq.{EncryptionMethod, ecdh, st, Message, Codec}
use ricq.Protocol.Oicq.Encode.{write_encrypted, method_number, envelope, encode}

module _ ⦃w : Wire⦄ where
  -- What stands between the length and the encrypted text.
  abbrev pub front : EncryptionMethod → Codec → List ℕ → List ℕ
  front ecdh codec rest =
      2
      ∷ 1
      ∷ (codec.random_key
          ++ (w.be 2 0x0131
              ++ (w.be 2 codec.ecdh_keys.public_key_ver
                  ++ (w.be 2 (length codec.ecdh_keys.public_key % 2 ^ 16)
                      ++ (codec.ecdh_keys.public_key ++ rest)))))
  front st codec rest = 1 ∷ 3 ∷ (codec.random_key ++ (w.be 2 0x0102 ++ (w.be 2 0 ++ rest)))

  abbrev pub key_for : EncryptionMethod → Codec → List ℕ
  key_for ecdh codec = codec.ecdh_keys.initial_share_key
  key_for st codec = codec.random_key

  -- A message of the client, with its length and the encrypted text.
  abbrev pub client_message : ℕ → Codec → Message → List ℕ → List ℕ
  client_message len codec m cipher_text =
      2
      ∷ (w.be 2 len
          ++ (w.be 2 8001
              ++ (w.be 2 m.command
                  ++ (w.be 2 1
                      ++ (w.be 4 m.uin
                          ++ (3
                              ∷ method_number m.encryption_method % 2 ^ 8
                              ∷ 0
                              ∷ (w.be 4 2
                                  ++ (w.be 4 0
                                      ++ (w.be 4 0
                                          ++ (front m.encryption_method codec cipher_text
                                              ++ (3 ∷ [])))))))))))

  Writes-write_encrypted :
      (filling : ℕ → List ℕ) (codec : Codec) (method : EncryptionMethod) (body : List ℕ)
      {cipher_text : List ℕ}
      → qqtea_encrypt filling body (key_for method codec) ≡ ok cipher_text
      → Writes (write_encrypted filling codec method body) (front method codec cipher_text)
  unfolding write_encrypted
  Writes-write_encrypted filling codec ecdh body e =
      let put = Writes-put_slice in
      Writes->> (put _) (
        Writes->> (put _) (
          Writes->> (put _) (
            Writes->> (put _) (
              Writes->> (put _) (
                Writes->> (put _) (
                  Writes->> (put _)
                    (Writes-encrypt filling codec.ecdh_keys.initial_share_key body e)))))))
  Writes-write_encrypted filling codec st body e =
      let put = Writes-put_slice in
      Writes->> (put _) (
        Writes->> (put _) (
          Writes->> (put _) (
            Writes->> (put _)
              (Writes->> (put _) (Writes-encrypt filling codec.random_key body e)))))

  Writes-envelope :
      (filling : ℕ → List ℕ) (codec : Codec) (m : Message) {cipher_text : List ℕ}
      → qqtea_encrypt filling m.body (key_for m.encryption_method codec) ≡ ok cipher_text
      → Writes (envelope filling codec m) (client_message 0 codec m cipher_text)
  unfolding envelope
  Writes-envelope filling codec m e =
      let put = Writes-put_slice in
      Writes->> (put _) (
        Writes->> (put _) (
          Writes->> (put _) (
            Writes->> (put _) (
              Writes->> (put _) (
                Writes->> (put _) (
                  Writes->> (put _) (
                    Writes->> (put _) (
                      Writes->> (put _) (
                        Writes->> (put _) (
                          Writes->> (put _) (
                            Writes->> (put _) (
                              Writes->>
                                (Writes-write_encrypted filling codec m.encryption_method m.body e)
                                (put _)))))))))))))

  -- The length over the two bytes behind the first.
  overwrite_length :
      (len : ℕ) (rest : List ℕ)
      → overwrite 1 (w.be 2 len) (2 ∷ (w.be 2 0 ++ rest)) ≡ 2 ∷ (w.be 2 len ++ rest)
  overwrite_length len rest =
      rw (w.length-be 2 len)
        (ap (λ t. 2 ∷ (w.be 2 len ++ t)) (drop-append 2 (w.be 2 0) rest (w.length-be 2 0)))

  -- For every message whose body is bytes, and a codec whose key for the message's method has sixteen
  -- bytes, `encode` returns the client's message with the number of all its bytes, modulo 2 ^ 16, as its
  -- length, and with a text that `qqtea_decrypt` decrypts to the body with that key.
  pub encode-client_message :
      (filling : ℕ → List ℕ) (codec : Codec) (m : Message)
      → IsFilling filling
      → IsBytes m.body
      → length (key_for m.encryption_method codec) ≡ 16
      → (cipher_text : List ℕ) × (encode filling codec m
          ≡ ok (
              client_message
                (length (client_message 0 codec m cipher_text) % 2 ^ 16)
                codec
                m
                cipher_text))
        × (qqtea_decrypt cipher_text (key_for m.encryption_method codec) ≡ ok m.body)
  unfolding encode
  encode-client_message filling codec m f h k =
      let (cipher_text, e, d) =
        qqtea_decrypt-qqtea_encrypt filling m.body (key_for m.encryption_method codec) f h k in
      (
        cipher_text,
        rw ((Writes-envelope filling codec m e).onto [])
            (ap ok (overwrite_length (length (client_message 0 codec m cipher_text) % 2 ^ 16) _)),
        d,
      )
