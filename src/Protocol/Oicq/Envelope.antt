-- ===== src/Protocol/Oicq/Envelope.antt =====
-- `decode` of ricq-core/src/protocol/oicq.rs on what a server writes.
use ricq.Base.{ℕ, ◌%◌, ◌^◌, ◌<◌, ◌≡◌, refl, arith, List, [], ◌∷◌, ◌++◌, length}
use ricq.Base.{◌⊎◌, inl, inr, length-append}
use ricq.Wire.{Wire, IsBytes}
use ricq.Result.{ok}
use ricq.Crypto.QqTea.{qqtea_encrypt, qqtea_decrypt}
use ricq.Crypto.QqTea.RoundTrip.{IsFilling, qqtea_decrypt-qqtea_encrypt, qqtea_encrypt_shape}
use ricq.Binary.Reader.{usize_sub, get_u8}
use ricq.Binary.Reader.ReadBack.{get_be-append, copy_to_bytes-append}
use ricq.Protocol.Oicq.{ecdh, Codec}
use ricq.Protocol.Oicq.Decode.{decode, read_body, read_encrypted}

module _ ⦃w : Wire⦄ where
  -- A message as a server writes it: with its length, the version, the command, an account, the kind
  -- of encryption, the encrypted body and a byte at the end.
  abbrev pub server_message : ℕ → ℕ → ℕ → ℕ → ℕ → List ℕ → List ℕ
  server_message len version command uin encrypt_type cipher_text =
      2
      ∷ (w.be 2 len
          ++ (w.be 2 version
              ++ (w.be 2 command
                  ++ (w.be 2 1
                      ++ (w.be 4 uin ++ (3 ∷ encrypt_type ∷ 0 ∷ (cipher_text ++ (3 ∷ []))))))))

  read_body-append :
      (key cipher_text text : List ℕ)
      → length cipher_text < 2 ^ 64
      → qqtea_decrypt cipher_text key ≡ ok text
      → read_body key (cipher_text ++ (3 ∷ [])) ≡ ok (text, 3 ∷ [])
  unfolding read_body
  read_body-append key cipher_text text b e =
      let size : usize_sub (length (cipher_text ++ (3 ∷ []))) 1 ≡ length cipher_text =
        omega (arith, length-append cipher_text (3 ∷ [])) in
      rw (size, copy_to_bytes-append (length cipher_text) cipher_text (3 ∷ []) refl, e)

  decode-server_message :
      (codec : Codec) (len version command uin : ℕ) (cipher_text key text : List ℕ)
      (encrypt_type : ℕ)
      → command < 2 ^ 16
      → uin < 2 ^ 32
      → read_encrypted codec encrypt_type (cipher_text ++ (3 ∷ [])) ≡ ok (text, 3 ∷ [])
      → decode codec (server_message len version command uin encrypt_type cipher_text)
        ≡ ok
            (record { uin = uin; command = command; body = text; encryption_method = ecdh }, 3 ∷ [])
  unfolding decode get_u8
  decode-server_message codec len version command uin cipher_text key text encrypt_type h k e =
      let tail = 3 ∷ encrypt_type ∷ 0 ∷ (cipher_text ++ (3 ∷ [])) in
      let c : command % 256 ^ 2 ≡ command = omega arith in
      let u : uin % 256 ^ 4 ≡ uin = omega arith in
      rw (
        get_be-append 2 len
            (w.be 2 version ++ (w.be 2 command ++ (w.be 2 1 ++ (w.be 4 uin ++ tail)))),
        get_be-append 2 version (w.be 2 command ++ (w.be 2 1 ++ (w.be 4 uin ++ tail))),
        get_be-append 2 command (w.be 2 1 ++ (w.be 4 uin ++ tail)),
        get_be-append 2 1 (w.be 4 uin ++ tail),
        get_be-append 4 uin tail,
        c,
        u,
        e,
      )

  -- `decode` opens what a server writes: for every text of fewer than 2 ^ 62 bytes, encrypted with a
  -- key of sixteen bytes, it returns the message with the account, the command and the text, where
  -- the kind of encryption is 0 and the key is the shared one, or the kind is 3 and the key is that of
  -- the session ticket. It leaves the byte at the end.
  pub decode-server_message-qqtea_encrypt :
      (codec : Codec) (filling : ℕ → List ℕ) (text key : List ℕ)
      (len version command uin encrypt_type : ℕ)
      → IsFilling filling
      → IsBytes text
      → length text < 2 ^ 62
      → command < 2 ^ 16
      → uin < 2 ^ 32
      → length key ≡ 16
      → ((encrypt_type ≡ 0) × (codec.ecdh_keys.initial_share_key ≡ key))
        ⊎ ((encrypt_type ≡ 3) × (codec.wt_session_ticket_key ≡ key))
      → (cipher_text : List ℕ) × (qqtea_encrypt filling text key ≡ ok cipher_text)
        × (decode codec (server_message len version command uin encrypt_type cipher_text)
            ≡ ok (
              record { uin = uin; command = command; body = text; encryption_method = ecdh },
              3 ∷ [],
            ))
  unfolding read_encrypted
  decode-server_message-qqtea_encrypt codec filling text key len version command uin encrypt_type f
        h b c u k cases =
      let (cipher_text, e, d) = qqtea_decrypt-qqtea_encrypt filling text key f h k in
      let small : length cipher_text < 2 ^ 64 =
        omega (arith, (qqtea_encrypt_shape filling text key cipher_text f e).0) in
      let opened = read_body-append key cipher_text text small d in
      (
        cipher_text,
        e,
        decode-server_message codec len version command uin cipher_text key text encrypt_type c u
            (with_key cipher_text cases opened),
      )
    where
      with_key :
          (cipher_text : List ℕ)
          → ((encrypt_type ≡ 0) × (codec.ecdh_keys.initial_share_key ≡ key))
            ⊎ ((encrypt_type ≡ 3) × (codec.wt_session_ticket_key ≡ key))
          → read_body key (cipher_text ++ (3 ∷ [])) ≡ ok (text, 3 ∷ [])
          → read_encrypted codec encrypt_type (cipher_text ++ (3 ∷ [])) ≡ ok (text, 3 ∷ [])
      with_key cipher_text (inl (t, s)) o = rw (t, s) o
      with_key cipher_text (inr (t, s)) o = rw (t, s) o
