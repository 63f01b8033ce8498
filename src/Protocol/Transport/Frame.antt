-- ===== src/Protocol/Transport/Frame.antt =====
-- A frame as a server writes it, and how far `decode_sso_frame` reads it.
use ricq.Base.{ℕ, ◌+◌, ◌%◌, ◌^◌, ◌<◌, ◌≡◌, refl, arith, sym, ap, ◌∙◌, List, [], ◌++◌, length}
use ricq.Base.{append_assoc, append-nil, ltb, leb, ◌==◌, ◌&&◌, if◌then◌else◌}
use ricq.Base.{false, same_bytes, some, Bool, inl, inr, true}
use ricq.Wire.{Wire}
use ricq.Result.{Result, Result-cases, ok, map_ok, codes}
use ricq.Utf8.{IsText}
use ricq.Binary.Reader.{go_on, copy_to_bytes, usize_sub, as_usize}
use ricq.Binary.Reader.ReadBack.{not_short, get_be-append, copy_to_bytes-append, read_string-append}
use ricq.Protocol.Packet.{Packet}
use ricq.Protocol.Transport.Decode.{
  check_ret_code, lift, inside, read_session, read_sso_head, read_sso_body, decode_sso_frame,
}

pub record SsoFrame : Type 0 where
  pub seq_id : ℕ
  pub ret_code : ℕ
  pub message : List ℕ
  pub command_name : List ℕ
  pub session_id : List ℕ
  pub compress_flag : ℕ
  pub body : List ℕ

abbrev pub heartbeat : List ℕ
heartbeat = codes "Heartbeat.Alive"

module _ ⦃w : Wire⦄ where
  -- Bytes behind their number, which counts its own four bytes.
  abbrev pub text : List ℕ → List ℕ
  text bytes = w.be 4 ((length bytes + 4) % 2 ^ 32) ++ bytes

  abbrev pub session_bytes : SsoFrame → List ℕ
  session_bytes f = text f.session_id ++ w.be 4 f.compress_flag

  abbrev pub sso_head : SsoFrame → List ℕ
  sso_head f =
      w.be 4 f.seq_id
      ++ (w.be 4 f.ret_code ++ (text f.message ++ (text f.command_name ++ session_bytes f)))

  abbrev pub sso_frame : SsoFrame → List ℕ
  sso_frame f = text (sso_head f) ++ text f.body

  -- Numbers of 32 bits, texts, and lengths that an `i32` counts.
  pub record IsSsoFrame (f : SsoFrame) : Type 0 where
    pub seq_fits : f.seq_id < 2 ^ 32
    pub ret_fits : f.ret_code < 2 ^ 32
    pub flag_fits : f.compress_flag < 2 ^ 32
    pub message_fits : length f.message + 4 < 2 ^ 31
    pub command_fits : length f.command_name + 4 < 2 ^ 31
    pub session_fits : length f.session_id + 4 < 2 ^ 31
    pub head_fits : length (sso_head f) + 4 < 2 ^ 31
    pub body_fits : length f.body + 4 < 2 ^ 31
    pub message_text : IsText f.message
    pub command_text : IsText f.command_name

  abbrev pub filled : SsoFrame → Packet → Packet
  filled f pkt = record pkt {
    seq_id = f.seq_id;
    message = f.message;
    command_name = f.command_name;
  }

  if_same : (b : Bool) (n : ℕ) → (if b then n else n) ≡ n
  if_same true n = refl
  if_same false n = refl

  -- The number that was written is the length again.
  size_read : (n : ℕ) → n + 4 < 2 ^ 31 → usize_sub (as_usize ((n + 4) % 2 ^ 32 % 256 ^ 4)) 4 ≡ n
  size_read n h =
      let same : (n + 4) % 2 ^ 32 % 256 ^ 4 ≡ n + 4 = omega arith in rw same (ground arith)

  pub read_session-session_bytes :
      (f : SsoFrame) (pkt : Packet)
      → IsSsoFrame f
      → read_session false pkt (session_bytes f) ≡ ok ((pkt, some f.compress_flag), [])
  unfolding read_session
  read_session-session_bytes f pkt h =
      let flag : f.compress_flag % 256 ^ 4 ≡ f.compress_flag = omega (arith, h.flag_fits) in
      let last = w.be 4 f.compress_flag in
      rw (
        append_assoc (w.be 4 ((length f.session_id + 4) % 2 ^ 32)) f.session_id last,
        get_be-append 4 ((length f.session_id + 4) % 2 ^ 32) (f.session_id ++ last),
        size_read (length f.session_id) h.session_fits,
        copy_to_bytes-append (length f.session_id) f.session_id last refl,
        ← append-nil last,
        get_be-append 4 f.compress_flag [],
        flag,
      )

  -- What the code of the server decides.
  pub read_sso_head-sso_head :
      (f : SsoFrame) (pkt : Packet)
      → IsSsoFrame f
      → read_sso_head pkt (sso_head f)
        ≡ go_on
            (lift (check_ret_code f.ret_code) (session_bytes f))
            (λ u. read_session (same_bytes f.command_name heartbeat) (filled f pkt))
  unfolding read_sso_head
  read_sso_head-sso_head f pkt h =
      let seq : f.seq_id % 256 ^ 4 ≡ f.seq_id = omega (arith, h.seq_fits) in
      let ret : f.ret_code % 256 ^ 4 ≡ f.ret_code = omega (arith, h.ret_fits) in
      let after_ret = text f.message ++ (text f.command_name ++ session_bytes f) in
      rw
        (
          get_be-append 4 f.seq_id (w.be 4 f.ret_code ++ after_ret),
          seq,
          get_be-append 4 f.ret_code after_ret,
          ret,
        )
        (elim (Result-cases (check_ret_code f.ret_code)) [
          | inl (u, e) ↦ rw (
            e,
            read_string-append f.message (text f.command_name ++ session_bytes f) h.message_fits
                h.message_text,
            read_string-append f.command_name (session_bytes f) h.command_fits h.command_text,
          )
          | inr (inl (x, e)) ↦ rw e
          | inr (inr e) ↦ rw e
        ])

  pub decode_sso_frame-sso_frame :
      (inflate : List ℕ → Result (List ℕ)) (f : SsoFrame) (pkt : Packet)
      → IsSsoFrame f
      → decode_sso_frame inflate pkt (sso_frame f)
        ≡ go_on (inside (sso_head f) (read_sso_head pkt) (text f.body)) (read_sso_body inflate)
  unfolding decode_sso_frame
  decode_sso_frame-sso_frame inflate f pkt h =
      let head = sso_head f in
      rw (
        append_assoc (w.be 4 ((length head + 4) % 2 ^ 32)) head (text f.body),
        get_be-append 4 ((length head + 4) % 2 ^ 32) (head ++ text f.body),
        size_read (length head) h.head_fits,
        not_short head (text f.body) (length head) refl,
        copy_to_bytes-append (length head) head (text f.body) refl,
      )

  -- The whole buffer is taken where the number counts all of it, also where that is none.
  body_size : (n : ℕ) → (if ltb 0 n && leb n n then n else n) ≡ n
  body_size n = if_same (ltb 0 n && leb n n) n

  copy_to_bytes-whole : (body : List ℕ) → copy_to_bytes (length body) body ≡ ok (body, [])
  copy_to_bytes-whole body =
      ap (copy_to_bytes (length body)) (sym (append-nil body))
      ∙ copy_to_bytes-append (length body) body [] refl

  pub read_sso_body-text :
      (inflate : List ℕ → Result (List ℕ)) (pkt : Packet) (flag : ℕ) (body : List ℕ)
      → length body + 4 < 2 ^ 31
      → read_sso_body inflate (pkt, some flag) (text body)
        ≡ map_ok (λ b. (record pkt { body = b }, [])) (if flag == 1 then inflate body else ok body)
  unfolding read_sso_body
  read_sso_body-text inflate pkt flag body h =
      rw
        (
          get_be-append 4 ((length body + 4) % 2 ^ 32) body,
          size_read (length body) h,
          body_size (length body),
          copy_to_bytes-whole body,
        )
        (elim (Result-cases (if flag == 1 then inflate body else ok body)) [
          | inl (b, e) ↦ rw e
          | inr (inl (x, e)) ↦ rw e
          | inr (inr e) ↦ rw e
        ])
