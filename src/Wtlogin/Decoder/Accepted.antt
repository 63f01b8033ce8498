-- ===== src/Wtlogin/Decoder/Accepted.antt =====
-- A login that the server accepts, through decoder.rs, mod.rs and ricq-core/src/wtlogin.rs.
use ricq.Base.{
  ℕ, ◌+◌, ◌%◌, ◌^◌, ◌≡◌, refl, arith, ap, sym, ◌∙◌, List, [], ◌∷◌, ◌++◌, All, Option, none, some,
  append-nil,
}
use ricq.Wire.{Wire}
use ricq.Result.{Result, ok, err, codes, decode}
use ricq.HashMap.{HashMap, get, empty}
use ricq.Crypto.QqTea.{qqtea_decrypt}
use ricq.Binary.Reader.{get_u8, advance, read_tlv_map}
use ricq.Binary.Reader.ReadBack.{get_be-append, not_short}
use ricq.Binary.Reader.TlvMap.{IsEntry, insert_all, tlvs_bytes, read_tlv_map-tlvs_bytes}
use ricq.Engine.{Engine}
use ricq.Engine.Login.{
  with_sig, Secrets, option_set, ps_key_map_of, pt4_token_map_of, updated_sig,
  process_login_success, process_login_response,
}
use ricq.Engine.LoginKept.{set_t402_if-unseen}
use ricq.Wtlogin.TlvReader.{
  StringMap, T161, T11A, T512, run, decode_t119, decode_t161, read_t11a, read_t512,
}
use ricq.Wtlogin.Response.{LoginSuccess, success}
use ricq.Wtlogin.Response.Decode.{login_success, map_some, decode_success, decode_login}
use ricq.Wtlogin.Decoder.{read_login, decode_login_response}
use ricq.Base.{drop-append}

-- The tickets and keys of the engine that a login sets.
pub record Keys : Type 0 where
  pub d2 : List ℕ
  pub d2key : List ℕ
  pub tgt : List ℕ
  pub tgt_key : List ℕ
  pub srm_token : List ℕ
  pub t133 : List ℕ
  pub encrypted_a1 : List ℕ
  pub user_st_key : List ℕ
  pub user_st_web_sig : List ℕ
  pub s_key : List ℕ
  pub s_key_expired_time : ℕ
  pub ksid : List ℕ
  pub rand_seed : List ℕ
  pub device_token : List ℕ
  pub wt_session_ticket_key : List ℕ
  pub ps_key_map : StringMap
  pub pt4_token_map : StringMap

abbrev pub keys_of : Engine → Keys
keys_of e = record {
  d2 = e.transport.sig.d2;
  d2key = e.transport.sig.d2key;
  tgt = e.transport.sig.tgt;
  tgt_key = e.transport.sig.tgt_key;
  srm_token = e.transport.sig.srm_token;
  t133 = e.transport.sig.t133;
  encrypted_a1 = e.transport.sig.encrypted_a1;
  user_st_key = e.transport.sig.user_st_key;
  user_st_web_sig = e.transport.sig.user_st_web_sig;
  s_key = e.transport.sig.s_key;
  s_key_expired_time = e.transport.sig.s_key_expired_time;
  ksid = e.transport.sig.ksid;
  rand_seed = e.transport.sig.rand_seed;
  device_token = e.transport.sig.device_token;
  wt_session_ticket_key = e.transport.oicq_codec.wt_session_ticket_key;
  ps_key_map = e.transport.sig.ps_key_map;
  pt4_token_map = e.transport.sig.pt4_token_map;
}

-- The entry if it is there, and else what there was.
abbrev pub entry_or : List ℕ → Option (List ℕ) → List ℕ
entry_or old none = old
entry_or old (some new) = new

-- The keys of domains, and those there were without such an entry.
abbrev pub domain_keys_or : StringMap → Option T512 → StringMap
domain_keys_or old none = old
domain_keys_or old (some t512) = t512.ps_key_map

abbrev pub domain_tokens_or : StringMap → Option T512 → StringMap
domain_tokens_or old none = old
domain_tokens_or old (some t512) = t512.pt4_token_map

-- The keys after a login at the second `now`, given those before, the map of the entries in the clear, that
-- of the decrypted ones, and what their entry of the domains says.
abbrev pub keys_with : ℕ → HashMap → HashMap → Option T512 → Keys → Keys
keys_with now m t119 t512 k = record {
  d2 = entry_or k.d2 (get 0x143 t119);
  d2key = entry_or k.d2key (get 0x305 t119);
  tgt = entry_or k.tgt (get 0x10a t119);
  tgt_key = entry_or k.tgt_key (get 0x10d t119);
  srm_token = entry_or k.srm_token (get 0x16a t119);
  t133 = entry_or k.t133 (get 0x133 t119);
  encrypted_a1 = entry_or k.encrypted_a1 (get 0x106 t119);
  user_st_key = entry_or k.user_st_key (get 0x10e t119);
  user_st_web_sig = entry_or k.user_st_web_sig (get 0x103 t119);
  s_key = entry_or k.s_key (get 0x120 t119);
  s_key_expired_time = (now + 21600) % 2 ^ 64;
  ksid = entry_or k.ksid (get 0x108 t119);
  rand_seed = entry_or k.rand_seed (get 0x403 m);
  device_token = entry_or k.device_token (get 0x322 t119);
  wt_session_ticket_key = entry_or k.wt_session_ticket_key (get 0x134 t119);
  ps_key_map = domain_keys_or k.ps_key_map t512;
  pt4_token_map = domain_tokens_or k.pt4_token_map t512;
}

option_set-entry_or : (old : List ℕ) (o : Option (List ℕ)) → option_set old o ≡ entry_or old o
unfolding option_set
option_set-entry_or old none = refl
option_set-entry_or old (some new) = refl

ps_key_map_of-same :
    (old : StringMap) (o : Option T512) → ps_key_map_of old o ≡ domain_keys_or old o
unfolding ps_key_map_of
ps_key_map_of-same old none = refl
ps_key_map_of-same old (some t512) = refl

pt4_token_map_of-same :
    (old : StringMap) (o : Option T512) → pt4_token_map_of old o ≡ domain_tokens_or old o
unfolding pt4_token_map_of
pt4_token_map_of-same old none = refl
pt4_token_map_of-same old (some t512) = refl

-- The keys after a success is processed.
keys_of-success :
    (secrets : Secrets) (now : ℕ) (m t119 : HashMap) (t161 : Option T161) (t11a : Option T11A)
    (t512 : Option T512) (e : Engine)
    → keys_of (process_login_response secrets (success (login_success now m t119 t161 t11a t512)) e)
      ≡ keys_with now m t119 t512 (keys_of e)
unfolding process_login_response process_login_success updated_sig
keys_of-success secrets now m t119 t161 t11a t512 e =
    let r = login_success now m t119 t161 t11a t512 in
    set_t402_if-unseen (λ s. keys_of (with_sig (process_login_success secrets r e) s)) secrets
      (updated_sig r e.transport.sig) r.t402 (λ a b c. refl)
    ∙ simp (option_set-entry_or, ps_key_map_of-same, pt4_token_map_of-same) refl

module _ ⦃w : Wire⦄ where
  -- A reply: the command, the status, two bytes that are not looked at, and the entries.
  abbrev pub reply : ℕ → ℕ → ℕ → List (ℕ × List ℕ) → List ℕ
  reply sub_command status z es = w.be 2 sub_command ++ (status ∷ (w.be 2 z ++ tlvs_bytes es))

  abbrev pub map_of : List (ℕ × List ℕ) → HashMap
  map_of es = insert_all empty es

  read_login-reply :
      (sub_command status z : ℕ) (es : List (ℕ × List ℕ))
      → All IsEntry es
      → run read_login (reply sub_command status z es)
        ≡ ok (sub_command % 256 ^ 2, status, map_of es)
  unfolding read_login get_u8
  read_login-reply sub_command status z es h =
      let whole = append-nil (tlvs_bytes es) in
      rw (
        get_be-append 2 sub_command (status ∷ (w.be 2 z ++ tlvs_bytes es)),
        get_be-append 2 z (tlvs_bytes es),
        ap (read_tlv_map 2) (sym whole) ∙ read_tlv_map-tlvs_bytes es [] h (omega arith),
      )

  -- The entries of a 0x119 entry stand behind two bytes, under the key of the exchange.
  decode_t119-entries :
      (sealed ek : List ℕ) (n : ℕ) (es : List (ℕ × List ℕ))
      → All IsEntry es
      → qqtea_decrypt sealed ek ≡ ok (w.be 2 n ++ tlvs_bytes es)
      → decode_t119 sealed ek ≡ ok (map_of es)
  unfolding decode_t119 advance
  decode_t119-entries sealed ek n es h d = rw (
    d,
    not_short (w.be 2 n) (tlvs_bytes es) 2 (w.length-be 2 n),
    drop-append 2 (w.be 2 n) (tlvs_bytes es) (w.length-be 2 n),
    ap (read_tlv_map 2) (sym (append-nil (tlvs_bytes es)))
        ∙ read_tlv_map-tlvs_bytes es [] h (omega arith),
  )

  -- A reply of the server with the status zero, whose entries are well formed and have a 0x119 entry
  -- that the key of the exchange decrypts to two bytes and well-formed entries, and whose other
  -- entries with a structure of their own are readable where they are there, is decoded to a success;
  -- and once it is processed, the engine's tickets and keys are what the decrypted entries have under
  -- their tags, those of the domains what their entry 0x512 says, the random seed what the entries in the
  -- clear have, and each of them what it was before
  -- where the entry is missing; the key that expires does so 21600 seconds after the login.
  pub process_login_response-accepted :
      (secrets : Secrets) (now : ℕ) (work : List ℕ → Result (List ℕ)) (e : Engine)
      (sub_command z n : ℕ) (es inner : List (ℕ × List ℕ)) (sealed : List ℕ) (t161 : Option T161)
      (t11a : Option T11A) (t512 : Option T512)
      → All IsEntry es
      → All IsEntry inner
      → get 0x119 (map_of es) ≡ some sealed
      → qqtea_decrypt sealed e.transport.sig.tgtgt_key ≡ ok (w.be 2 n ++ tlvs_bytes inner)
      → map_some decode_t161 (get 0x161 (map_of es)) ≡ ok t161
      → map_some read_t11a (get 0x11a (map_of inner)) ≡ ok t11a
      → map_some read_t512 (get 0x512 (map_of inner)) ≡ ok t512
      → (r : LoginSuccess) × (decode_login_response now work e (reply sub_command 0 z es)
          ≡ ok (success r))
        × (keys_of (process_login_response secrets (success r) e)
            ≡ keys_with now (map_of es) (map_of inner) t512 (keys_of e))
  unfolding decode_login_response decode_login decode_success
  process_login_response-accepted secrets now work e sub_command z n es inner sealed t161 t11a t512
        h k a d b c f =
      (
        login_success now (map_of es) (map_of inner) t161 t11a t512,
        rw (
          read_login-reply sub_command 0 z es h,
          a,
          decode_t119-entries sealed e.transport.sig.tgtgt_key n inner k d,
          b,
          c,
          f,
        ),
        keys_of-success secrets now (map_of es) (map_of inner) t161 t11a t512 e,
      )

  -- A reply with the status zero, well-formed entries and no 0x119 entry is the error that says so.
  pub decode_login_response-missing :
      (now : ℕ) (work : List ℕ → Result (List ℕ)) (e : Engine) (sub_command z : ℕ)
      (es : List (ℕ × List ℕ))
      → All IsEntry es
      → get 0x119 (map_of es) ≡ none
      → decode_login_response now work e (reply sub_command 0 z es)
        ≡ err (decode (codes "missing 0x119"))
  unfolding decode_login_response decode_login decode_success
  decode_login_response-missing now work e sub_command z es h a =
      rw (read_login-reply sub_command 0 z es h, a)
