-- ===== src/Wtlogin/Response/Decode.antt =====
-- `LoginResponse::decode` of ricq-core/src/command/wtlogin/mod.rs. The seconds since 1970 are the
-- argument `now`, and what `t546_to_t547` makes of an entry the argument `work`. A key is removed at
-- most once and what is left of a map is mostly dropped, so that a removal is a lookup.
use ricq.Base.{ℕ, ◌+◌, ◌%◌, ◌^◌, List, [], ◌++◌, Option, none, some, ◌==◌, ◌||◌, if◌then◌else◌}
use ricq.Wire.{Wire}
use ricq.Result.{Result, ok, err, and_then, map_ok, codes, decode}
use ricq.Utf8.{from_utf8_lossy}
use ricq.HashMap.{HashMap, get, erase}
use ricq.Binary.Reader.{
  Reader, ◌>>=◌, ◌>>◌, pure, get_u16, advance, copy_to_bytes, read_string_short,
}
use ricq.Wtlogin.TlvReader.{T161, T11A, T512, run, decode_t161, decode_t119, read_t11a, read_t512}
use ricq.Wtlogin.Response.{
  ImageCaptcha, LoginSuccess, LoginResponse, success, need_captcha, account_frozen, device_locked,
  too_many_sms_request, device_lock_login, unknown_status,
}

-- `Option::map` with a function that may panic.
abbrev pub map_some {ℓ} : {A : Type ℓ} → (List ℕ → Result A) → Option (List ℕ) → Result (Option A)
map_some f none = ok none
map_some f (some v) = map_ok some (f v)

abbrev pub text_of : Option (List ℕ) → Option (List ℕ)
text_of none = none
text_of (some v) = some (from_utf8_lossy v)

abbrev pub required : List ℕ → Option (List ℕ) → Result (List ℕ)
required message none = err (decode message)
required message (some v) = ok v

-- A success, from the entries, the decrypted entries, and those that have a structure of their own.
abbrev pub login_success :
    ℕ → HashMap → HashMap → Option T161 → Option T11A → Option T512 → LoginSuccess
login_success now m t119 rollback_sig account_info t512 = record {
  rollback_sig = rollback_sig;
  rand_seed = get 0x403 m;
  ksid = get 0x108 t119;
  account_info = account_info;
  t512 = t512;
  t402 = get 0x402 m;
  wt_session_ticket_key = get 0x134 t119;
  srm_token = get 0x16a t119;
  t133 = get 0x133 t119;
  encrypt_a1 = get 0x106 t119;
  tgt = get 0x10a t119;
  tgt_key = get 0x10d t119;
  user_st_key = get 0x10e t119;
  user_st_web_sig = get 0x103 t119;
  s_key = get 0x120 t119;
  s_key_expired_time = (now + 21600) % 2 ^ 64;
  d2 = get 0x143 t119;
  d2key = get 0x305 t119;
  device_token = get 0x322 t119;
}

module _ ⦃w : Wire⦄ where
  unfoldable pub decode_success : ℕ → HashMap → List ℕ → Result LoginResponse
  decode_success now m encrypt_key = and_then (required (codes "missing 0x119") (get 0x119 m)) λ v.
      and_then (decode_t119 v encrypt_key) λ t119.
        and_then (map_some decode_t161 (get 0x161 m)) λ rollback_sig.
          and_then (map_some read_t11a (get 0x11a t119)) λ account_info.
            and_then (map_some read_t512 (get 0x512 t119))
              λ t512. ok (success (login_success now m t119 rollback_sig account_info t512))

  unfoldable pub image_captcha : Reader ImageCaptcha
  image_captcha = do
    sign_len ← get_u16
    get_u16
    image_sign ← copy_to_bytes sign_len
    λ image. ok (record { sign = image_sign; image = image }, [])

  unfoldable pub decode_need_captcha : (List ℕ → Result (List ℕ)) → HashMap → Result LoginResponse
  decode_need_captcha work m = and_then (map_some (run image_captcha) (get 0x165 m)) λ captcha.
      and_then (map_some work (get 0x546 m)) λ t547. ok (
        need_captcha (record {
          t104 = get 0x104 m;
          verify_url = text_of (get 0x192 m);
          image_captcha = captcha;
          t547 = t547;
        }))

  -- The telephone number, as a text.
  unfoldable pub phone : Reader (List ℕ)
  phone = do
    country_code ← read_string_short
    phone_number ← read_string_short
    pure (codes "+" ++ (country_code ++ (codes " " ++ phone_number)))

  unfoldable pub sms_phone_of : Option (List ℕ) → Option (List ℕ) → Result (Option (List ℕ))
  sms_phone_of none t178 = ok none
  sms_phone_of (some t174) t178 = map_some (run phone) t178

  unfoldable pub decode_device_locked : HashMap → Result LoginResponse
  decode_device_locked m =
      map_ok
        (λ sms_phone. device_locked (record {
          t104 = get 0x104 m;
          t174 = get 0x174 m;
          t402 = get 0x402 m;
          sms_phone = sms_phone;
          verify_url = text_of (get 0x204 m);
          message = text_of (get 0x17e m);
          rand_seed = get 0x403 m;
        }))
        (sms_phone_of (get 0x174 m) (get 0x178 m))

  -- The message behind the title.
  unfoldable pub error_message : Reader (List ℕ)
  error_message = do advance 4; read_string_short; read_string_short

  unfoldable pub message_of : Option (List ℕ) → Result (List ℕ)
  message_of none = ok []
  message_of (some v) = run error_message v

  unfoldable pub decode_login :
      ℕ → (List ℕ → Result (List ℕ)) → ℕ → HashMap → List ℕ → Result LoginResponse
  decode_login now work status m encrypt_key =
      if status == 0
      then decode_success now m encrypt_key
      else if status == 2
      then decode_need_captcha work m
      else if status == 40
      then ok account_frozen
      else if status == 160 || status == 239
      then decode_device_locked m
      else if status == 162
      then ok too_many_sms_request
      else if status == 204
      then ok (
          device_lock_login
            (record { t104 = get 0x104 m; t402 = get 0x402 m; rand_seed = get 0x403 m }))
      else map_ok
          (λ message.
            unknown_status (record { status = status; tlv_map = erase 0x146 m; message = message }))
          (message_of (get 0x146 m))
