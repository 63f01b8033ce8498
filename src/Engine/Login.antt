-- ===== src/Engine/Login.antt =====
-- ricq-core/src/wtlogin.rs: what the engine keeps of the responses. The random text and MD5 are
-- arguments.
use ricq.Base.{ℕ, List, ◌++◌, Option, none, some}
use ricq.Engine.{Engine}
use ricq.Protocol.Sig.{Sig}
use ricq.Wtlogin.TlvReader.{T512, StringMap}
use ricq.Wtlogin.Response.{
  QrcodeConfirmed, LoginSuccess, LoginNeedCaptcha, LoginDeviceLocked, LoginDeviceLockLogin,
  LoginResponse, success, need_captcha, account_frozen, device_locked, too_many_sms_request,
  device_lock_login, unknown_status,
}

-- What is there replaces what was kept.
unfoldable pub option_set {ℓ} : {A : Type ℓ} → A → Option A → A
option_set kept none = kept
option_set kept (some value) = value

-- The sources of the answer to a 0x402 entry: sixteen random characters, and the hash.
pub record Secrets : Type 0 where
  pub random_string : List ℕ
  pub md5 : List ℕ → List ℕ

unfoldable pub set_t402 : Secrets → Sig → List ℕ → Sig
set_t402 secrets sig t402 = record sig {
  dpwd = secrets.random_string;
  t402 = t402;
  g = secrets.md5 (sig.guid ++ (secrets.random_string ++ t402));
}

unfoldable pub set_t402_if : Secrets → Sig → Option (List ℕ) → Sig
set_t402_if secrets sig none = sig
set_t402_if secrets sig (some t402) = set_t402 secrets sig t402

unfoldable pub ps_key_map_of : StringMap → Option T512 → StringMap
ps_key_map_of kept none = kept
ps_key_map_of kept (some t512) = t512.ps_key_map

unfoldable pub pt4_token_map_of : StringMap → Option T512 → StringMap
pt4_token_map_of kept none = kept
pt4_token_map_of kept (some t512) = t512.pt4_token_map

-- The keys and tickets that a successful login sets.
unfoldable pub updated_sig : LoginSuccess → Sig → Sig
updated_sig resp sig = record sig {
  rand_seed = option_set sig.rand_seed resp.rand_seed;
  ksid = option_set sig.ksid resp.ksid;
  ps_key_map = ps_key_map_of sig.ps_key_map resp.t512;
  pt4_token_map = pt4_token_map_of sig.pt4_token_map resp.t512;
  srm_token = option_set sig.srm_token resp.srm_token;
  t133 = option_set sig.t133 resp.t133;
  encrypted_a1 = option_set sig.encrypted_a1 resp.encrypt_a1;
  tgt = option_set sig.tgt resp.tgt;
  tgt_key = option_set sig.tgt_key resp.tgt_key;
  user_st_key = option_set sig.user_st_key resp.user_st_key;
  user_st_web_sig = option_set sig.user_st_web_sig resp.user_st_web_sig;
  s_key = option_set sig.s_key resp.s_key;
  s_key_expired_time = resp.s_key_expired_time;
  d2 = option_set sig.d2 resp.d2;
  d2key = option_set sig.d2key resp.d2key;
  device_token = option_set sig.device_token resp.device_token;
}

abbrev pub with_sig : Engine → Sig → Engine
with_sig e sig = record e { transport = record e.transport { sig = sig } }

unfoldable pub process_login_success : Secrets → LoginSuccess → Engine → Engine
process_login_success secrets resp e = record e {
  transport = record e.transport {
    sig = set_t402_if secrets (updated_sig resp e.transport.sig) resp.t402;
    oicq_codec = record e.transport.oicq_codec {
      wt_session_ticket_key =
          option_set e.transport.oicq_codec.wt_session_ticket_key resp.wt_session_ticket_key;
    };
  };
}

unfoldable pub process_need_captcha : LoginNeedCaptcha → Engine → Engine
process_need_captcha resp e = with_sig e (record e.transport.sig {
  t104 = option_set e.transport.sig.t104 resp.t104;
  t547 = option_set e.transport.sig.t547 resp.t547;
})

unfoldable pub process_device_locked : Secrets → LoginDeviceLocked → Engine → Engine
process_device_locked secrets resp e =
    let sig = record e.transport.sig {
      t104 = option_set e.transport.sig.t104 resp.t104;
      t174 = option_set e.transport.sig.t174 resp.t174;
    } in
    with_sig e (set_t402_if secrets sig resp.t402)

unfoldable pub process_device_lock_login : Secrets → LoginDeviceLockLogin → Engine → Engine
process_device_lock_login secrets resp e =
    let sig = record e.transport.sig {
      rand_seed = option_set e.transport.sig.rand_seed resp.rand_seed;
      t104 = option_set e.transport.sig.t104 resp.t104;
    } in
    with_sig e (set_t402_if secrets sig resp.t402)

unfoldable pub process_login_response : Secrets → LoginResponse → Engine → Engine
process_login_response secrets (success resp) e = process_login_success secrets resp e
process_login_response secrets (need_captcha resp) e = process_need_captcha resp e
process_login_response secrets account_frozen e = e
process_login_response secrets (device_locked resp) e = process_device_locked secrets resp e
process_login_response secrets too_many_sms_request e = e
process_login_response secrets (device_lock_login resp) e = process_device_lock_login secrets resp e
process_login_response secrets (unknown_status resp) e = e

unfoldable pub process_qrcode_confirmed : QrcodeConfirmed → Engine → Engine
process_qrcode_confirmed resp e = record e {
  uin = resp.uin;
  transport = record e.transport { sig = record e.transport.sig { tgtgt_key = resp.tgtgt_key } };
}
