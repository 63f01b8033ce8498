-- ===== src/Wtlogin/Response.antt =====
-- ricq-core/src/command/wtlogin/mod.rs: the responses of the server to a login.
pub mod Work
pub mod Decode
use ricq.Base.{ℕ, List, Option}
use ricq.HashMap.{HashMap}
use ricq.Wtlogin.TlvReader.{T161, T11A, T512}
use ricq.Base.Int.{ℤ}

pub record QrcodeImageFetch : Type 0 where
  pub image_data : List ℕ
  pub sig : List ℕ

pub record QrcodeConfirmed : Type 0 where
  pub uin : ℤ
  pub tmp_pwd : List ℕ
  pub tmp_no_pic_sig : List ℕ
  pub tgt_qr : List ℕ
  pub tgtgt_key : List ℕ

pub data QrcodeState : Type 0 where
  image_fetch : QrcodeImageFetch → QrcodeState
  waiting_for_scan waiting_for_confirm timed_out canceled : QrcodeState
  confirmed : QrcodeConfirmed → QrcodeState

pub record ImageCaptcha : Type 0 where
  pub sign : List ℕ
  pub image : List ℕ

pub record LoginSuccess : Type 0 where
  pub rollback_sig : Option T161
  pub rand_seed : Option (List ℕ)
  pub ksid : Option (List ℕ)
  pub account_info : Option T11A
  pub t512 : Option T512
  pub t402 : Option (List ℕ)
  pub wt_session_ticket_key : Option (List ℕ)
  pub srm_token : Option (List ℕ)
  pub t133 : Option (List ℕ)
  pub encrypt_a1 : Option (List ℕ)
  pub tgt : Option (List ℕ)
  pub tgt_key : Option (List ℕ)
  pub user_st_key : Option (List ℕ)
  pub user_st_web_sig : Option (List ℕ)
  pub s_key : Option (List ℕ)
  pub s_key_expired_time : ℕ
  pub d2 : Option (List ℕ)
  pub d2key : Option (List ℕ)
  pub device_token : Option (List ℕ)

pub record LoginNeedCaptcha : Type 0 where
  pub t104 : Option (List ℕ)
  pub verify_url : Option (List ℕ)
  pub image_captcha : Option ImageCaptcha
  pub t547 : Option (List ℕ)

pub record LoginDeviceLocked : Type 0 where
  pub t104 : Option (List ℕ)
  pub t174 : Option (List ℕ)
  pub t402 : Option (List ℕ)
  pub sms_phone : Option (List ℕ)
  pub verify_url : Option (List ℕ)
  pub message : Option (List ℕ)
  pub rand_seed : Option (List ℕ)

pub record LoginDeviceLockLogin : Type 0 where
  pub t104 : Option (List ℕ)
  pub t402 : Option (List ℕ)
  pub rand_seed : Option (List ℕ)

pub record LoginUnknownStatus : Type 0 where
  pub status : ℕ
  pub tlv_map : HashMap
  pub message : List ℕ

pub data LoginResponse : Type 0 where
  success : LoginSuccess → LoginResponse
  need_captcha : LoginNeedCaptcha → LoginResponse
  account_frozen : LoginResponse
  device_locked : LoginDeviceLocked → LoginResponse
  too_many_sms_request : LoginResponse
  device_lock_login : LoginDeviceLockLogin → LoginResponse
  unknown_status : LoginUnknownStatus → LoginResponse
