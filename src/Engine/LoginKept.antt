-- ===== src/Engine/LoginKept.antt =====
-- What the responses to a login change, for ricq-core/src/wtlogin.rs.
use ricq.Base.{ℕ, List, [], ◌++◌, Option, none, some, ◌≡◌, refl, ◌⊎◌}
use ricq.Engine.{Engine}
use ricq.Base.Int.{ℤ}
use ricq.Protocol.Device.{Device, Version}
use ricq.Protocol.Oicq.{EncryptEcdh}
use ricq.Protocol.Sig.{Sig}
use ricq.Wtlogin.Response.{
  LoginResponse, success, need_captcha, account_frozen, device_locked, too_many_sms_request,
  device_lock_login, unknown_status,
}
use ricq.Engine.Login.{
  with_sig, Secrets, option_set, set_t402, set_t402_if, updated_sig, process_login_success,
  process_need_captcha, process_device_locked, process_device_lock_login, process_login_response,
}

-- The answer to the server's last 0x402 entry is the hash of the id of the device, the random text and
-- the entry, unless there was no such entry.
abbrev pub IsAnswered : (List ℕ → List ℕ) → Sig → Type 0
IsAnswered md5 sig = (sig.t402 ≡ []) ⊎ (sig.g ≡ md5 (sig.guid ++ (sig.dpwd ++ sig.t402)))

-- What no response changes: the account, the device, the program, the counters, the id of the device
-- and the keys of the exchange.
pub record Identity : Type 0 where
  pub uin : ℤ
  pub device : Device
  pub version : Version
  pub seq_id : ℕ
  pub request_packet_request_id : ℕ
  pub group_seq : ℕ
  pub friend_seq : ℕ
  pub group_data_trans_seq : ℕ
  pub highway_apply_up_seq : ℕ
  pub guid : List ℕ
  pub tgtgt_key : List ℕ
  pub out_packet_session_id : List ℕ
  pub ecdh_keys : EncryptEcdh
  pub random_key : List ℕ

abbrev pub identity : Engine → Identity
identity e = record {
  uin = e.uin;
  device = e.transport.device;
  version = e.transport.version;
  seq_id = e.seq_id;
  request_packet_request_id = e.request_packet_request_id;
  group_seq = e.group_seq;
  friend_seq = e.friend_seq;
  group_data_trans_seq = e.group_data_trans_seq;
  highway_apply_up_seq = e.highway_apply_up_seq;
  guid = e.transport.sig.guid;
  tgtgt_key = e.transport.sig.tgtgt_key;
  out_packet_session_id = e.transport.sig.out_packet_session_id;
  ecdh_keys = e.transport.oicq_codec.ecdh_keys;
  random_key = e.transport.oicq_codec.random_key;
}

-- What an accepted login is remembered by.
pub record Ticket : Type 0 where
  pub d2 : List ℕ
  pub d2key : List ℕ
  pub tgt : List ℕ
  pub srm_token : List ℕ
  pub encrypted_a1 : List ℕ
  pub wt_session_ticket_key : List ℕ

abbrev pub ticket : Engine → Ticket
ticket e = record {
  d2 = e.transport.sig.d2;
  d2key = e.transport.sig.d2key;
  tgt = e.transport.sig.tgt;
  srm_token = e.transport.sig.srm_token;
  encrypted_a1 = e.transport.sig.encrypted_a1;
  wt_session_ticket_key = e.transport.oicq_codec.wt_session_ticket_key;
}

-- The ticket that a response grants; only a success grants anything.
abbrev pub granted : LoginResponse → Ticket → Ticket
granted (success r) t = record {
  d2 = option_set t.d2 r.d2;
  d2key = option_set t.d2key r.d2key;
  tgt = option_set t.tgt r.tgt;
  srm_token = option_set t.srm_token r.srm_token;
  encrypted_a1 = option_set t.encrypted_a1 r.encrypt_a1;
  wt_session_ticket_key = option_set t.wt_session_ticket_key r.wt_session_ticket_key;
}
granted (need_captcha r) t = t
granted account_frozen t = t
granted (device_locked r) t = t
granted too_many_sms_request t = t
granted (device_lock_login r) t = t
granted (unknown_status r) t = t

-- What does not look at the answer to a 0x402 entry is the same after one.
pub set_t402_if-unseen :
    {A : Type 0} (f : Sig → A) (secrets : Secrets) (sig : Sig) (o : Option (List ℕ))
    → ((dpwd t402 g : List ℕ) → f (record sig { dpwd = dpwd; t402 = t402; g = g }) ≡ f sig)
    → f (set_t402_if secrets sig o) ≡ f sig
unfolding set_t402_if set_t402
set_t402_if-unseen f secrets sig none h = refl
set_t402_if-unseen f secrets sig (some t402) h = h _ _ _

-- Every response leaves the account, the device, the program, the counters of packets and messages,
-- the id of the device and the keys of the exchange as they were; and the ticket is afterwards what
-- the response grants: for a success the old one with every part that the response has in place of
-- the old part, and for every other response the old one.
pub process_login_response-granted :
    (secrets : Secrets) (resp : LoginResponse) (e : Engine)
    → (identity (process_login_response secrets resp e) ≡ identity e)
      × (ticket (process_login_response secrets resp e) ≡ granted resp (ticket e))
unfolding process_login_response process_login_success process_need_captcha process_device_locked
    process_device_lock_login updated_sig
process_login_response-granted secrets (success r) e = (
  set_t402_if-unseen (λ s. identity (with_sig e s)) secrets (updated_sig r e.transport.sig) r.t402
      (λ a b c. refl),
  set_t402_if-unseen (λ s. ticket (with_sig (process_login_success secrets r e) s)) secrets
      (updated_sig r e.transport.sig) r.t402 (λ a b c. refl),
)
process_login_response-granted secrets (need_captcha r) e = (refl, refl)
process_login_response-granted secrets account_frozen e = (refl, refl)
process_login_response-granted secrets (device_locked r) e = (
  set_t402_if-unseen (λ s. identity (with_sig e s)) secrets _ r.t402 (λ a b c. refl),
  set_t402_if-unseen (λ s. ticket (with_sig e s)) secrets _ r.t402 (λ a b c. refl),
)
process_login_response-granted secrets too_many_sms_request e = (refl, refl)
process_login_response-granted secrets (device_lock_login r) e = (
  set_t402_if-unseen (λ s. identity (with_sig e s)) secrets _ r.t402 (λ a b c. refl),
  set_t402_if-unseen (λ s. ticket (with_sig e s)) secrets _ r.t402 (λ a b c. refl),
)
process_login_response-granted secrets (unknown_status r) e = (refl, refl)
