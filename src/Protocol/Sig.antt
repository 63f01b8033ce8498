-- ===== src/Protocol/Sig.antt =====
-- ricq-core/src/protocol/sig.rs: the keys and tickets of a login. `s_key_expired_time` is kept as its
-- bit pattern, and a map from domains to bytes is a function.
use ricq.Base.{ℕ, List, Option}

pub record Sig : Type 0 where
  pub login_bitmap : ℕ
  pub tgt : List ℕ
  pub tgt_key : List ℕ
  pub srm_token : List ℕ
  pub t133 : List ℕ
  pub encrypted_a1 : List ℕ
  pub user_st_key : List ℕ
  pub user_st_web_sig : List ℕ
  pub s_key : List ℕ
  pub s_key_expired_time : ℕ
  pub d2 : List ℕ
  pub d2key : List ℕ
  pub device_token : List ℕ
  pub ps_key_map : List ℕ → Option (List ℕ)
  pub pt4_token_map : List ℕ → Option (List ℕ)
  pub out_packet_session_id : List ℕ
  pub dpwd : List ℕ
  pub t104 : List ℕ
  pub t547 : List ℕ
  pub t174 : List ℕ
  pub g : List ℕ
  pub t402 : List ℕ
  pub rand_seed : List ℕ
  pub sync_const1 : ℕ
  pub sync_const2 : ℕ
  pub sync_const3 : ℕ
  pub sync_cookie : List ℕ
  pub pub_account_cookie : List ℕ
  pub guid : List ℕ
  pub tgtgt_key : List ℕ
  pub ksid : List ℕ
