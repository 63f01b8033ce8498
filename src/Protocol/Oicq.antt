-- ===== src/Protocol/Oicq.antt =====
-- ricq-core/src/protocol/oicq.rs: the envelope of the login messages.
pub mod Encode
pub mod Decode
pub mod Envelope
pub mod Opened
use ricq.Base.{ℕ, List}

pub data EncryptionMethod : Type 0 where
  ecdh st : EncryptionMethod

pub record Message : Type 0 where
  pub uin : ℕ
  pub command : ℕ
  pub body : List ℕ
  pub encryption_method : EncryptionMethod

-- `EncryptECDH` of ricq-core/src/crypto/encrypt.rs.
pub record EncryptEcdh : Type 0 where
  pub initial_share_key : List ℕ
  pub public_key : List ℕ
  pub public_key_ver : ℕ

pub record Codec : Type 0 where
  pub ecdh_keys : EncryptEcdh
  pub random_key : List ℕ
  pub wt_session_ticket_key : List ℕ
