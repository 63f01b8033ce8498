-- ===== src/Protocol/Oicq/Decode.antt =====
-- `Codec::decode` of ricq-core/src/protocol/oicq.rs.
use ricq.Base.{ℕ, List, ◌==◌, not, if◌then◌else◌}
use ricq.Wire.{Wire}
use ricq.Result.{Result, ok, err, panic, unknown_flag, unknown_encrypt_type}
use ricq.Crypto.QqTea.{qqtea_decrypt}
use ricq.Binary.Reader.{Reader, ◌>>=◌, ◌>>◌, pure, fail, remaining, get_u8, get_u16, get_i32}
use ricq.Binary.Reader.{copy_to_bytes, usize_sub}
use ricq.Protocol.Oicq.{ecdh, Message, Codec}

module _ ⦃w : Wire⦄ where
  abbrev decrypted : List ℕ → List ℕ → Reader (List ℕ)
  decrypted d key r = go (qqtea_decrypt d key)
    where
      go : Result (List ℕ) → Result (List ℕ × List ℕ)
      go (ok body) = ok (body, r)
      go (err e) = err e
      go panic = panic

  -- All but the last byte, decrypted.
  unfoldable pub read_body : List ℕ → Reader (List ℕ)
  read_body key = do left ← remaining; d ← copy_to_bytes (usize_sub left 1); decrypted d key

  unfoldable pub read_encrypted : Codec → ℕ → Reader (List ℕ)
  read_encrypted codec encrypt_type =
      if encrypt_type == 0
      then read_body codec.ecdh_keys.initial_share_key
      else if encrypt_type == 3
      then read_body codec.wt_session_ticket_key
      else fail unknown_encrypt_type

  -- The message has the default method.
  unfoldable pub decode : Codec → Reader Message
  decode codec = do
    flag ← get_u8
    if not (flag == 2) then fail (unknown_flag flag) else do
      get_u16
      get_u16
      command ← get_u16
      get_u16
      uin ← get_i32
      get_u8
      encrypt_type ← get_u8
      get_u8
      body ← read_encrypted codec encrypt_type
      pure (record { uin = uin; command = command; body = body; encryption_method = ecdh })
