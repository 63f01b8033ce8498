-- ===== src/Protocol/Oicq/Encode.antt =====
-- `Codec::encode` of ricq-core/src/protocol/oicq.rs.
use ricq.Base.{ℕ, ◌%◌, ◌^◌, List, [], length}
use ricq.Wire.{Wire}
use ricq.Result.{Result, map_ok}
use ricq.Binary.Writer.{
  PacketWriter, ◌>>◌, put_slice, put_u8, put_u16, put_u32, encrypt_and_write, overwrite,
}
use ricq.Protocol.Oicq.{EncryptionMethod, ecdh, st, Message, Codec}

module _ ⦃w : Wire⦄ where
  -- The key and the encrypted body.
  unfoldable pub write_encrypted : (ℕ → List ℕ) → Codec → EncryptionMethod → List ℕ → PacketWriter
  write_encrypted filling codec ecdh body = do
    put_u8 0x02
    put_u8 0x01
    put_slice codec.random_key
    put_u16 0x0131
    put_u16 codec.ecdh_keys.public_key_ver
    put_u16 (length codec.ecdh_keys.public_key % 2 ^ 16)
    put_slice codec.ecdh_keys.public_key
    encrypt_and_write filling codec.ecdh_keys.initial_share_key body
  write_encrypted filling codec st body = do
    put_u8 0x01
    put_u8 0x03
    put_slice codec.random_key
    put_u16 0x0102
    put_u16 0x0000
    encrypt_and_write filling codec.random_key body

  unfoldable pub method_number : EncryptionMethod → ℕ
  method_number ecdh = 0x87
  method_number st = 0x45

  unfoldable pub envelope : (ℕ → List ℕ) → Codec → Message → PacketWriter
  envelope filling codec m = do
    put_u8 0x02
    put_u16 0
    put_u16 8001
    put_u16 m.command
    put_u16 1
    put_u32 m.uin
    put_u8 0x03
    put_u8 (method_number m.encryption_method)
    put_u8 0
    put_u32 2
    put_u32 0
    put_u32 0
    write_encrypted filling codec m.encryption_method m.body
    put_u8 0x03

  -- The length is written over the two bytes behind the first when the rest is there.
  unfoldable pub encode : (ℕ → List ℕ) → Codec → Message → Result (List ℕ)
  encode filling codec m =
      map_ok (λ buf. overwrite 1 (w.be 2 (length buf % 2 ^ 16)) buf) (envelope filling codec m [])
