-- ===== src/Wtlogin/Builder.antt =====
-- ricq-core/src/command/wtlogin/builder.rs: the packets that the client sends to log in. What they
-- take from outside the repository is `Outside`.
pub mod Small
pub mod Qrcode
pub mod Login
pub mod Exchange
pub mod Bodies
pub mod DeviceLock
use ricq.Base.{ℕ, ◌-◌, ◌%◌, ◌^◌, ◌≡◌, List, [], ◌∷◌, length}
use ricq.Base.Int.{ℤ, pos, negsuc}
use ricq.Wire.{Wire}
use ricq.Result.{Result, and_then, map_ok, codes}
use ricq.Binary.Writer.{PacketWriter, CounterWriter, ◌>>◌, put_u16}
use ricq.Protocol.Device.{Device}
use ricq.Protocol.Oicq.{EncryptionMethod, ecdh, Codec}
use ricq.Protocol.Oicq.Encode as Envelope
use ricq.Protocol.Packet.{Packet, PacketType, packet_default, empty_key}
use ricq.Engine.{Engine, next_seq}

-- The package `md5`, the draws and the clock readings of one packet by their number, the bytes that
-- fill the gap of each encryption, and the protocol buffer of a device.
pub record Outside : Type 0 where
  pub md5 : List ℕ → List ℕ
  pub length-md5 : (bytes : List ℕ) → length (md5 bytes) ≡ 16
  pub random : ℕ → ℕ
  pub as_secs : ℕ
  pub as_millis : ℕ
  pub filling : ℕ → ℕ → List ℕ
  pub gen_pb_data : Device → List ℕ

-- `as u32` and `as u64`
abbrev pub as_bits : ℕ → ℤ → ℕ
as_bits n (pos m) = m % 2 ^ n
as_bits n (negsuc m) = 2 ^ n - 1 - m % 2 ^ n

module _ ⦃w : Wire⦄ where
  -- The number of the command, how many entries there are, and the entries.
  unfoldable pub write_entries : ℕ → CounterWriter → PacketWriter
  write_entries sub_command tlv_writer = do
    put_u16 sub_command
    put_u16 (tlv_writer.count % 2 ^ 16)
    tlv_writer.writer

  -- `Message` around a body, and `encode`.
  unfoldable pub build_request :
      Outside → EncryptionMethod → Engine → ℤ → ℕ → PacketWriter → Result (List ℕ)
  build_request out method e uin command_id body = and_then (body []) (λ bytes.
      Envelope.encode (out.filling 9) e.transport.oicq_codec (record {
        uin = as_bits 32 uin;
        command = command_id;
        body = bytes;
        encryption_method = method;
      }))

  unfoldable pub build_oicq_request_packet :
      Outside → Engine → ℤ → ℕ → PacketWriter → Result (List ℕ)
  build_oicq_request_packet out e uin command_id body = build_request out ecdh e uin command_id body

  -- The packet of a request, with the engine that has counted it.
  unfoldable pub packet_of :
      PacketType → List ℕ → ℤ → Engine → Result (List ℕ) → Result (Packet × Engine)
  packet_of packet_type command_name uin e req =
      map_ok
        (λ body. (
          record packet_default {
            packet_type = packet_type;
            encrypt_type = empty_key;
            seq_id = (next_seq e).0;
            body = body;
            command_name = command_name;
            uin = uin;
          },
          (next_seq e).1,
        ))
        req
