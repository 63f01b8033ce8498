-- ===== src/Protocol/Packet.antt =====
-- ricq-core/src/protocol/packet.rs: a packet, how it is encrypted and what its numbers mean. Signed
-- numbers that are only passed on are their bit patterns.
pub mod Numbers
use ricq.Base.{ℕ, List, [], Option, none, Bool, true, ◌==◌, if◌then◌else◌, same_bytes}
use ricq.Base.Int.{ℤ, pos}
use ricq.Result.{Result, ok, err, invalid_packet_type, invalid_encrypt_type, command_name_mismatch}

pub data PacketType : Type 0 where
  simple login : PacketType

pub data EncryptType : Type 0 where
  no_encrypt d2_key empty_key : EncryptType

unfoldable pub packet_type_value : PacketType → ℕ
packet_type_value login = 0x0A
packet_type_value simple = 0x0B

unfoldable pub packet_type_from : ℕ → Result PacketType
packet_type_from v =
    if v == 0x0A then ok login else if v == 0x0B then ok simple else err invalid_packet_type

unfoldable pub encrypt_type_value : EncryptType → ℕ
encrypt_type_value no_encrypt = 0x00
encrypt_type_value d2_key = 0x01
encrypt_type_value empty_key = 0x02

unfoldable pub encrypt_type_from : ℕ → Result EncryptType
encrypt_type_from v =
    if v == 0x00
    then ok no_encrypt
    else if v == 0x01
    then ok d2_key
    else if v == 0x02
    then ok empty_key
    else err invalid_encrypt_type

pub record Packet : Type 0 where
  pub packet_type : PacketType
  pub encrypt_type : EncryptType
  pub seq_id : ℕ
  pub body : List ℕ
  pub command_name : List ℕ
  pub uin : ℤ
  pub message : List ℕ
  pub sign : Option (List ℕ)

unfoldable pub packet_default : Packet
packet_default = record {
  packet_type = simple;
  encrypt_type = no_encrypt;
  seq_id = 0;
  body = [];
  command_name = [];
  uin = pos 0;
  message = [];
  sign = none;
}

unfoldable pub check_command_name : List ℕ → Packet → Result Packet
check_command_name command_name pkt =
    if same_bytes pkt.command_name command_name
    then ok pkt
    else err (command_name_mismatch command_name pkt.command_name)
