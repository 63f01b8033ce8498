-- ===== src/Protocol/Transport.antt =====
-- ricq-core/src/protocol/transport.rs: the state of a connection, and the packets that it sends and
-- receives.
pub mod Encode
pub mod Encoded
pub mod Decode
pub mod Frame
pub mod Decoded
pub mod Refused
use ricq.Protocol.Sig.{Sig}
use ricq.Protocol.Device.{Device, Version}
use ricq.Protocol.Oicq.{Codec}

pub record Transport : Type 0 where
  pub sig : Sig
  pub device : Device
  pub version : Version
  pub oicq_codec : Codec
