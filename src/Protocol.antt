-- ===== src/Protocol.antt =====
-- ricq-core/src/protocol: the state of a connection and the packets that go over it.
pub mod Packet
pub mod Device
pub mod Sig
pub mod Oicq
pub mod Transport
pub mod Versions
