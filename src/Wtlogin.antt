-- ===== src/Wtlogin.antt =====
-- ricq-core/src/command/wtlogin: the packets of the login.
pub mod TlvWriter
pub mod Builder
pub mod TlvReader
pub mod Response
pub mod Decoder
