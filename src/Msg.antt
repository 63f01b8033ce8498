-- ===== src/Msg.antt =====
-- ricq-core/src/msg: messages.
pub mod Faces
pub mod Chain
pub mod Elems
pub mod Fragment
pub mod Market
pub mod Message
pub mod RqElem
