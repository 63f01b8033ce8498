-- ===== src/Highway.antt =====
-- ricq/src/client/highway: the framing of the upload connection.
pub mod Encode
pub mod Decode
pub mod Frames
pub mod Upload
use ricq.Base.{ℕ, List}

pub record HighwayFrame : Type 0 where
  pub head : List ℕ
  pub body : List ℕ
