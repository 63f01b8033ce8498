-- ===== src/Highway/Encode.antt =====
-- `HighwayCodec::encode` of ricq/src/client/highway/codec.rs.
use ricq.Base.{◌%◌, ◌^◌, length}
use ricq.Wire.{Wire}
use ricq.Binary.Writer.{PacketWriter, ◌>>◌, put_u8, put_u32, put_slice}
use ricq.Highway.{HighwayFrame}

unfoldable pub encode : ⦃w : Wire⦄ → HighwayFrame → PacketWriter
encode item = do
  put_u8 40
  put_u32 (length item.head % 2 ^ 32)
  put_u32 (length item.body % 2 ^ 32)
  put_slice item.head
  put_slice item.body
  put_u8 41
