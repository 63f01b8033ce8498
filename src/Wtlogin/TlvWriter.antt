-- ===== src/Wtlogin/TlvWriter.antt =====
-- ricq-core/src/command/wtlogin/tlv_writer.rs: one writer for each entry that a login packet may
-- have. What a writer draws from the random generator, reads off the clock or gets of the package
-- `md5` is an argument of it, before those of the source.
pub mod Early
pub mod Middle
pub mod Late
pub mod Domains
pub mod Entries
pub mod Tags
pub mod Sealed
use ricq.Base.{ℕ, ◌*◌, ◌^◌, bit_or, Bool, if◌then◌else◌}
use ricq.Wire.{Wire}
use ricq.Binary.Writer.{PacketWriter, ◌>>◌, put_u16, write_short_lv}

unfoldable pub tlv : ⦃w : Wire⦄ → ℕ → PacketWriter → PacketWriter
tlv tag body_writer = do put_u16 tag; write_short_lv body_writer

abbrev pub flag : Bool → ℕ
flag b = if b then 1 else 0

-- `1 << 24 & 0xFF000000`, and nothing else.
unfoldable pub guid_flag : ℕ
guid_flag = bit_or (bit_or 0 (2 ^ 24)) 0
