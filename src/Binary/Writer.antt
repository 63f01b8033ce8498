-- ===== src/Binary/Writer.antt =====
-- ricq-core/src/binary/binary_writer.rs and packet_writer.rs. A writer takes the buffer's bytes and
-- returns them with what it wrote, or panics; `put_slice` and the `put_` methods append.
pub mod Writes
pub mod Written
use ricq.Base.{ℕ, zero, suc, ◌+◌, ◌-◌, ◌%◌, ◌^◌, Bool, List, [], ◌∷◌, ◌++◌, length, take, drop}
use ricq.Base.{Option, none, some, leb, ltb, if◌then◌else◌}
use ricq.Wire.{Wire}
use ricq.Result.{Result, ok, and_then, map_ok}
use ricq.Crypto.QqTea.{qqtea_encrypt}

abbrev pub PacketWriter : Type 0
PacketWriter = List ℕ → Result (List ℕ)

-- One writer and then the other, as `PacketAppender::append` joins them.
infixl 5 ◌>>◌
abbrev pub ◌>>◌ : PacketWriter → PacketWriter → PacketWriter
◌>>◌ first second buf = and_then (first buf) second

abbrev pub put_slice : List ℕ → PacketWriter
put_slice bytes buf = ok (buf ++ bytes)

abbrev pub put_u8 : ℕ → PacketWriter
put_u8 n = put_slice (n % 2 ^ 8 ∷ [])

-- `if let Some(w) = w { w.write(buf) }`
unfoldable pub write_option : Option PacketWriter → PacketWriter
write_option none buf = ok buf
write_option (some w) buf = w buf

-- What a writer writes to an empty buffer goes to another writer.
abbrev pub with_written : PacketWriter → (List ℕ → PacketWriter) → PacketWriter
with_written w f buf = and_then (w []) (λ bytes. f bytes buf)

-- A slice of the buffer overwritten in place: `buf[start..start + bytes.len()]`.
abbrev pub overwrite : ℕ → List ℕ → List ℕ → List ℕ
overwrite start bytes buf = take start buf ++ (bytes ++ drop (start + length bytes) buf)

module _ ⦃w : Wire⦄ where
  abbrev pub put_u16 : ℕ → PacketWriter
  put_u16 n = put_slice (w.be 2 n)

  abbrev pub put_u32 : ℕ → PacketWriter
  put_u32 n = put_slice (w.be 4 n)

  abbrev pub put_u64 : ℕ → PacketWriter
  put_u64 n = put_slice (w.be 8 n)

  unfoldable pub write_bytes_short : List ℕ → PacketWriter
  write_bytes_short bytes = do put_u16 (length bytes % 2 ^ 16); put_slice bytes

  unfoldable pub write_int_lv_packet : ℕ → List ℕ → PacketWriter
  write_int_lv_packet offset bytes = do put_u32 ((length bytes + offset) % 2 ^ 32); put_slice bytes

  unfoldable pub write_string : List ℕ → PacketWriter
  write_string v = do put_u32 ((length v + 4) % 2 ^ 32); put_slice v

  pub uni_head : List ℕ → List ℕ → List ℕ → PacketWriter
  uni_head command_name session_id extra_data = do
    write_string command_name
    put_u32 8
    put_slice session_id
    if leb (length extra_data) 0
        then put_u32 0x04
        else do put_u32 ((length extra_data + 4) % 2 ^ 32); put_slice extra_data

  unfoldable pub write_uni_packet : List ℕ → List ℕ → List ℕ → List ℕ → PacketWriter
  unfolding uni_head
  write_uni_packet command_name session_id extra_data body =
      with_written (uni_head command_name session_id extra_data) λ w1. do
        put_u32 ((length w1 + 4) % 2 ^ 32)
        put_slice w1
        put_u32 ((length body + 4) % 2 ^ 32)
        put_slice body

  unfoldable pub write_tlv_limited_size : List ℕ → ℕ → PacketWriter
  write_tlv_limited_size bytes limit =
      if leb (length bytes) limit
      then write_bytes_short bytes
      else write_bytes_short (take limit bytes)

  -- The length is written as 0 first, and patched when the body stands behind it.
  unfoldable pub write_short_lv : PacketWriter → PacketWriter
  write_short_lv body buf =
      let len_start = length buf in
      let buf' = buf ++ w.be 2 0 in
      let body_start = length buf' in
      map_ok (λ buf''. overwrite len_start (w.be 2 ((length buf'' - body_start) % 2 ^ 16)) buf'')
        (body buf')

  -- A key that the cipher
  -- does not take panics.
  unfoldable pub encrypt_and_write : (ℕ → List ℕ) → List ℕ → List ℕ → PacketWriter
  encrypt_and_write filling key bytes buf =
      map_ok (λ ed. buf ++ ed) (qqtea_encrypt filling bytes key)

-- `CounterWriter`: how many writers were appended, and all of them in order.
pub record CounterWriter : Type 0 where
  pub count : ℕ
  pub writer : PacketWriter

unfoldable pub counter_default : CounterWriter
counter_default = record { count = 0; writer = λ buf. ok buf }

infixl 5 ◌▸◌ ◌▸?◌
unfoldable pub ◌▸◌ : CounterWriter → PacketWriter → CounterWriter
c ▸ w = record { count = c.count + 1; writer = c.writer >> w }

unfoldable pub ◌▸?◌ : CounterWriter → Option PacketWriter → CounterWriter
c ▸? none = record { count = c.count + 0; writer = c.writer >> write_option none }
c ▸? some w = record { count = c.count + 1; writer = c.writer >> write_option (some w) }
