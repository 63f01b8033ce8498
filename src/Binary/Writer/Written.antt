-- ===== src/Binary/Writer/Written.antt =====
-- Writers that append some bytes whatever the buffer holds, and how they are put together.
use ricq.Base.{ℕ, ◌≡◌, List, [], length}
use ricq.Wire.{Wire}
use ricq.Crypto.QqTea.RoundTrip.{qqtea_encrypt_returns}
use ricq.Binary.Writer.{
  PacketWriter, ◌>>◌, put_slice, write_bytes_short, write_string, write_short_lv,
}
use ricq.Binary.Writer.{write_tlv_limited_size, encrypt_and_write, with_written}
use ricq.Binary.Writer.Writes.{
  Writes, Writes->>, Writes-put_slice, Writes-bytes_short, Writes-string, Writes-short_lv,
  Writes-limited_size, Writes-encrypt,
}

pub record Written (w : PacketWriter) : Type 0 where
  pub bytes : List ℕ
  pub writes : Writes w bytes

pub Written-put_slice : (bytes : List ℕ) → Written (put_slice bytes)
Written-put_slice bytes = record { bytes = bytes; writes = Writes-put_slice bytes }

pub Written->> : {v w : PacketWriter} → Written v → Written w → Written (v >> w)
Written->> a b = record { bytes = _; writes = Writes->> a.writes b.writes }

-- The bytes of the first writer are what the second one is given.
pub Written-with_written :
    {v : PacketWriter} {f : List ℕ → PacketWriter}
    → Written v
    → ((bytes : List ℕ) → Written (f bytes))
    → Written (with_written v f)
Written-with_written {f = f} a b = record {
  bytes = (b a.bytes).bytes;
  writes = record { onto = λ buf. rw (a.writes.onto []) ((b a.bytes).writes.onto buf) };
}

module _ ⦃w : Wire⦄ where
  pub Written-bytes_short : (bytes : List ℕ) → Written (write_bytes_short bytes)
  Written-bytes_short bytes = record { bytes = _; writes = Writes-bytes_short bytes }

  pub Written-string : (v : List ℕ) → Written (write_string v)
  Written-string v = record { bytes = _; writes = Writes-string v }

  pub Written-short_lv : {body : PacketWriter} → Written body → Written (write_short_lv body)
  Written-short_lv a = record { bytes = _; writes = Writes-short_lv a.writes }

  pub Written-limited_size :
      (bytes : List ℕ) (limit : ℕ) → Written (write_tlv_limited_size bytes limit)
  Written-limited_size bytes limit = record { bytes = _; writes = Writes-limited_size bytes limit }

  -- A key of sixteen bytes encrypts.
  pub Written-encrypt :
      (filling : ℕ → List ℕ) (key bytes : List ℕ)
      → length key ≡ 16
      → Written (encrypt_and_write filling key bytes)
  Written-encrypt filling key bytes k =
      let (cipher_text, e) = qqtea_encrypt_returns filling bytes key k in
      record { bytes = cipher_text; writes = Writes-encrypt filling key bytes e }
