-- ===== src/Highway/Decode.antt =====
-- `HighwayCodec::decode` of ricq/src/client/highway/codec.rs: it is given what has arrived so far and
-- leaves in the buffer what it did not take.
use ricq.Base.{ℕ, ◌+◌, ltb, if◌then◌else◌, Option, none, some}
use ricq.Wire.{Wire}
use ricq.Binary.Reader.{Reader, ◌>>=◌, ◌>>◌, pure, remaining, get_u8, get_u32, copy_to_bytes}
use ricq.Highway.{HighwayFrame}

module _ ⦃w : Wire⦄ where
  -- The frame behind the lengths of its head and its body.
  unfoldable pub decode_parts : ℕ → ℕ → Reader (Option HighwayFrame)
  decode_parts head_length body_length = do
    left ← remaining
    if ltb left (head_length + body_length + 1) then pure none else do
      head ← copy_to_bytes head_length
      body ← copy_to_bytes body_length
      get_u8
      pure (some (record { head = head; body = body }))

  unfoldable pub decode : Reader (Option HighwayFrame)
  decode = do
    len ← remaining
    if ltb len 10 then pure none else do
      get_u8
      head_length ← get_u32
      body_length ← get_u32
      decode_parts head_length body_length
