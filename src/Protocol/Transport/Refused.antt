-- ===== src/Protocol/Transport/Refused.antt =====
-- The packets that `decode_packet` of ricq-core/src/protocol/transport.rs refuses by their frame.
use ricq.Base.{
  ℕ, ◌+◌, ◌%◌, ◌^◌, ◌<◌, ◌≡◌, ◌≢◌, arith, List, ◌++◌, length, Bool-cases, inl, inr, if◌then◌else◌,
  ◌==◌,
}
use ricq.Base.{ne→==, lt→ltb}
use ricq.Base.Decimal.RoundTrip.{InRange}
use ricq.Base.Int.{ℤ}
use ricq.Wire.{Wire}
use ricq.Result.{Result, err, packet_dropped, session_expired, unsuccessful_ret_code}
use ricq.Binary.Reader.{usize_sub, as_usize}
use ricq.Binary.Reader.ReadBack.{get_be-append}
use ricq.Protocol.Packet.{PacketType, EncryptType}
use ricq.Protocol.Transport.{Transport}
use ricq.Protocol.Transport.Encoded.{Sealed}
use ricq.Protocol.Transport.Frame.{
  SsoFrame, IsSsoFrame, sso_frame, read_sso_head-sso_head, decode_sso_frame-sso_frame,
}
use ricq.Protocol.Transport.Decoded.{server_head, addressed, decode_packet-server_head}
use ricq.Protocol.Transport.Decode.{expired_code, check_ret_code, decode_sso_frame, decode_packet}

module _ ⦃w : Wire⦄ where
  refusal :
      (ret_code : ℕ)
      → ret_code ≢ 0
      → check_ret_code ret_code
        ≡ err (if ret_code == expired_code then session_expired else unsuccessful_ret_code ret_code)
  unfolding check_ret_code
  refusal ret_code h =
      rw (ne→== ret_code 0 h)
        (elim (Bool-cases (ret_code == expired_code)) [ inl e ↦ rw e | inr e ↦ rw e ])

  -- A packet of a server whose frame is well formed and has another code than zero is an error and never
  -- a packet: the session has expired for the code -10008, and for any other code the error carries it.
  pub decode_packet-refused :
      (inflate : List ℕ → Result (List ℕ)) (t : Transport) (kind : PacketType) (enc : EncryptType)
      (z : ℕ) (uin : ℤ) (f : SsoFrame) (sent : List ℕ)
      → InRange uin
      → IsSsoFrame f
      → f.ret_code ≢ 0
      → Sealed t enc (sso_frame f) sent
      → decode_packet inflate t (server_head kind enc z uin ++ sent)
        ≡ err (
            if f.ret_code == expired_code
            then session_expired
            else unsuccessful_ret_code f.ret_code)
  decode_packet-refused inflate t kind enc z uin f sent h g n s = rw (
    decode_packet-server_head inflate t kind enc z uin (sso_frame f) sent h s,
    decode_sso_frame-sso_frame inflate f (addressed kind enc uin) g,
    read_sso_head-sso_head f (addressed kind enc uin) g,
    refusal f.ret_code n,
  )

  -- A frame that is cut off within its head, the number of which counts all of it, is dropped.
  pub decode_packet-dropped :
      (inflate : List ℕ → Result (List ℕ)) (t : Transport) (kind : PacketType) (enc : EncryptType)
      (z : ℕ) (uin : ℤ) (n : ℕ) (part sent : List ℕ)
      → InRange uin
      → n + 4 < 2 ^ 31
      → length part < n
      → Sealed t enc (w.be 4 (n + 4) ++ part) sent
      → decode_packet inflate t (server_head kind enc z uin ++ sent) ≡ err packet_dropped
  unfolding decode_sso_frame
  decode_packet-dropped inflate t kind enc z uin n part sent h g cut s =
      let back : (n + 4) % 256 ^ 4 ≡ n + 4 = omega arith in
      let size : usize_sub (as_usize (n + 4)) 4 ≡ n = ground arith in
      rw (
        decode_packet-server_head inflate t kind enc z uin (w.be 4 (n + 4) ++ part) sent h s,
        get_be-append 4 (n + 4) part,
        back,
        size,
        lt→ltb (length part) n cut,
      )
