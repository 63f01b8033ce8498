-- ===== src/Wtlogin/Decoder.antt =====
-- ricq-core/src/command/wtlogin/decoder.rs: the packets with the responses. MD5 is an argument.
pub mod Accepted
pub mod Scan
use ricq.Base.{
  ℕ, ◌+◌, ◌-◌, ◌%◌, ◌^◌, List, [], ◌∷◌, ◌++◌, Option, none, some, Bool, true, false, ◌==◌, ltb,
  length, if◌then◌else◌,
}
use ricq.Base.Decimal.{to_string}
use ricq.Base.Int.{ℤ, pos, negsuc}
use ricq.Wire.{Wire}
use ricq.Result.{Result, ok, err, and_then, map_ok, codes, decode}
use ricq.HashMap.{HashMap, get}
use ricq.Binary.Reader.{
  Reader, ◌>>=◌, ◌>>◌, pure, fail, remaining, get_u8, get_u16, get_i32, get_i64, advance,
  copy_to_bytes, read_bytes_short, read_tlv_map, usize_sub,
}
use ricq.Protocol.Transport.Decode.{lift, inside}
use ricq.Engine.{Engine}
use ricq.Wtlogin.TlvReader.{run, contains_key}
use ricq.Wtlogin.Response.{
  LoginResponse, QrcodeState, image_fetch, waiting_for_scan, waiting_for_confirm, timed_out,
  canceled, confirmed,
}
use ricq.Wtlogin.Response.Decode.{required, decode_login}

-- An `i64` from its bit pattern.
abbrev pub signed : ℕ → ℤ
signed n = if ltb n (2 ^ 63) then pos n else negsuc (2 ^ 64 - n - 1)

abbrev pub unknown_error : List ℕ
unknown_error = codes "decode_trans_emp_response unknown error"

-- What the code of a scan says, where it is not zero.
unfoldable pub scan_state : ℕ → Result QrcodeState
scan_state code =
    if code == 0x30
    then ok waiting_for_scan
    else if code == 0x35
    then ok waiting_for_confirm
    else if code == 0x36
    then ok canceled
    else if code == 0x11
    then ok timed_out
    else err (decode (codes "invalid body code"))

unfoldable pub confirmation : ℕ → HashMap → Result QrcodeState
confirmation uin m = and_then (required (codes "missing 0x18") (get 0x18 m)) λ tmp_pwd.
    and_then (required (codes "missing 0x19") (get 0x19 m)) λ tmp_no_pic_sig.
      and_then (required (codes "missing 0x65") (get 0x65 m)) λ tgt_qr.
        and_then (required (codes "missing 0x1e") (get 0x1e m)) λ tgtgt_key. ok (
          confirmed (record {
            uin = signed uin;
            tmp_pwd = tmp_pwd;
            tmp_no_pic_sig = tmp_no_pic_sig;
            tgt_qr = tgt_qr;
            tgtgt_key = tgtgt_key;
          }))

unfoldable pub fetched : Option (List ℕ) → List ℕ → Result QrcodeState
fetched none sig = err (decode unknown_error)
fetched (some image_data) sig = ok (image_fetch (record { image_data = image_data; sig = sig }))

module _ ⦃w : Wire⦄ where
  -- The picture with the code; without the picture the packet is not understood.
  unfoldable pub read_picture : Reader QrcodeState
  read_picture = do
    sig ← read_bytes_short
    get_u16
    m ← read_tlv_map 2
    lift (fetched (get 0x17 m) sig)

  unfoldable pub read_fetch : Reader QrcodeState
  read_fetch = do
    get_u16
    get_i32
    code ← get_u8
    if code == 0 then read_picture else fail (decode (codes "body code: " ++ to_string (pos code)))

  -- What is left of the bytes before the code, behind the first of them.
  unfoldable pub skip_account : ℕ → ℕ → Reader (Unit {0})
  skip_account a_var_len kind =
      if kind == 2
      then get_i64 >> advance ((a_var_len + 2 ^ 16 - 9) % 2 ^ 16)
      else advance (a_var_len - 1)

  -- The bytes before the code, whose number is the first `u16`.
  unfoldable pub skip_head : Reader (Unit {0})
  skip_head = do
    a_var_len ← get_u16
    if a_var_len == 0 then pure tt else (get_u8 >>= skip_account a_var_len)

  unfoldable pub read_confirmed : Reader QrcodeState
  read_confirmed = do uin ← get_i64; get_i32; get_u16; m ← read_tlv_map 2; lift (confirmation uin m)

  unfoldable pub read_scan : Reader QrcodeState
  read_scan = do
    skip_head
    get_i32
    code ← get_u8
    if code == 0 then read_confirmed else lift (scan_state code)

  -- The head of the packet, up to the body; the last byte is no part of the body.
  unfoldable pub read_trans_emp : Reader (ℕ × List ℕ)
  read_trans_emp = do
    advance 5
    get_u8
    get_u16
    cmd ← get_u16
    advance 21
    get_u8
    get_u16
    get_u16
    get_i32
    get_i64
    left ← remaining
    body ← copy_to_bytes (usize_sub left 1)
    pure (cmd, body)

  unfoldable pub decode_trans_emp_response : List ℕ → Result QrcodeState
  decode_trans_emp_response payload =
      if ltb (length payload) 48
      then err (decode (codes "invalid payload length"))
      else and_then (run read_trans_emp payload) λ p.
        if p.0 == 0x31
        then run read_fetch p.1
        else if p.0 == 0x12
        then run read_scan p.1
        else err (decode unknown_error)

  -- The command, the status and the entries.
  unfoldable pub read_login : Reader (ℕ × ℕ × HashMap)
  read_login = do
    sub_command ← get_u16
    status ← get_u8
    get_u16
    tlv_map ← read_tlv_map 2
    pure (sub_command, status, tlv_map)

  unfoldable pub decode_login_response :
      ℕ → (List ℕ → Result (List ℕ)) → Engine → List ℕ → Result LoginResponse
  decode_login_response now work e payload =
      and_then (run read_login payload) λ p. decode_login now work p.1 p.2 e.transport.sig.tgtgt_key

  unfoldable pub decode_exchange_emp_response :
      (List ℕ → List ℕ) → ℕ → (List ℕ → Result (List ℕ)) → Engine → List ℕ → Result LoginResponse
  decode_exchange_emp_response md5 now work e payload = and_then (run read_login payload) λ p.
      if p.1 == 0
      then decode_login now work p.1 p.2
          (if p.0 == 11 then md5 e.transport.sig.d2key else e.transport.sig.tgtgt_key)
      else err (decode (codes "decode_exchange_emp_response status: " ++ to_string (pos p.1)))
