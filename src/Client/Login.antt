-- ===== src/Client/Login.antt =====
-- The calls of ricq/src/client/api/login.rs that end with a `LoginResponse`, and `process_login_response` of
-- ricq/src/client/processor/wtlogin.rs. What becomes of a packet that is sent (`send_and_wait`), the service
-- that signs, and the trimming of texts are arguments; no other task changes the engine meanwhile.
pub mod Granted
use ricq.Base.{ℕ, List, [], ◌∷◌, ◌++◌, Option, none, some, true}
use ricq.Base.Int.{ℤ}
use ricq.Wire.{Wire}
use ricq.Result.{Result, ok, err, panic, codes}
use ricq.Protocol.Packet.{Packet}
use ricq.Engine.{Engine}
use ricq.Engine.Token.{Token, load_token}
use ricq.Engine.Login.{Secrets}
use ricq.Engine.Login as Kept
use ricq.Wtlogin.TlvReader.{T11A}
use ricq.Wtlogin.Response.{
  LoginResponse, success, need_captcha, account_frozen, device_locked, too_many_sms_request,
  device_lock_login, unknown_status,
}
use ricq.Wtlogin.Decoder.{decode_login_response, decode_exchange_emp_response}
use ricq.Wtlogin.Builder.{Outside}
use ricq.Wtlogin.Builder.Qrcode.{build_qrcode_login_packet}
use ricq.Wtlogin.Builder.Small.{
  build_device_lock_login_packet, build_sms_request_packet, build_sms_code_submit_packet,
  build_ticket_submit_packet,
}
use ricq.Wtlogin.Builder.Exchange.{build_request_change_sig_packet}
use ricq.Wtlogin.Builder.Login.{build_login_packet}

pub record AccountInfo : Type 0 where
  pub nickname : List ℕ
  pub age : ℕ
  pub gender : ℕ

-- The fields of the client that the calls change, and the accounts of the `Login` events that the handler
-- was told, the last one at the end.
pub record Client : Type 0 where
  pub engine : Engine
  pub account_info : AccountInfo
  pub logins : List ℤ

-- What the calls meet outside.
pub record Network : Type 0 where
  pub out : Outside
  pub secrets : Secrets
  pub work : List ℕ → Result (List ℕ)
  pub send_and_wait : Packet → Result Packet
  pub sign : Engine → List ℕ → Result (List ℕ)
  pub trim : List ℕ → List ℕ

-- A call's result, and the client after it.
abbrev pub Returned : Type 0
Returned = Result LoginResponse × Client

unfoldable pub info_or : Option T11A → AccountInfo → AccountInfo
info_or none a = a
info_or (some info) a = record { nickname = info.nick; age = info.age; gender = info.gender }

unfoldable pub set_account_info : LoginResponse → AccountInfo → AccountInfo
set_account_info (success r) a = info_or r.account_info a
set_account_info (need_captcha r) a = a
set_account_info account_frozen a = a
set_account_info (device_locked r) a = a
set_account_info too_many_sms_request a = a
set_account_info (device_lock_login r) a = a
set_account_info (unknown_status r) a = a

unfoldable pub client_response : Secrets → LoginResponse → Client → Client
client_response secrets resp c =
    let e = Kept.process_login_response secrets resp c.engine in
    record {
      engine = e;
      account_info = set_account_info resp c.account_info;
      logins = c.logins ++ (e.uin ∷ []);
    }

unfoldable pub on_decoded : Network → Client → Result LoginResponse → Returned
on_decoded net c (err e) = (err e, c)
on_decoded net c panic = (panic, c)
on_decoded net c (ok resp) = (ok resp, client_response net.secrets resp c)

unfoldable pub on_answer :
    Network → (Engine → List ℕ → Result LoginResponse) → Client → Result Packet → Returned
on_answer net decode c (err e) = (err e, c)
on_answer net decode c panic = (panic, c)
on_answer net decode c (ok pkt) = on_decoded net c (decode c.engine pkt.body)

-- A packet is built, sent, and its answer decoded and processed.
unfoldable pub request :
    Network
    → (Engine → List ℕ → Result LoginResponse)
    → Client
    → Result (Packet × Engine)
    → Returned
request net decode c (err e) = (err e, c)
request net decode c panic = (panic, c)
request net decode c (ok (pkt, e)) =
    on_answer net decode (record c { engine = e }) (net.send_and_wait pkt)

unfoldable pub signed : Client → Result (List ℕ) → (List ℕ → Returned) → Returned
signed c (err e) next = (err e, c)
signed c panic next = (panic, c)
signed c (ok sign) next = next sign

unfoldable pub with_uin : ℤ → Client → Client
with_uin uin c = record c { engine = record c.engine { uin = uin } }

module _ ⦃w : Wire⦄ where
  unfoldable pub decode : Network → Engine → List ℕ → Result LoginResponse
  decode net = decode_login_response net.out.as_secs net.work

  unfoldable pub qrcode_login : Network → List ℕ → List ℕ → List ℕ → Client → Returned
  qrcode_login net tmp_pwd tmp_no_pic_sig tgt_qr c =
      request net (decode net) c
        (build_qrcode_login_packet net.out tmp_pwd tmp_no_pic_sig tgt_qr c.engine)

  unfoldable pub password_md5_login : Network → ℤ → List ℕ → Client → Returned
  password_md5_login net uin password_md5 c =
      let c' = with_uin uin c in
      signed c' (net.sign c'.engine (codes "810_9")) (λ sign.
        request net (decode net) c' (build_login_packet net.out password_md5 sign true c'.engine))

  unfoldable pub password_login : Network → ℤ → List ℕ → Client → Returned
  password_login net uin password c = password_md5_login net uin (net.out.md5 password) c

  unfoldable pub request_sms : Network → Client → Returned
  request_sms net c = request net (decode net) c (build_sms_request_packet net.out c.engine)

  unfoldable pub submit_sms_code : Network → List ℕ → Client → Returned
  submit_sms_code net code c = signed c (net.sign c.engine (codes "810_7")) (λ sign.
      request net (decode net) c
        (build_sms_code_submit_packet net.out (net.trim code) sign c.engine))

  unfoldable pub submit_ticket : Network → List ℕ → Client → Returned
  submit_ticket net ticket c =
      signed c (net.sign c.engine (codes "810_2")) (λ sign.
        request net (decode net) c (build_ticket_submit_packet net.out ticket sign c.engine))

  unfoldable pub device_lock : Network → Client → Returned
  device_lock net c = request net (decode net) c (build_device_lock_login_packet net.out c.engine)

  unfoldable pub request_change_sig : Network → Option ℕ → Client → Returned
  request_change_sig net main_sig_map c =
      request net (decode_exchange_emp_response net.out.md5 net.out.as_secs net.work) c
        (build_request_change_sig_packet net.out main_sig_map c.engine)

  unfoldable pub token_login : Network → Token → Client → Returned
  token_login net token c =
      request_change_sig net none (record c { engine = load_token token c.engine })
