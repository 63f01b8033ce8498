-- ===== src/Runs/Response.antt =====
-- Runs of the models of the responses to a login.
use ricq.Base.{
  ℕ, zero, suc, ◌+◌, ◌<◌, ◌≡◌, refl, arith, List, [], ◌∷◌, ◌++◌, none, some, length, All,
  same_bytes, false, replicate,
}
use ricq.Wire.BigEndian.{big_endian}
use ricq.Result.{ok, codes}
use ricq.HashMap.{HashMap, get}
use ricq.Utf8.{IsAscii-IsText}
use ricq.Crypto.QqTea.{qqtea_encrypt, qqtea_decrypt}
use ricq.Crypto.QqTea.RoundTrip.{qqtea_decrypt-qqtea_encrypt, qqtea_encrypt_shape}
use ricq.Binary.Reader.TlvMap.{IsEntry, tlvs_bytes}
use ricq.Engine.Login.{Secrets, process_login_response}
use ricq.Engine.LoginKept.{ticket, identity, process_login_response-granted}
use ricq.Wtlogin.TlvReader.Domains.{Domain, IsDomain}
use ricq.Wtlogin.Response.{LoginSuccess, LoginResponse, success, device_lock_login}
use ricq.Wtlogin.Response.Work.{Hashing}
use ricq.Wtlogin.Decoder.{decode_login_response}
use ricq.Wtlogin.Decoder.Accepted.{
  reply, map_of, keys_of, keys_with, process_login_response-accepted,
}
use ricq.Runs.Crypto.{filling_220, filling_220-IsFilling, sevens, hello}
use ricq.Runs.Binary.{entry}
use ricq.Runs.Login.{some_engine}

abbrev some_secrets : Secrets
some_secrets = record { random_string = hello; md5 = λ bytes. bytes }

abbrev asked_again : LoginResponse
asked_again = device_lock_login (record { t104 = some hello; t402 = some sevens; rand_seed = none })

process_login_response-granted_example :
    (identity (process_login_response some_secrets asked_again some_engine) ≡ identity some_engine)
    × (ticket (process_login_response some_secrets asked_again some_engine) ≡ ticket some_engine)
process_login_response-granted_example =
    process_login_response-granted some_secrets asked_again some_engine

-- The decrypted entries, and what the server sends of them.
abbrev inner : List (ℕ × List ℕ)
inner = (0x143, hello) ∷ (0x305, sevens) ∷ []

sealed_inner :
    (sealed : List ℕ) × (qqtea_encrypt filling_220 (big_endian.be 2 2 ++ tlvs_bytes inner) sevens
      ≡ ok sealed)
    × (qqtea_decrypt sealed sevens ≡ ok (big_endian.be 2 2 ++ tlvs_bytes inner))
sealed_inner =
    qqtea_decrypt-qqtea_encrypt filling_220 (big_endian.be 2 2 ++ tlvs_bytes inner) sevens
      filling_220-IsFilling (search arith) refl

abbrev sealed_entry : List (ℕ × List ℕ)
sealed_entry = (0x119, sealed_inner.0) ∷ []

sealed_entry-IsEntry : All IsEntry sealed_entry
sealed_entry-IsEntry =
    let (size, bytes) =
      qqtea_encrypt_shape filling_220 (big_endian.be 2 2 ++ tlvs_bytes inner) sevens sealed_inner.0
        filling_220-IsFilling sealed_inner.1 in
    (entry 0x119 sealed_inner.0 (omega arith) (λ e. omega (arith, e)) (omega (arith, size)), tt)

inner-IsEntry : All IsEntry inner
inner-IsEntry = (
  entry 0x143 hello (omega arith) (λ e. omega (arith, e)) (omega arith),
  (entry 0x305 sevens (omega arith) (λ e. omega (arith, e)) (omega arith), tt),
)

process_login_response-accepted_example :
    (r : LoginSuccess) × (decode_login_response 1000 ok some_engine (reply 9 0 0 sealed_entry)
      ≡ ok (success r))
    × (keys_of (process_login_response some_secrets (success r) some_engine)
        ≡ keys_with 1000 (map_of sealed_entry) (map_of inner) none (keys_of some_engine))
unfolding get ricq.HashMap.insert ricq.HashMap.erase
process_login_response-accepted_example =
    process_login_response-accepted some_secrets 1000 ok some_engine 9 0 2 sealed_entry inner
      sealed_inner.0 none none none sealed_entry-IsEntry inner-IsEntry refl sealed_inner.2 refl refl
      refl

abbrev tickets : List (ℕ × List ℕ)
tickets = (0x16a, hello) ∷ (0x10c, sevens) ∷ []

tickets-IsEntry : All IsEntry tickets
tickets-IsEntry = (
  entry 0x16a hello (omega arith) (λ e. omega (arith, e)) (omega arith),
  (entry 0x10c sevens (omega arith) (λ e. omega (arith, e)) (omega arith), tt),
)

abbrev two_domains : List Domain
two_domains =
    record { name = codes "qun.qq.com"; ps_key = hello; ps4_token = [] }
    ∷ record { name = codes "qun.qq.com"; ps_key = []; ps4_token = sevens }
    ∷ []

two_domains-IsDomain : All IsDomain two_domains
two_domains-IsDomain =
    let ascii = IsAscii-IsText (codes "qun.qq.com") (search arith) in
    (
      record {
        name_text = ascii;
        name_fits = omega arith;
        key_fits = omega arith;
        token_fits = omega arith;
      },
      (
        record {
          name_text = ascii;
          name_fits = omega arith;
          key_fits = omega arith;
          token_fits = omega arith;
        },
        tt,
      ),
    )

abbrev unary : Hashing
unary = record {
  sha256 = λ bytes. bytes;
  from_bytes_be = length;
  to_bytes_be = λ n. replicate n 1;
  elapsed = 1;
}

missed :
    (m : ℕ)
    → m < 3
    → same_bytes (unary.sha256 (unary.to_bytes_be (2 + m))) (1 ∷ 1 ∷ 1 ∷ 1 ∷ 1 ∷ []) ≡ false
unfolding same_bytes
missed zero h = refl
missed (suc zero) h = refl
missed (suc (suc zero)) h = refl
missed (suc (suc (suc m))) h = absurd (omega arith)
