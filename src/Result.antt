-- ===== src/Result.antt =====
-- error.rs: `RQResult`. A panic, which no caller catches, is the third outcome. An error that wraps
-- one of another package carries that package's message; a message is the list of its bytes.
use ricq.Base.{ℕ, ◌≡◌, refl, List, [], ◌∷◌, ◌≢◌, ◌⊎◌, inl, inr}
use Prim.Native.Char.{code}
use Prim.Native.String.{String}

-- The bytes of an ASCII text of the source.
abbrev pub codes : String → List ℕ
codes String.[] = []
codes (String.◌∷◌ c s) = code c ∷ codes s

pub data RqError : Type 0 where
  other decode pb_decode empty_field utf8 : List ℕ → RqError
  command_name_mismatch : List ℕ → List ℕ → RqError
  timeout network : RqError
  jce io : List ℕ → RqError
  unknown_flag : ℕ → RqError
  unknown_encrypt_type invalid_packet_type invalid_encrypt_type : RqError
  packet_dropped session_expired : RqError
  unsuccessful_ret_code : ℕ → RqError
  token_login_failed get_file_count_failed : RqError
  get_file_list_failed crypto_invalid_length serde block_unpad spki : List ℕ → RqError
  qimei_error : ℕ → RqError
  base64_decode rsa : List ℕ → RqError

pub data Result {ℓ} (A : Type ℓ) : Type ℓ where
  ok : A → Result A
  err : RqError → Result A
  panic : Result A

abbrev pub and_then {ℓ κ} : {A : Type ℓ} {B : Type κ} → Result A → (A → Result B) → Result B
and_then (ok a) f = f a
and_then (err e) f = err e
and_then panic f = panic

abbrev pub map_ok {ℓ κ} : {A : Type ℓ} {B : Type κ} → (A → B) → Result A → Result B
map_ok f (ok a) = ok (f a)
map_ok f (err e) = err e
map_ok f panic = panic

pub ok-ne-panic {ℓ} : {A : Type ℓ} {r : Result A} {a : A} → r ≡ ok a → r ≢ panic
ok-ne-panic h k = cc

pub Result-cases {ℓ} :
    {A : Type ℓ} (r : Result A)
    → ((a : A) × (r ≡ ok a)) ⊎ ((e : RqError) × (r ≡ err e)) ⊎ (r ≡ panic)
Result-cases (ok a) = inl (a, refl)
Result-cases (err e) = inr (inl (e, refl))
Result-cases panic = inr (inr refl)

pub ok-injective {ℓ} : {A : Type ℓ} {a b : A} → ok a ≡ ok b → a ≡ b
ok-injective h = cc
