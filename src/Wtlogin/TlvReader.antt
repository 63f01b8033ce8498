-- ===== src/Wtlogin/TlvReader.antt =====
-- ricq-core/src/command/wtlogin/tlv_reader.rs: what the entries of a login response hold. A map from
-- domains to bytes is a function, as in the keys of a login.
pub mod Domains
pub mod Tickets
use ricq.Base.{
  ℕ, zero, suc, List, [], ◌∷◌, ◌++◌, length, Option, none, some, Bool, true, false, ◌&&◌, ◌==◌,
}
use ricq.Base.{if◌then◌else◌, same_bytes}
use ricq.Wire.{Wire}
use ricq.Result.{Result, ok, err, panic, and_then, map_ok}
use ricq.HashMap.{HashMap, get}
use ricq.Crypto.QqTea.{qqtea_decrypt}
use ricq.Binary.Reader.{
  Reader, ◌>>=◌, ◌>>◌, pure, get_u8, get_u16, get_i32, advance, read_bytes_short, read_string_short,
  read_string_limit, read_tlv_map,
}

pub record T161 : Type 0 where
  pub rollback_sig : Option (List ℕ)

pub record T113 : Type 0 where
  pub uin : ℕ

pub record T125 : Type 0 where
  pub open_id : List ℕ
  pub open_key : List ℕ

pub record T11A : Type 0 where
  pub face : ℕ
  pub gender : ℕ
  pub age : ℕ
  pub nick : List ℕ

pub record T199 : Type 0 where
  pub open_id : List ℕ
  pub pay_token : List ℕ

pub record T200 : Type 0 where
  pub pf : List ℕ
  pub pf_key : List ℕ

abbrev pub StringMap : Type 0
StringMap = List ℕ → Option (List ℕ)

pub record T512 : Type 0 where
  pub ps_key_map : StringMap
  pub pt4_token_map : StringMap

pub record T531 : Type 0 where
  pub a1 : List ℕ
  pub no_pic_sig : List ℕ

-- `HashMap::insert`
abbrev pub set : List ℕ → List ℕ → StringMap → StringMap
set key value m k = if same_bytes key k then some value else m k

-- A value is put in only if there is one.
unfoldable pub set_not_empty : List ℕ → List ℕ → StringMap → StringMap
set_not_empty key [] m = m
set_not_empty key (b ∷ value) m = set key (b ∷ value) m

-- What a reader makes of a buffer; the bytes that it leaves are dropped.
abbrev pub run {ℓ} : {A : Type ℓ} → Reader A → List ℕ → Result A
run reader bytes = map_ok (λ p. p.0) (reader bytes)

-- `Option::expect`
abbrev pub expect {ℓ} : {A : Type ℓ} → Option A → Result A
expect none = panic
expect (some a) = ok a

abbrev pub is_some : Option (List ℕ) → Bool
is_some none = false
is_some (some v) = true

abbrev pub contains_key : ℕ → HashMap → Bool
contains_key k m = is_some (get k m)

-- A key is removed once, and what is left of the map is dropped: a removal is a lookup.
unfoldable pub split_t531 : HashMap → Result T531
split_t531 m =
    if contains_key 0x16a m && (contains_key 0x16a m && contains_key 0x10c m)
    then and_then (expect (get 0x106 m)) (λ t106. and_then (expect (get 0x10c m)) (λ t10c.
      and_then (expect (get 0x16a m))
        (λ t16a. ok (record { a1 = t106 ++ t10c; no_pic_sig = t16a }))))
    else ok (record { a1 = []; no_pic_sig = [] })

unfoldable pub select : Option (List ℕ) → List ℕ → List ℕ
select none b = b
select (some a) b = a

module _ ⦃w : Wire⦄ where
  unfoldable pub decode_t161 : List ℕ → Result T161
  decode_t161 = run do advance 2; m ← read_tlv_map 2; pure (record { rollback_sig = get 0x172 m })

  unfoldable pub decode_t119 : List ℕ → List ℕ → Result HashMap
  decode_t119 bytes ek = and_then (qqtea_decrypt bytes ek) (run do advance 2; read_tlv_map 2)

  unfoldable pub decode_t113 : List ℕ → Result T113
  decode_t113 = run do uin ← get_i32; pure (record { uin = uin })

  unfoldable pub read_t125 : List ℕ → Result T125
  read_t125 = run do
    open_id ← read_bytes_short
    open_key ← read_bytes_short
    pure (record { open_id = open_id; open_key = open_key })

  unfoldable pub read_t11a : List ℕ → Result T11A
  read_t11a = run do
    face ← get_u16
    age ← get_u8
    gender ← get_u8
    limit ← get_u8
    nick ← read_string_limit limit
    pure (record { face = face; gender = gender; age = age; nick = nick })

  unfoldable pub read_t199 : List ℕ → Result T199
  read_t199 = run do
    open_id ← read_bytes_short
    pay_token ← read_bytes_short
    pure (record { open_id = open_id; pay_token = pay_token })

  unfoldable pub read_t200 : List ℕ → Result T200
  read_t200 = run do
    pf ← read_bytes_short
    pf_key ← read_bytes_short
    pure (record { pf = pf; pf_key = pf_key })

  -- The loop over the domains, with the maps so far.
  unfoldable pub read_domains : ℕ → T512 → Reader T512
  read_domains zero maps = pure maps
  read_domains (suc left) maps = do
    domain ← read_string_short
    ps_key ← read_bytes_short
    ps4_token ← read_bytes_short
    read_domains left (record {
      ps_key_map = set_not_empty domain ps_key maps.ps_key_map;
      pt4_token_map = set_not_empty domain ps4_token maps.pt4_token_map;
    })

  unfoldable pub read_t512 : List ℕ → Result T512
  read_t512 = run do
    length ← get_u16
    read_domains length (record { ps_key_map = λ k. none; pt4_token_map = λ k. none })

  unfoldable pub read_t531 : List ℕ → Result T531
  read_t531 bytes = and_then (run (read_tlv_map 2) bytes) split_t531
