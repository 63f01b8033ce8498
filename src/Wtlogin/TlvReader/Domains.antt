-- ===== src/Wtlogin/TlvReader/Domains.antt =====
-- `read_t512` of ricq-core/src/command/wtlogin/tlv_reader.rs on domains that were written.
use ricq.Base.{
  ℕ, ◌%◌, ◌^◌, ◌<◌, ◌≡◌, refl, arith, ap, ◌∙◌, List, [], ◌∷◌, ◌++◌, All, length, append_assoc,
}
use ricq.Base.{Option, none, some, if◌then◌else◌, same_bytes, Bool-cases, inl, inr}
use ricq.Wire.{Wire}
use ricq.Utf8.{IsText}
use ricq.Result.{ok}
use ricq.Binary.Reader.{read_string_short}
use ricq.Binary.Reader.ReadBack.{get_be-append, copy_to_bytes-append, read_bytes_short-append}
use ricq.Wtlogin.TlvReader.{StringMap, T512, set_not_empty, read_domains, read_t512}

pub record Domain : Type 0 where
  pub name : List ℕ
  pub ps_key : List ℕ
  pub ps4_token : List ℕ

-- A name that is text, and lengths of two bytes.
pub record IsDomain (d : Domain) : Type 0 where
  pub name_text : IsText d.name
  pub name_fits : length d.name < 2 ^ 16
  pub key_fits : length d.ps_key < 2 ^ 16
  pub token_fits : length d.ps4_token < 2 ^ 16

-- The value, unless it is empty, of the last domain with this name.
abbrev pub first_some : Option (List ℕ) → Option (List ℕ) → Option (List ℕ)
first_some (some v) o = some v
first_some none o = o

abbrev pub not_empty : List ℕ → Option (List ℕ)
not_empty [] = none
not_empty (b ∷ v) = some (b ∷ v)

abbrev pub last_value : (Domain → List ℕ) → List ℕ → List Domain → Option (List ℕ)
last_value value k [] = none
last_value value k (d ∷ ds) =
    first_some (last_value value k ds) (if same_bytes d.name k then not_empty (value d) else none)

abbrev after : T512 → List Domain → T512
after maps [] = maps
after maps (d ∷ ds) =
    after
      (record {
        ps_key_map = set_not_empty d.name d.ps_key maps.ps_key_map;
        pt4_token_map = set_not_empty d.name d.ps4_token maps.pt4_token_map;
      })
      ds

set_not_empty_lem :
    (key value k : List ℕ) (m : StringMap)
    → set_not_empty key value m k
      ≡ first_some (if same_bytes key k then not_empty value else none) (m k)
unfolding set_not_empty
set_not_empty_lem key [] k m = elim (Bool-cases (same_bytes key k)) [ inl e ↦ rw e | inr e ↦ rw e ]
set_not_empty_lem key (b ∷ value) k m = elim (Bool-cases (same_bytes key k)) [
  | inl e ↦ rw e
  | inr e ↦ rw e
]

first_some_assoc :
    (a b c : Option (List ℕ)) → first_some a (first_some b c) ≡ first_some (first_some a b) c
first_some_assoc (some v) b c = refl
first_some_assoc none b c = refl

key-after :
    (k : List ℕ) (ds : List Domain) (maps : T512)
    → (after maps ds).ps_key_map k
      ≡ first_some (last_value (λ d. d.ps_key) k ds) (maps.ps_key_map k)
key-after k [] maps = refl
key-after k (d ∷ ds) maps =
    key-after k ds _
    ∙ ap (first_some (last_value (λ e. e.ps_key) k ds))
        (set_not_empty_lem d.name d.ps_key k maps.ps_key_map)
    ∙ first_some_assoc (last_value (λ e. e.ps_key) k ds) _ _

token-after :
    (k : List ℕ) (ds : List Domain) (maps : T512)
    → (after maps ds).pt4_token_map k
      ≡ first_some (last_value (λ d. d.ps4_token) k ds) (maps.pt4_token_map k)
token-after k [] maps = refl
token-after k (d ∷ ds) maps =
    token-after k ds _
    ∙ ap (first_some (last_value (λ e. e.ps4_token) k ds))
        (set_not_empty_lem d.name d.ps4_token k maps.pt4_token_map)
    ∙ first_some_assoc (last_value (λ e. e.ps4_token) k ds) _ _

module _ ⦃w : Wire⦄ where
  abbrev pub short_bytes : List ℕ → List ℕ
  short_bytes v = w.be 2 (length v % 2 ^ 16) ++ v

  abbrev pub domains_bytes : List Domain → List ℕ
  domains_bytes [] = []
  domains_bytes (d ∷ ds) =
      short_bytes d.name ++ (short_bytes d.ps_key ++ (short_bytes d.ps4_token ++ domains_bytes ds))

  read_string_short-append :
      (v rest : List ℕ)
      → length v < 2 ^ 16
      → IsText v
      → read_string_short (short_bytes v ++ rest) ≡ ok (v, rest)
  unfolding read_string_short
  read_string_short-append v rest h t =
      let size : length v % 2 ^ 16 % 256 ^ 2 ≡ length v = omega arith in
      rw
        (
          append_assoc (w.be 2 (length v % 2 ^ 16)) v rest,
          get_be-append 2 (length v % 2 ^ 16) (v ++ rest),
          size,
          copy_to_bytes-append (length v) v rest refl,
        )
        (ap (λ t. ok (t, rest)) t)

  read_domains-domains_bytes :
      (ds : List Domain) (maps : T512) (rest : List ℕ)
      → All IsDomain ds
      → read_domains (length ds) maps (domains_bytes ds ++ rest) ≡ ok (after maps ds, rest)
  unfolding read_domains
  read_domains-domains_bytes [] maps rest h = refl
  read_domains-domains_bytes (d ∷ ds) maps rest h =
      let tail = domains_bytes ds ++ rest in
      let token = short_bytes d.ps4_token in
      rw
        (
          append_assoc (short_bytes d.name) (short_bytes d.ps_key ++ (token ++ domains_bytes ds))
              rest,
          append_assoc (short_bytes d.ps_key) (token ++ domains_bytes ds) rest,
          append_assoc token (domains_bytes ds) rest,
          read_string_short-append d.name (short_bytes d.ps_key ++ (token ++ tail)) h.0.name_fits
              h.0.name_text,
          read_bytes_short-append d.ps_key (token ++ tail) h.0.key_fits,
          read_bytes_short-append d.ps4_token tail h.0.token_fits,
        )
        (read_domains-domains_bytes ds _ rest h.1)

  -- For every list of fewer than 2 ^ 16 domains, each with a text for its name and lengths that fit two
  -- bytes, written one behind the other behind their number, and whatever follows them, `read_t512`
  -- returns maps in which every name has the last value that is not empty of the domains with that
  -- name, and a name without one is missing.
  pub read_t512-domains_bytes :
      (ds : List Domain) (rest : List ℕ)
      → All IsDomain ds
      → length ds < 2 ^ 16
      → (maps : T512) × (read_t512 (w.be 2 (length ds) ++ (domains_bytes ds ++ rest)) ≡ ok maps)
        × ((k : List ℕ) → maps.ps_key_map k ≡ last_value (λ d. d.ps_key) k ds)
        × ((k : List ℕ) → maps.pt4_token_map k ≡ last_value (λ d. d.ps4_token) k ds)
  unfolding read_t512
  read_t512-domains_bytes ds rest h s =
      let size : length ds % 256 ^ 2 ≡ length ds = omega arith in
      let none_yet : T512 = record { ps_key_map = λ k. none; pt4_token_map = λ k. none } in
      (
        after none_yet ds,
        rw (
          get_be-append 2 (length ds) (domains_bytes ds ++ rest),
          size,
          read_domains-domains_bytes ds none_yet rest h,
        ),
        λ k. key-after k ds none_yet ∙ whole (last_value (λ d. d.ps_key) k ds),
        λ k. token-after k ds none_yet ∙ whole (last_value (λ d. d.ps4_token) k ds),
      )
    where
      whole : (o : Option (List ℕ)) → first_some o none ≡ o
      whole none = refl
      whole (some v) = refl
