-- ===== src/Msg/Fragment.antt =====
-- `MessageChain::fragment` of ricq-core/src/msg/fragment.rs. A text is the list of its characters; of
-- the other fields of a text, and of an element of another kind, the model has the encoding.
pub mod Content
pub mod Sizes
use ricq.Base.{
  ℕ, zero, suc, ◌+◌, List, [], ◌∷◌, ◌++◌, length, take, drop, Option, none, some, Bool, true, false,
  ltb, leb, if◌then◌else◌,
}

pub record Text : Type 0 where
  pub str : Option (List ℕ)
  pub other_fields : List ℕ

pub data Elem : Type 0 where
  text : Text → Elem
  other_elem : List ℕ → Elem

abbrev pub MessageChain : Type 0
MessageChain = List Elem

-- How many bytes a character has in UTF-8.
unfoldable pub len_utf8 : ℕ → ℕ
len_utf8 c = if ltb c 0x80 then 1 else if ltb c 0x800 then 2 else if ltb c 0x10000 then 3 else 4

unfoldable pub str_len : List ℕ → ℕ
str_len [] = 0
str_len (c ∷ s) = len_utf8 c + str_len s

unfoldable pub str_of : Text → List ℕ
str_of t = unwrapped t.str
  where
    unwrapped : Option (List ℕ) → List ℕ
    unwrapped none = []
    unwrapped (some s) = s

-- `chunks(80)`; there are no more chunks than characters.
unfoldable pub chunks : ℕ → List ℕ → List (List ℕ)
chunks zero s = []
chunks (suc fuel) [] = []
chunks (suc fuel) (c ∷ s) = take 80 (c ∷ s) ∷ chunks fuel (drop 80 (c ∷ s))

-- A chain for each chunk, with nothing but its text.
unfoldable pub text_chains : List (List ℕ) → List MessageChain
text_chains [] = []
text_chains (s ∷ rest) = (text (record { str = some s; other_fields = [] }) ∷ []) ∷ text_chains rest

pub record Fragments : Type 0 where
  pub results : List MessageChain
  pub txt_add : Bool
  pub last : MessageChain

abbrev pub pushed : MessageChain → List MessageChain → List MessageChain
pushed [] results = results
pushed (e ∷ last) results = results ++ ((e ∷ last) ∷ [])

unfoldable pub flush : Fragments → Fragments
flush f = record { results = pushed f.last f.results; txt_add = false; last = [] }

-- `flush` where a condition holds.
unfoldable pub flush_if : Bool → Fragments → Fragments
flush_if true f = flush f
flush_if false f = f

-- A text behind those that are there: a short one is kept, a long one is cut into chains.
unfoldable pub add_text : Text → Fragments → Fragments
add_text t f =
    if ltb (str_len (str_of t)) 80
    then record f { txt_add = true; last = f.last ++ (text t ∷ []) }
    else record (flush f) {
      results = (flush f).results ++ text_chains (chunks (length (str_of t)) (str_of t));
    }

unfoldable pub add_element : Elem → Fragments → Fragments
add_element (text t) f = add_text t (flush_if f.txt_add f)
add_element (other_elem bytes) f = record f { last = f.last ++ (other_elem bytes ∷ []) }

-- One round of the loop.
unfoldable pub round : Elem → Fragments → Fragments
round element f = add_element element (flush_if (leb 4 (length f.last)) f)

unfoldable pub rounds : MessageChain → Fragments → Fragments
rounds [] f = f
rounds (element ∷ rest) f = rounds rest (round element f)

unfoldable pub fragment : MessageChain → List MessageChain
fragment chain =
    (flush (rounds chain (record { results = []; txt_add = false; last = [] }))).results
