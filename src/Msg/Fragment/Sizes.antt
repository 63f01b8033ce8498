-- ===== src/Msg/Fragment/Sizes.antt =====
-- How large the fragments of ricq-core/src/msg/fragment.rs are.
use ricq.Base.{
  ℕ, suc, ◌+◌, ◌<◌, ◌≤◌, ◌≡◌, refl, arith, List, [], ◌∷◌, ◌++◌, All, All-append, length,
  length-append, Bool, Bool-cases, true, false, ltb, leb, inl, inr, if◌then◌else◌,
}
use ricq.Msg.Fragment.{
  Text, Elem, text, other_elem, MessageChain, str_len, str_of, chunks, text_chains, Fragments,
  pushed, flush, flush_if, add_text, add_element, round, rounds, fragment,
}

abbrev pub texts : MessageChain → ℕ
texts [] = 0
texts (text t ∷ rest) = suc (texts rest)
texts (other_elem bytes ∷ rest) = texts rest

-- One to four elements, of which at most one is a text.
pub record IsFragment (chain : MessageChain) : Type 0 where
  pub some_element : 1 ≤ length chain
  pub few_elements : length chain ≤ 4
  pub one_text : texts chain ≤ 1

-- What holds between two rounds.
record IsGood (f : Fragments) : Type 0 where
  done : All IsFragment f.results
  not_full : length f.last ≤ 4
  text_noted : texts f.last ≤ (if f.txt_add then 1 else 0)

texts-append : (a b : MessageChain) → texts (a ++ b) ≡ texts a + texts b
texts-append [] b = omega arith
texts-append (text t ∷ a) b = omega (arith, texts-append a b)
texts-append (other_elem bytes ∷ a) b = texts-append a b

at_most_one : (b : Bool) (n : ℕ) → n ≤ (if b then 1 else 0) → n ≤ 1
at_most_one true n h = h
at_most_one false n h = omega arith

pushed-good :
    (last : MessageChain) (results : List MessageChain)
    → All IsFragment results
    → length last ≤ 4
    → texts last ≤ 1
    → All IsFragment (pushed last results)
pushed-good [] results h l t = h
pushed-good (e ∷ last) results h l t =
    All-append IsFragment results ((e ∷ last) ∷ []) h
      (record { some_element = omega arith; few_elements = l; one_text = t }, tt)

flush-IsGood : (f : Fragments) → IsGood f → IsGood (flush f)
unfolding flush
flush-IsGood f h = record {
  done =
      pushed-good f.last f.results h.done h.not_full
        (at_most_one f.txt_add (texts f.last) h.text_noted);
  not_full = omega arith;
  text_noted = omega arith;
}

-- After the first flush of a round there is room for one more element.
flush_full :
    (f : Fragments)
    → IsGood f
    → IsGood (flush_if (leb 4 (length f.last)) f)
      × (length (flush_if (leb 4 (length f.last)) f).last < 4)
unfolding flush_if flush
flush_full f h = elim (Bool-cases (leb 4 (length f.last))) [
  | inl e ↦ rw e (flush-IsGood f h, omega arith)
  | inr e ↦ rw e (h, ground arith)
]

-- After the second one there is no text.
flush_text :
    (b : Bool) (f : Fragments)
    → IsGood f
    → length f.last < 4
    → texts f.last ≤ (if b then 1 else 0)
    → IsGood (flush_if b f) × (length (flush_if b f).last < 4) × (texts (flush_if b f).last ≡ 0)
unfolding flush_if flush
flush_text true f h l t = (flush-IsGood f h, omega arith, refl)
flush_text false f h l t = (h, l, omega arith)

text_chains-good : (ss : List (List ℕ)) → All IsFragment (text_chains ss)
unfolding text_chains
text_chains-good [] = tt
text_chains-good (s ∷ ss) = (
  record { some_element = omega arith; few_elements = omega arith; one_text = omega arith },
  text_chains-good ss,
)

add_text-IsGood :
    (t : Text) (f : Fragments)
    → IsGood f
    → length f.last < 4
    → texts f.last ≡ 0
    → IsGood (add_text t f)
unfolding add_text flush
add_text-IsGood t f h l n = elim (Bool-cases (ltb (str_len (str_of t)) 80)) [
  | inl e ↦ rw e (record {
    done = h.done;
    not_full = omega (arith, length-append f.last (text t ∷ []));
    text_noted = omega (arith, texts-append f.last (text t ∷ []));
  })
  | inr e ↦ rw e (record {
    done =
        All-append IsFragment (pushed f.last f.results)
          (text_chains (chunks (length (str_of t)) (str_of t)))
          (pushed-good f.last f.results h.done h.not_full (omega arith))
          (text_chains-good (chunks (length (str_of t)) (str_of t)));
    not_full = omega arith;
    text_noted = omega arith;
  })
]

round-IsGood : (e : Elem) (f : Fragments) → IsGood f → IsGood (round e f)
unfolding round add_element
round-IsGood (text t) f h =
    let g = flush_if (leb 4 (length f.last)) f in
    let (good, room) = flush_full f h in
    let (good', room', no_text) = flush_text g.txt_add g good room good.text_noted in
    add_text-IsGood t (flush_if g.txt_add g) good' room' no_text
round-IsGood (other_elem bytes) f h =
    let g = flush_if (leb 4 (length f.last)) f in
    let (good, room) = flush_full f h in
    record {
      done = good.done;
      not_full = omega (arith, length-append g.last (other_elem bytes ∷ []), room);
      text_noted = omega (arith, texts-append g.last (other_elem bytes ∷ []), good.text_noted);
    }

rounds-IsGood : (chain : MessageChain) (f : Fragments) → IsGood f → IsGood (rounds chain f)
unfolding rounds
rounds-IsGood [] f h = h
rounds-IsGood (e ∷ rest) f h = rounds-IsGood rest (round e f) (round-IsGood e f h)

-- Every fragment of every chain has one to four elements, of which at most one is a text.
pub fragment-IsFragment : (chain : MessageChain) → All IsFragment (fragment chain)
unfolding fragment
fragment-IsFragment chain =
    let begin : Fragments = record { results = []; txt_add = false; last = [] } in
    (flush-IsGood (rounds chain begin) (
      rounds-IsGood chain begin
        (record { done = tt; not_full = omega arith; text_noted = omega arith }))).done
