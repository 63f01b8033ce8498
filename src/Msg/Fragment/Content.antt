-- ===== src/Msg/Fragment/Content.antt =====
-- What the fragments of ricq-core/src/msg/fragment.rs hold.
use ricq.Base.{
  ℕ, zero, suc, ◌≤◌, ◌≡◌, refl, sym, ap, ap₂, ◌∙◌, arith, List, [], ◌∷◌, ◌++◌, length, take, drop,
  append_assoc, append-nil, Bool, Bool-cases, true, false, ltb, leb, inl, inr, length-drop,
  take-append-drop,
}
use ricq.Msg.Fragment.{
  Text, Elem, text, other_elem, MessageChain, str_len, str_of, chunks, text_chains, Fragments,
  pushed, flush, flush_if, add_text, add_element, round, rounds, fragment,
}

-- What a reader of a message sees: characters and other elements.
pub data Piece : Type 0 where
  char : ℕ → Piece
  element : List ℕ → Piece

abbrev pub chars : List ℕ → List Piece
chars [] = []
chars (c ∷ s) = char c ∷ chars s

abbrev pub content : MessageChain → List Piece
content [] = []
content (text t ∷ rest) = chars (str_of t) ++ content rest
content (other_elem bytes ∷ rest) = element bytes ∷ content rest

abbrev pub all_content : List MessageChain → List Piece
all_content [] = []
all_content (chain ∷ rest) = content chain ++ all_content rest

chars-append : (s t : List ℕ) → chars (s ++ t) ≡ chars s ++ chars t
chars-append [] t = refl
chars-append (c ∷ s) t = ap (λ x. char c ∷ x) (chars-append s t)

content-append : (a b : MessageChain) → content (a ++ b) ≡ content a ++ content b
content-append [] b = refl
content-append (text t ∷ a) b =
    ap (λ x. chars (str_of t) ++ x) (content-append a b)
    ∙ sym (append_assoc (chars (str_of t)) (content a) (content b))
content-append (other_elem bytes ∷ a) b = ap (λ x. element bytes ∷ x) (content-append a b)

all_content-append :
    (a b : List MessageChain) → all_content (a ++ b) ≡ all_content a ++ all_content b
all_content-append [] b = refl
all_content-append (chain ∷ a) b =
    ap (λ x. content chain ++ x) (all_content-append a b)
    ∙ sym (append_assoc (content chain) (all_content a) (all_content b))

text_chains-cons :
    (s : List ℕ) (rest : List (List ℕ))
    → all_content (text_chains (s ∷ rest)) ≡ chars s ++ all_content (text_chains rest)
unfolding text_chains str_of
text_chains-cons s rest = ap (λ x. x ++ all_content (text_chains rest)) (append-nil (chars s))

text_chains-chunks :
    (fuel : ℕ) (s : List ℕ) → length s ≤ fuel → all_content (text_chains (chunks fuel s)) ≡ chars s
unfolding text_chains chunks str_of
text_chains-chunks zero [] h = refl
text_chains-chunks zero (c ∷ s) h = absurd (omega arith)
text_chains-chunks (suc fuel) [] h = refl
text_chains-chunks (suc fuel) (c ∷ s) h =
    text_chains-cons (take 80 (c ∷ s)) (chunks fuel (drop 80 (c ∷ s)))
    ∙ ap (λ x. chars (take 80 (c ∷ s)) ++ x)
        (text_chains-chunks fuel (drop 80 (c ∷ s)) (omega (arith, length-drop 80 (c ∷ s))))
    ∙ sym (chars-append (take 80 (c ∷ s)) (drop 80 (c ∷ s)))
    ∙ ap chars (take-append-drop 80 (c ∷ s))

-- What was seen so far.
abbrev seen : Fragments → List Piece
seen f = all_content f.results ++ content f.last

seen-flush : (f : Fragments) → seen (flush f) ≡ seen f
unfolding flush
seen-flush f = split f.last
  where
    split :
        (last : MessageChain)
        → all_content (pushed last f.results) ++ [] ≡ all_content f.results ++ content last
    split [] = refl
    split (e ∷ last) =
        append-nil _
        ∙ all_content-append f.results ((e ∷ last) ∷ [])
        ∙ ap (λ x. all_content f.results ++ x) (append-nil (content (e ∷ last)))

seen-flush_if : (b : Bool) (f : Fragments) → seen (flush_if b f) ≡ seen f
unfolding flush_if
seen-flush_if true f = seen-flush f
seen-flush_if false f = refl

seen_last :
    (f : Fragments) (b : Bool) (e : Elem)
    → seen (record f { txt_add = b; last = f.last ++ (e ∷ []) }) ≡ seen f ++ content (e ∷ [])
seen_last f b e =
    ap (λ x. all_content f.results ++ x) (content-append f.last (e ∷ []))
    ∙ sym (append_assoc (all_content f.results) (content f.last) (content (e ∷ [])))

seen-add_text : (t : Text) (f : Fragments) → seen (add_text t f) ≡ seen f ++ content (text t ∷ [])
unfolding add_text flush
seen-add_text t f = elim (Bool-cases (ltb (str_len (str_of t)) 80)) [
  | inl e ↦ rw e (seen_last f true (text t))
  | inr e ↦ rw e (
      append-nil _
      ∙ all_content-append (pushed f.last f.results)
          (text_chains (chunks (length (str_of t)) (str_of t)))
      ∙ ap₂ (λ x y. x ++ y)
          (sym (append-nil (all_content (pushed f.last f.results))) ∙ seen-flush f)
          (text_chains-chunks (length (str_of t)) (str_of t) (omega arith)
            ∙ sym (append-nil (chars (str_of t)))))
]

seen-add_element : (e : Elem) (f : Fragments) → seen (add_element e f) ≡ seen f ++ content (e ∷ [])
unfolding add_element
seen-add_element (text t) f =
    seen-add_text t (flush_if f.txt_add f)
    ∙ ap (λ x. x ++ content (text t ∷ [])) (seen-flush_if f.txt_add f)
seen-add_element (other_elem bytes) f = seen_last f f.txt_add (other_elem bytes)

seen-rounds :
    (chain : MessageChain) (f : Fragments) → seen (rounds chain f) ≡ seen f ++ content chain
unfolding rounds round
seen-rounds [] f = sym (append-nil (seen f))
seen-rounds (e ∷ rest) f =
    let full = leb 4 (length f.last) in
    seen-rounds rest (add_element e (flush_if full f))
    ∙ ap (λ x. x ++ content rest)
        (seen-add_element e (flush_if full f)
          ∙ ap (λ x. x ++ content (e ∷ [])) (seen-flush_if full f))
    ∙ append_assoc (seen f) (content (e ∷ [])) (content rest)
    ∙ ap (λ x. seen f ++ x) (sym (content-append (e ∷ []) rest))

-- For every chain, the characters and the elements of other kinds of its fragments, in their order, are
-- those of the chain.
pub all_content-fragment : (chain : MessageChain) → all_content (fragment chain) ≡ content chain
unfolding fragment flush
all_content-fragment chain =
    let begin : Fragments = record { results = []; txt_add = false; last = [] } in
    sym (append-nil (all_content (flush (rounds chain begin)).results))
    ∙ seen-flush (rounds chain begin)
    ∙ seen-rounds chain begin
