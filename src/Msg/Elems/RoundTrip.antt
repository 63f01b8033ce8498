-- ===== src/Msg/Elems/RoundTrip.antt =====
-- Elements of a message, ricq-core/src/msg/elem, written and read again.
use ricq.Base.{
  ℕ, ◌^◌, ◌<◌, ◌≡◌, refl, sym, ap, ◌∙◌, arith, List, [], ◌∷◌, ◌++◌, append_assoc, length,
  length-append, take, drop, take-append, drop-append, ltb, le→ltb, ◌==◌, if◌then◌else◌, Bool-cases,
  inl, inr, leb, ◌&&◌,
}
use ricq.Base.{suc}
use ricq.Base.Int.{pos}
use ricq.Msg.Faces.{utf8}
use ricq.Msg.Market.{FingerGuessing, push_market_face, dice_face, finger_face}
use ricq.Msg.Market.Games.{into_iter-dice, into_iter-hand}
use ricq.Wire.{Wire}
use ricq.Result.{ok}
use ricq.Msg.Message.{Packages, AreInverse}
use ricq.Msg.Elems.{
  Text, At, is_empty-false, push_text, from_text, attr6, push_at, from_at, new_face, push_face,
  from_face, from_servtype33, count_chars,
}
use ricq.Msg.RqElem.{
  at, text_elem, face_elem, dice, finger_guessing, from_elem, from_text_elem, from_common,
  new_face_or,
}
use ricq.Msg.Chain.{into_iter}

module _ ⦃w : Wire⦄ where
  zero_flag : ℕ → ℕ
  zero_flag target = if target == 0 then 1 else 0

  -- The seven bytes before the target.
  before_target : At → List ℕ
  before_target e =
      w.be 2 1 ++ (w.be 2 0 ++ (w.be 2 (count_chars e.display) ++ (zero_flag e.target ∷ [])))

  length-before_target : (e : At) → length (before_target e) ≡ 7
  unfolding before_target
  length-before_target e = omega (
    arith,
    w.length-be 2 1,
    w.length-be 2 0,
    w.length-be 2 (count_chars e.display),
    length-append (w.be 2 1)
        (w.be 2 0 ++ (w.be 2 (count_chars e.display) ++ (zero_flag e.target ∷ []))),
    length-append (w.be 2 0) (w.be 2 (count_chars e.display) ++ (zero_flag e.target ∷ [])),
    length-append (w.be 2 (count_chars e.display)) (zero_flag e.target ∷ []),
  )

  attr6-before : (e : At) → attr6 e ≡ before_target e ++ (w.be 4 e.target ++ w.be 2 0)
  unfolding attr6 before_target zero_flag
  attr6-before e = sym (
      append_assoc (w.be 2 1) _ _
      ∙ ap (λ x. w.be 2 1 ++ x)
          (append_assoc (w.be 2 0) _ _
            ∙ ap (λ x. w.be 2 0 ++ x) (append_assoc (w.be 2 (count_chars e.display)) _ _)))

  length-attr6 : (e : At) → length (attr6 e) ≡ 13
  length-attr6 e = omega (
    arith,
    ap length (attr6-before e),
    length-append (before_target e) (w.be 4 e.target ++ w.be 2 0),
    length-append (w.be 4 e.target) (w.be 2 0),
    length-before_target e,
    w.length-be 4 e.target,
    w.length-be 2 0,
  )

  target_bytes : (e : At) → take 4 (drop 7 (attr6 e)) ≡ w.be 4 e.target
  target_bytes e =
      ap (λ x. take 4 (drop 7 x)) (attr6-before e)
      ∙ ap (take 4) (drop-append 7 (before_target e) _ (length-before_target e))
      ∙ take-append 4 (w.be 4 e.target) (w.be 2 0) (w.length-be 4 e.target)

  module _ (p : Packages) where
    into_iter-texts :
        (t : Text) (e : At)
        → e.target < 2 ^ 32
        → (into_iter p (push_text t) ≡ ok (text_elem t ∷ []))
          × (into_iter p (push_at e) ≡ ok (at e ∷ []))
    unfolding into_iter push_text push_at from_elem from_text_elem from_text from_at
    into_iter-texts t e h = (
      refl,
      rw
          (
            is_empty-false (attr6 e) (omega (arith, length-attr6 e)),
            le→ltb (length (attr6 e)) 11 (omega (arith, length-attr6 e)),
            target_bytes e,
            w.of_be-be 4 e.target,
          )
          (ap (λ (n : ℕ). ok (at (record { target = n; display = e.display }) ∷ [])) (omega arith)),
    )

    into_iter-face :
        (id : ℕ)
        → AreInverse p
        → into_iter p (push_face p (new_face id)) ≡ ok (face_elem (new_face id) ∷ [])
    unfolding into_iter push_face from_elem from_face from_common new_face_or from_servtype33
        new_face
    into_iter-face id inverse = elim (Bool-cases (leb 260 id && ltb id (2 ^ 31))) [
      | inl b ↦ rw (b, inverse.decode-encode _)
      | inr b ↦ rw b
    ]

    -- Where prost reads back what it writes, these elements of a message are read as they were written: a
    -- text; the call of a member whose number is below 2 ^ 32; a face that is made of its number, whether
    -- it is written as a face or, from 260 on, as a common element; and a die with a value from 1 to 6 and
    -- a hand, behind each of which the name of its face is read as a text.
    pub into_iter-written :
        (t : Text) (e : At) (id n : ℕ) (hand : FingerGuessing)
        → AreInverse p
        → e.target < 2 ^ 32
        → n < 6
        → (into_iter p (push_text t) ≡ ok (text_elem t ∷ []))
          × (into_iter p (push_at e) ≡ ok (at e ∷ []))
          × (into_iter p (push_face p (new_face id)) ≡ ok (face_elem (new_face id) ∷ []))
          × (into_iter p (push_market_face (dice_face (record { value = pos (suc n) })))
              ≡ ok (
                  dice (record { value = pos (suc n) })
                  ∷ text_elem (record { content = utf8 "[骰子]" })
                  ∷ []))
          × (into_iter p (push_market_face (finger_face hand))
              ≡ ok (finger_guessing hand ∷ text_elem (record { content = utf8 "[猜拳]" }) ∷ []))
    into_iter-written t e id n hand inverse h k = (
      (into_iter-texts t e h).0,
      (into_iter-texts t e h).1,
      into_iter-face id inverse,
      into_iter-dice p n k,
      into_iter-hand p hand,
    )
