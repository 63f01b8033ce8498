-- ===== src/Msg/Elems/Cards.antt =====
-- Share cards, ricq-core/src/msg/elem/light_app.rs and ricq-core/src/msg/elem/rich_msg.rs, written and
-- read again.
use ricq.Base.{
  ℕ, suc, ◌≡◌, ap, ◌∙◌, arith, List, [], ◌∷◌, length, some, none, Bool, true, Bool-cases, inl, inr,
  ltb, ◌&&◌, not, if◌then◌else◌, lt→ltb,
}
use ricq.Wire.{Wire}
use ricq.Utf8.{IsText}
use ricq.Result.{ok}
use ricq.Msg.Message.{Packages, AreInverse}
use ricq.Msg.Elems.{
  LightApp, RichMsg, is_empty, card_bytes, unpack, card_limit, card_content, push_light_app,
  from_light_app, push_rich_msg, from_rich_msg,
}
use ricq.Msg.RqElem.{from_elem, light_app_elem, rich_msg_elem}
use ricq.Msg.Chain.{into_iter}

-- A card that is read: not empty, and with less than 1027 bytes.
abbrev pub is_kept : List ℕ → Bool
is_kept content = not (is_empty content) && ltb (length content) 1027

module _ {p : Packages} (inverse : AreInverse p) where
  long_enough : (content : List ℕ) → ltb 1 (length (card_bytes p content)) ≡ true
  unfolding card_bytes
  long_enough content =
      let (b, t, e) = inverse.compress_some content in
      ap (λ x. ltb 1 (suc (length x))) e ∙ lt→ltb 1 (suc (suc (length t))) (omega arith)

  unpack-card_bytes : (content : List ℕ) → unpack p (card_bytes p content) ≡ content
  unfolding unpack card_bytes
  unpack-card_bytes content = inverse.decompress-compress content

  card_content-card_bytes :
      (content : List ℕ)
      → IsText content
      → card_content p (card_bytes p content) ≡ (if is_kept content then some content else none)
  unfolding card_content card_limit
  card_content-card_bytes content h = rw (long_enough content, unpack-card_bytes content, h)

  -- Where the compressed text is read back as it was written, a card that is written and read again is
  -- the same if its content has a byte at least and less than 1027, and else is the default, with no
  -- content. The same holds of a rich message.
  pub into_iter-cards :
      ⦃w : Wire⦄
      → (e : LightApp) (m : RichMsg) → IsText e.content
      → IsText m.template1
      → (into_iter p (push_light_app p e)
          ≡ ok (light_app_elem (if is_kept e.content then e else record { content = [] }) ∷ []))
        × (into_iter p (push_rich_msg p m)
            ≡ ok (
                rich_msg_elem
                  (if is_kept m.template1 then m else record { service_id = 0; template1 = [] })
                ∷ []))
  unfolding into_iter push_light_app push_rich_msg from_elem from_light_app from_rich_msg
  into_iter-cards e m h k = (
    elim (Bool-cases (is_kept e.content)) [
      | inl b ↦ rw (card_content-card_bytes e.content h, b)
      | inr b ↦ rw (card_content-card_bytes e.content h, b)
    ],
    elim (Bool-cases (is_kept m.template1)) [
      | inl b ↦ rw (card_content-card_bytes m.template1 k, b)
      | inr b ↦ rw (card_content-card_bytes m.template1 k, b)
    ],
  )
