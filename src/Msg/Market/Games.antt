-- ===== src/Msg/Market/Games.antt =====
-- Dice and hands, ricq-core/src/msg/elem/market_face.rs, written and read again.
use ricq.Base.{ℕ, zero, suc, ◌<◌, ◌≡◌, refl, arith, [], ◌∷◌, same_bytes}
use ricq.Base.Int.{pos}
use ricq.Base.Decimal.{to_string, digits, parse, parse_digits}
use ricq.Wire.{Wire}
use ricq.Utf8.{from_utf8_lossy, lossy_loop, width, matched, second, continues}
use ricq.Result.{ok}
use ricq.Msg.Faces.{utf8}
use ricq.Msg.Message.{Packages}
use ricq.Msg.Elems.{from_text, from_utf8}
use ricq.Msg.Market.{
  FingerGuessing, rock, scissors, paper, market_message, push_market_face, from_market_face,
  dice_face, from_dice_face, dice_value, after_equals, until_equals, finger_of, finger_value,
  pred_i32, succ_i32, finger_face, from_finger_face, second_part,
}
use ricq.Msg.RqElem.{dice, finger_guessing, text_elem, from_elem, from_text_elem, from_market}
use ricq.Msg.Chain.{into_iter}

module _ ⦃w : Wire⦄ (p : Packages) where
  pub into_iter-dice :
      (n : ℕ)
      → n < 6
      → into_iter p (push_market_face (dice_face (record { value = pos (suc n) })))
        ≡ ok (
            dice (record { value = pos (suc n) })
            ∷ text_elem (record { content = utf8 "[骰子]" })
            ∷ [])
  unfolding into_iter push_market_face market_message from_market_face from_elem from_market
      dice_face from_dice_face dice_value after_equals from_utf8 from_utf8_lossy lossy_loop width
      matched second continues from_text_elem from_text same_bytes pred_i32 succ_i32 to_string
      digits parse parse_digits
  into_iter-dice zero h = refl
  into_iter-dice (suc zero) h = refl
  into_iter-dice (suc (suc zero)) h = refl
  into_iter-dice (suc (suc (suc zero))) h = refl
  into_iter-dice (suc (suc (suc (suc zero)))) h = refl
  into_iter-dice (suc (suc (suc (suc (suc zero))))) h = refl
  into_iter-dice (suc (suc (suc (suc (suc (suc n)))))) h = absurd (omega arith)

  pub into_iter-hand :
      (hand : FingerGuessing)
      → into_iter p (push_market_face (finger_face hand))
        ≡ ok (finger_guessing hand ∷ text_elem (record { content = utf8 "[猜拳]" }) ∷ [])
  unfolding into_iter push_market_face market_message from_market_face from_elem from_market
      finger_face from_finger_face second_part after_equals until_equals finger_of finger_value
      from_utf8 from_utf8_lossy lossy_loop width matched second continues from_text_elem from_text
      same_bytes to_string digits parse parse_digits
  into_iter-hand rock = refl
  into_iter-hand scissors = refl
  into_iter-hand paper = refl
