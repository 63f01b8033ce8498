-- ===== src/Msg/Market.antt =====
-- ricq-core/src/msg/elem/market_face.rs: the faces of the market, and the dice and the hands of the
-- guessing game, which are written as such faces.
pub mod Games
use ricq.Base.{
  ℕ, suc, ◌+◌, ◌-◌, ◌^◌, List, [], ◌∷◌, ◌++◌, Option, none, some, ◌==◌, ◌||◌, same_bytes,
  if◌then◌else◌,
}
use ricq.Base.Int.{ℤ, pos, negsuc}
use ricq.Base.Decimal.{to_string, parse}
use ricq.Result.{Result, ok, panic, map_ok}
use ricq.Msg.Faces.{utf8}
use ricq.Msg.Message
use ricq.Msg.Message.{MessageElem, market_face}
use ricq.Msg.Elems.{or_zero, or_empty, from_utf8, plain_text}

pub record MarketFace : Type 0 where
  pub name : List ℕ
  pub face_id : List ℕ
  pub tab_id : ℕ
  pub item_type : ℕ
  pub sub_type : ℕ
  pub media_type : ℕ
  pub encrypt_key : List ℕ
  pub magic_value : List ℕ

unfoldable pub market_message : MarketFace → Message.MarketFace
market_message e = record {
  face_name = some e.name;
  item_type = some e.item_type;
  face_info = some 1;
  face_id = some e.face_id;
  tab_id = some e.tab_id;
  sub_type = some e.sub_type;
  key = some e.encrypt_key;
  param = none;
  media_type = some e.media_type;
  image_width = some 200;
  image_height = some 200;
  mobileparam = some e.magic_value;
  pb_reserve = none;
}

-- The face, and its name as a text.
unfoldable pub push_market_face : MarketFace → List MessageElem
push_market_face e = market_face (market_message e) ∷ plain_text e.name ∷ []

unfoldable pub from_market_face : Message.MarketFace → MarketFace
from_market_face e = record {
  name = from_utf8 (or_empty e.face_name);
  face_id = or_empty e.face_id;
  tab_id = or_zero e.tab_id;
  item_type = or_zero e.item_type;
  sub_type = or_zero e.sub_type;
  media_type = or_zero e.media_type;
  encrypt_key = or_empty e.key;
  magic_value = from_utf8 (or_empty e.mobileparam);
}

abbrev pub game_face : List ℕ → List ℕ → ℕ → List ℕ → ℤ → MarketFace
game_face name face_id tab_id encrypt_key value = record {
  name = name;
  face_id = face_id;
  tab_id = tab_id;
  item_type = 6;
  sub_type = 3;
  media_type = 0;
  encrypt_key = encrypt_key;
  magic_value = utf8 "rscType?1;value=" ++ to_string value;
}

-- `e.value - 1` and `+ 1` of `i32`, which wrap.
unfoldable pub pred_i32 : ℤ → ℤ
pred_i32 (pos ℕ.zero) = negsuc 0
pred_i32 (pos (suc n)) = pos n
pred_i32 (negsuc n) = if n == 2 ^ 31 - 1 then pos (2 ^ 31 - 1) else negsuc (suc n)

unfoldable pub succ_i32 : ℤ → ℤ
succ_i32 (pos n) = if n == 2 ^ 31 - 1 then negsuc (2 ^ 31 - 1) else pos (suc n)
succ_i32 (negsuc ℕ.zero) = pos 0
succ_i32 (negsuc (suc n)) = negsuc n

pub record Dice : Type 0 where
  pub value : ℤ

unfoldable pub dice_face : Dice → MarketFace
dice_face e =
    game_face (utf8 "[骰子]")
      (72 ∷ 35 ∷ 211 ∷ 173 ∷ 177 ∷ 93 ∷ 240 ∷ 128 ∷ 20 ∷ 206 ∷ 93 ∷ 103 ∷ 150 ∷ 183 ∷ 110 ∷ 225
        ∷ [])
      11464 (52 ∷ 48 ∷ 57 ∷ 101 ∷ 50 ∷ 97 ∷ 54 ∷ 57 ∷ 98 ∷ 49 ∷ 54 ∷ 57 ∷ 49 ∷ 56 ∷ 102 ∷ 57 ∷ [])
      (pred_i32 e.value)

-- What stands behind the first `=`.
unfoldable pub after_equals : List ℕ → Option (List ℕ)
after_equals [] = none
after_equals (c ∷ s) = if c == 61 then some s else after_equals s

-- What stands before the first `=`, or all.
unfoldable pub until_equals : List ℕ → List ℕ
until_equals [] = []
until_equals (c ∷ s) = let rest = until_equals s in if c == 61 then [] else c ∷ rest

abbrev pub parsed_or_zero : Option ℤ → ℤ
parsed_or_zero none = pos 0
parsed_or_zero (some z) = z

-- `map_or(1, ...)`
unfoldable pub dice_value : Option (List ℕ) → ℤ
dice_value none = pos 1
dice_value (some s) = succ_i32 (parsed_or_zero (parse (2 ^ 31) s))

unfoldable pub from_dice_face : MarketFace → Dice
from_dice_face e = record { value = dice_value (after_equals e.magic_value) }

pub data FingerGuessing : Type 0 where
  rock scissors paper : FingerGuessing

unfoldable pub finger_value : FingerGuessing → ℕ
finger_value rock = 0
finger_value scissors = 1
finger_value paper = 2

unfoldable pub finger_face : FingerGuessing → MarketFace
finger_face e =
    game_face (utf8 "[猜拳]")
      (131 ∷ 200 ∷ 162 ∷ 147 ∷ 174 ∷ 101 ∷ 202 ∷ 20 ∷ 15 ∷ 52 ∷ 129 ∷ 32 ∷ 167 ∷ 116 ∷ 72 ∷ 238
        ∷ [])
      11415
      (55 ∷ 100 ∷ 101 ∷ 51 ∷ 57 ∷ 102 ∷ 101 ∷ 98 ∷ 99 ∷ 102 ∷ 52 ∷ 53 ∷ 101 ∷ 54 ∷ 100 ∷ 98 ∷ [])
      (pos (finger_value e))

unfoldable pub finger_of : ℤ → FingerGuessing
finger_of (negsuc n) = rock
finger_of (pos n) =
    if n == 0 then rock else if n == 1 then scissors else if n == 2 then paper else rock

-- The second of the parts that `=` separates; a text without `=` makes the index panic.
unfoldable pub second_part : Option (List ℕ) → Result FingerGuessing
second_part none = panic
second_part (some s) = ok (finger_of (parsed_or_zero (parse (2 ^ 31) (until_equals s))))

unfoldable pub from_finger_face : MarketFace → Result FingerGuessing
from_finger_face e = second_part (after_equals e.magic_value)
