-- ===== src/Msg/RqElem.antt =====
-- `RQElem::from` of ricq-core/src/msg/elem/mod.rs, and what is no element of its own:
-- ricq-core/src/msg/elem/anonymous.rs and ricq-core/src/msg/elem/reply.rs.
use ricq.Base.{ℕ, List, [], ◌∷◌, Option, none, some, ◌==◌, ◌||◌, same_bytes, if◌then◌else◌}
use ricq.Wire.{Wire}
use ricq.Utf8.{from_utf8_lossy}
use ricq.Result.{Result, ok, panic, map_ok}
use ricq.Msg.Faces.{utf8}
use ricq.Msg.Message
use ricq.Msg.Message.{
  MessageElem, text, face, common_elem, market_face, light_app, rich_msg, src_msg, anon_group_msg,
  video_file, not_online_image, custom_face, other, Packages, MsgElemInfoServtype3,
  MsgElemInfoServtype33,
}
use ricq.Msg.Elems.{
  Text, At, Face, LightApp, RichMsg, or_zero, or_empty, is_empty, from_text, from_at, from_face,
  from_servtype33, from_light_app, from_rich_msg,
}
use ricq.Msg.Market.{
  MarketFace, Dice, FingerGuessing, from_market_face, from_dice_face, from_finger_face,
}

-- An image is its encoding.
pub data FlashImage : Type 0 where
  friend_image group_image : List ℕ → FlashImage

pub data RqElem : Type 0 where
  at : At → RqElem
  text_elem : Text → RqElem
  face_elem : Face → RqElem
  market_elem : MarketFace → RqElem
  dice : Dice → RqElem
  finger_guessing : FingerGuessing → RqElem
  light_app_elem : LightApp → RqElem
  rich_msg_elem : RichMsg → RqElem
  friend_image_elem group_image_elem video_elem : List ℕ → RqElem
  flash_image : FlashImage → RqElem
  other_elem : MessageElem → RqElem

unfoldable pub flash_or : Message.CommonElem → Option MsgElemInfoServtype3 → RqElem
flash_or e none = other_elem (common_elem e)
flash_or e (some m) = pick m.flash_troop_pic m.flash_c2c_pic
  where
    pick : Option (List ℕ) → Option (List ℕ) → RqElem
    pick (some i) c2c = flash_image (group_image i)
    pick none (some i) = flash_image (friend_image i)
    pick none none = other_elem (common_elem e)

unfoldable pub new_face_or : Message.CommonElem → Option MsgElemInfoServtype33 → RqElem
new_face_or e none = other_elem (common_elem e)
new_face_or e (some m) = face_elem (from_servtype33 m)

unfoldable pub from_common : Packages → Message.CommonElem → RqElem
from_common p e =
    if or_zero e.service_type == 3
    then flash_or e (p.decode_servtype3 (or_empty e.pb_elem))
    else if or_zero e.service_type == 33
    then new_face_or e (p.decode_servtype33 (or_empty e.pb_elem))
    else other_elem (common_elem e)

unfoldable pub from_market : MarketFace → Result RqElem
from_market e =
    if same_bytes e.name (utf8 "[骰子]") || same_bytes e.name (utf8 "[随机骰子]")
    then ok (dice (from_dice_face e))
    else if same_bytes e.name (utf8 "[猜拳]")
    then map_ok finger_guessing (from_finger_face e)
    else ok (market_elem e)

unfoldable pub from_text_elem : ⦃w : Wire⦄ → Message.Text → Result RqElem
from_text_elem e =
    if is_empty (or_empty e.attr6_buf) then ok (text_elem (from_text e)) else map_ok at (from_at e)

-- `RQElem::from`
unfoldable pub from_elem : ⦃w : Wire⦄ → Packages → MessageElem → Result RqElem
from_elem p (text e) = from_text_elem e
from_elem p (face e) = ok (face_elem (from_face e))
from_elem p (common_elem e) = ok (from_common p e)
from_elem p (market_face e) = from_market (from_market_face e)
from_elem p (light_app e) = ok (light_app_elem (from_light_app p e))
from_elem p (rich_msg e) = ok (rich_msg_elem (from_rich_msg p e))
from_elem p (video_file e) = ok (video_elem e)
from_elem p (not_online_image e) = ok (friend_image_elem e)
from_elem p (custom_face e) = ok (group_image_elem e)
from_elem p (src_msg e) = ok (other_elem (src_msg e))
from_elem p (anon_group_msg e) = ok (other_elem (anon_group_msg e))
from_elem p (other e) = ok (other_elem (other e))

pub record Anonymous : Type 0 where
  pub anon_id : List ℕ
  pub nick : List ℕ
  pub portrait_index : ℕ
  pub bubble_index : ℕ
  pub expire_time : ℕ
  pub color : List ℕ

unfoldable pub anonymous_elem : Anonymous → MessageElem
anonymous_elem e = anon_group_msg (record {
  flags = some 2;
  anon_id = none;
  anon_nick = some e.nick;
  head_portrait = some e.portrait_index;
  expire_time = some e.expire_time;
  bubble_id = some e.bubble_index;
  rank_color = some e.color;
})

unfoldable pub from_anonymous : Message.AnonymousGroupMessage → Anonymous
from_anonymous e = record {
  anon_id = or_empty e.anon_id;
  nick = from_utf8_lossy (or_empty e.anon_nick);
  portrait_index = or_zero e.head_portrait;
  bubble_index = or_zero e.bubble_id;
  expire_time = or_zero e.expire_time;
  color = from_utf8_lossy (or_empty e.rank_color);
}

-- The elements that are quoted are their encodings.
pub record Reply : Type 0 where
  pub reply_seq : ℕ
  pub sender : ℕ
  pub time : ℕ
  pub elements : List (List ℕ)

-- `From<MessageChain> for Vec<msg::Elem>`, and back.
unfoldable pub wrap_elems : List (List ℕ) → List (Option (List ℕ))
wrap_elems [] = []
wrap_elems (e ∷ rest) = some e ∷ wrap_elems rest

unfoldable pub unwrap_elems : List (Option (List ℕ)) → List (List ℕ)
unwrap_elems [] = []
unwrap_elems (none ∷ rest) = unwrap_elems rest
unwrap_elems (some e ∷ rest) = e ∷ unwrap_elems rest

unfoldable pub reply_elem : Reply → MessageElem
reply_elem e = src_msg (record {
  orig_seqs = e.reply_seq ∷ [];
  sender_uin = some e.sender;
  time = some e.time;
  flag = some 1;
  elems = wrap_elems e.elements;
  msg_type = none;
  rich_msg = some [];
  pb_reserve = some [];
  src_msg = some [];
  to_uin = none;
  troop_name = some [];
})

-- `orig_seqs[0]` panics where there is none.
unfoldable pub from_reply : Message.SourceMsg → Result Reply
from_reply e = with_seqs e.orig_seqs
  where
    with_seqs : List ℕ → Result Reply
    with_seqs [] = panic
    with_seqs (seq ∷ rest) = ok (record {
      reply_seq = seq;
      sender = or_zero e.sender_uin;
      time = or_zero e.time;
      elements = unwrap_elems e.elems;
    })
