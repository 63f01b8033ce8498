-- ===== src/Msg/Elems.antt =====
-- ricq-core/src/msg/elem: the elements of a message, how each is written to the generated type
-- `msg::elem::Elem`, and how one is read from it. Signed numbers are their bit patterns but for the
-- value of a die, and a text is the list of its bytes.
pub mod RoundTrip
pub mod Cards
use ricq.Base.{
  ℕ, suc, ◌+◌, ◌-◌, ◌^◌, ◌<◌, ◌≡◌, refl, arith, List, [], ◌∷◌, ◌++◌, length, take, drop, Option,
  none, some, Bool, true, false, ltb, leb, ◌==◌, ◌&&◌, ◌||◌, not, same_bytes, bit_xor,
  if◌then◌else◌,
}
use ricq.Base.Int.{ℤ, pos, negsuc}
use ricq.Base.Decimal.{to_string, parse}
use ricq.Wire.{Wire}
use ricq.Utf8.{from_utf8_lossy}
use ricq.Result.{Result, ok, panic, map_ok}
use ricq.Msg.Faces.{utf8, face_id_map, face_name_map}
use ricq.Msg.Message
use ricq.Msg.Message.{
  MessageElem, text, face, common_elem, market_face, light_app, rich_msg, src_msg, anon_group_msg,
  video_file, not_online_image, custom_face, text_default, Packages, MsgElemInfoServtype3,
  MsgElemInfoServtype33,
}

-- `unwrap_or_default` of a number and of bytes.
abbrev pub or_zero : Option ℕ → ℕ
or_zero none = 0
or_zero (some n) = n

abbrev pub or_empty : Option (List ℕ) → List ℕ
or_empty none = []
or_empty (some bs) = bs

abbrev pub is_empty : List ℕ → Bool
is_empty [] = true
is_empty (b ∷ bs) = false

pub is_empty-false : (bs : List ℕ) → 0 < length bs → is_empty bs ≡ false
is_empty-false [] h = absurd (omega arith)
is_empty-false (b ∷ bs) h = refl

-- `String::from_utf8(bytes).unwrap_or_default()`
unfoldable pub from_utf8 : List ℕ → List ℕ
from_utf8 bytes = if same_bytes (from_utf8_lossy bytes) bytes then bytes else []

-- `chars().count()`: the bytes that begin a character.
unfoldable pub count_chars : List ℕ → ℕ
count_chars [] = 0
count_chars (b ∷ s) =
    let rest = count_chars s in if leb 0x80 b && ltb b 0xC0 then rest else suc rest

pub record Text : Type 0 where
  pub content : List ℕ

abbrev pub plain_text : List ℕ → MessageElem
plain_text s = text (record text_default { str = some s })

unfoldable pub push_text : Text → List MessageElem
push_text e = plain_text e.content ∷ []

unfoldable pub from_text : Message.Text → Text
from_text e = record { content = or_empty e.str }

pub record At : Type 0 where
  pub target : ℕ
  pub display : List ℕ

module _ ⦃w : Wire⦄ where
  unfoldable pub attr6 : At → List ℕ
  attr6 e =
      w.be 2 1
      ++ (w.be 2 0
          ++ (w.be 2 (count_chars e.display)
              ++ ((if e.target == 0 then 1 else 0) ∷ (w.be 4 e.target ++ w.be 2 0))))

  unfoldable pub push_at : At → List MessageElem
  push_at e = text (record text_default { attr6_buf = some (attr6 e); str = some e.display }) ∷ []

  -- `split_at(7)` and `get_u32` panic where there are too few bytes.
  unfoldable pub from_at : Message.Text → Result At
  from_at e =
      if ltb (length (or_empty e.attr6_buf)) 11
      then panic
      else ok (record {
        target = w.of_be (take 4 (drop 7 (or_empty e.attr6_buf)));
        display = or_empty e.str;
      })

pub record Face : Type 0 where
  pub index : ℕ
  pub name : List ℕ

abbrev pub name_or : Option (List ℕ) → List ℕ
name_or none = utf8 "未知表情"
name_or (some name) = name

unfoldable pub face_name : ℕ → List ℕ
face_name id = name_or (face_id_map id)

unfoldable pub new_face : ℕ → Face
new_face id = record { index = id; name = face_name id }

unfoldable pub new_from_name : List ℕ → Option Face
new_from_name name = found (face_name_map name)
  where
    found : Option ℕ → Option Face
    found none = none
    found (some id) = some (new_face id)

-- A face from 260 on, as an `i32`, is a common element.
unfoldable pub push_face : ⦃w : Wire⦄ → Packages → Face → List MessageElem
push_face ⦃w⦄ p e =
    if leb 260 e.index && ltb e.index (2 ^ 31)
    then common_elem (record {
      service_type = some 33;
      pb_elem = some (
          p.encode_servtype33 (record {
            index = some e.index;
            text = some (47 ∷ e.name);
            compat = some (47 ∷ e.name);
            buf = none;
          }));
      business_type = some 1;
    })
      ∷ []
    else face (record {
      index = some e.index;
      old = some (w.be 2 (0x1445 - 4 + e.index));
      buf = some (0x00 ∷ 0x01 ∷ 0x00 ∷ 0x04 ∷ 0x52 ∷ 0xCC ∷ 0xF5 ∷ 0xD0 ∷ []);
    })
      ∷ []

unfoldable pub from_face : Message.Face → Face
from_face e = new_face (or_zero e.index)

unfoldable pub from_servtype33 : MsgElemInfoServtype33 → Face
from_servtype33 e = new_face (or_zero e.index)

-- A share card: its content behind a byte that says whether it is compressed.
unfoldable pub card_bytes : Packages → List ℕ → List ℕ
card_bytes p content = 1 ∷ p.compress content

unfoldable pub unpack : Packages → List ℕ → List ℕ
unpack p [] = []
unpack p (b ∷ rest) = if b == 0 then rest else p.decompress rest

-- `1024 ^ 3` is an exclusive or, of value 1027.
unfoldable pub card_limit : ℕ
card_limit = bit_xor 1024 3

-- The content of a card, or `None` where the default is returned.
unfoldable pub card_content : Packages → List ℕ → Option (List ℕ)
card_content p bytes =
    if ltb 1 (length bytes)
      && (not (is_empty (unpack p bytes)) && ltb (length (unpack p bytes)) card_limit)
    then some (from_utf8_lossy (unpack p bytes))
    else none

pub record LightApp : Type 0 where
  pub content : List ℕ

unfoldable pub push_light_app : Packages → LightApp → List MessageElem
push_light_app p e =
    light_app (record { data_field = some (card_bytes p e.content); msg_resid = none }) ∷ []

unfoldable pub from_light_app : Packages → Message.LightApp → LightApp
from_light_app p e = record { content = or_empty (card_content p (or_empty e.data_field)) }

pub record RichMsg : Type 0 where
  pub service_id : ℕ
  pub template1 : List ℕ

unfoldable pub push_rich_msg : Packages → RichMsg → List MessageElem
push_rich_msg p e =
    rich_msg (record {
      template1 = some (card_bytes p e.template1);
      service_id = some e.service_id;
      msg_res_id = none;
      rand = none;
      seq = none;
    })
    ∷ []

unfoldable pub from_rich_msg : Packages → Message.RichMsg → RichMsg
from_rich_msg p e = with_content (card_content p (or_empty e.template1))
  where
    with_content : Option (List ℕ) → RichMsg
    with_content none = record { service_id = 0; template1 = [] }
    with_content (some content) = record { service_id = or_zero e.service_id; template1 = content }
