-- ===== src/Msg/Message.antt =====
-- The messages of ricq-core/src/pb/msg/msg.proto that ricq-core/src/msg/elem reads and writes, with the
-- fields of the generated types. Signed numbers are their bit patterns and a text is the list of its
-- bytes. Of images, of a video and of an element of another kind the model has the encoding.
use ricq.Base.{ℕ, ◌≡◌, List, ◌∷◌, Option, none, some}

pub record Text : Type 0 where
  pub str : Option (List ℕ)
  pub link : Option (List ℕ)
  pub attr6_buf : Option (List ℕ)
  pub attr7_buf : Option (List ℕ)
  pub buf : Option (List ℕ)
  pub pb_reserve : Option (List ℕ)

abbrev pub text_default : Text
text_default = record {
  str = none;
  link = none;
  attr6_buf = none;
  attr7_buf = none;
  buf = none;
  pb_reserve = none;
}

pub record Face : Type 0 where
  pub index : Option ℕ
  pub old : Option (List ℕ)
  pub buf : Option (List ℕ)

pub record CommonElem : Type 0 where
  pub service_type : Option ℕ
  pub pb_elem : Option (List ℕ)
  pub business_type : Option ℕ

pub record MarketFace : Type 0 where
  pub face_name : Option (List ℕ)
  pub item_type : Option ℕ
  pub face_info : Option ℕ
  pub face_id : Option (List ℕ)
  pub tab_id : Option ℕ
  pub sub_type : Option ℕ
  pub key : Option (List ℕ)
  pub param : Option (List ℕ)
  pub media_type : Option ℕ
  pub image_width : Option ℕ
  pub image_height : Option ℕ
  pub mobileparam : Option (List ℕ)
  pub pb_reserve : Option (List ℕ)

pub record LightApp : Type 0 where
  pub data_field : Option (List ℕ)
  pub msg_resid : Option (List ℕ)

pub record RichMsg : Type 0 where
  pub template1 : Option (List ℕ)
  pub service_id : Option ℕ
  pub msg_res_id : Option (List ℕ)
  pub rand : Option ℕ
  pub seq : Option ℕ

-- The elements that a reply quotes are their encodings, where they are present.
pub record SourceMsg : Type 0 where
  pub orig_seqs : List ℕ
  pub sender_uin : Option ℕ
  pub time : Option ℕ
  pub flag : Option ℕ
  pub elems : List (Option (List ℕ))
  pub msg_type : Option ℕ
  pub rich_msg : Option (List ℕ)
  pub pb_reserve : Option (List ℕ)
  pub src_msg : Option (List ℕ)
  pub to_uin : Option ℕ
  pub troop_name : Option (List ℕ)

pub record AnonymousGroupMessage : Type 0 where
  pub flags : Option ℕ
  pub anon_id : Option (List ℕ)
  pub anon_nick : Option (List ℕ)
  pub head_portrait : Option ℕ
  pub expire_time : Option ℕ
  pub bubble_id : Option ℕ
  pub rank_color : Option (List ℕ)

pub record MsgElemInfoServtype33 : Type 0 where
  pub index : Option ℕ
  pub text : Option (List ℕ)
  pub compat : Option (List ℕ)
  pub buf : Option (List ℕ)

pub record MsgElemInfoServtype3 : Type 0 where
  pub flash_troop_pic : Option (List ℕ)
  pub flash_c2c_pic : Option (List ℕ)

-- `msg::elem::Elem`
pub data MessageElem : Type 0 where
  text : Text → MessageElem
  face : Face → MessageElem
  common_elem : CommonElem → MessageElem
  market_face : MarketFace → MessageElem
  light_app : LightApp → MessageElem
  rich_msg : RichMsg → MessageElem
  src_msg : SourceMsg → MessageElem
  anon_group_msg : AnonymousGroupMessage → MessageElem
  video_file not_online_image custom_face other : List ℕ → MessageElem

-- What the packages do that the elements use: flate2, of which `compress` is all that the encoder
-- writes and `decompress` what the decoder reads until its end or an error, and prost.
pub record Packages : Type 0 where
  pub compress : List ℕ → List ℕ
  pub decompress : List ℕ → List ℕ
  pub encode_servtype33 : MsgElemInfoServtype33 → List ℕ
  pub decode_servtype33 : List ℕ → Option MsgElemInfoServtype33
  pub decode_servtype3 : List ℕ → Option MsgElemInfoServtype3

-- Their documentation: what was written is read back.
pub record AreInverse (p : Packages) : Type 0 where
  pub decompress-compress : (s : List ℕ) → p.decompress (p.compress s) ≡ s
  pub compress_some : (s : List ℕ) → (b : ℕ) × (t : List ℕ) × (p.compress s ≡ b ∷ t)
  pub decode-encode :
      (m : MsgElemInfoServtype33) → p.decode_servtype33 (p.encode_servtype33 m) ≡ some m
