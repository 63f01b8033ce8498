-- ===== src/Runs/Elements.antt =====
-- Runs of the elements and chains of ricq-core/src/msg.
use ricq.Base.{
  ℕ, suc, ◌≡◌, ◌↔◌, refl, ap₂, arith, List, [], ◌∷◌, ◌++◌, length, take, drop, take-append,
  drop-append, Option, none, some,
}
use ricq.Base.Int.{pos}
use ricq.Wire.BigEndian.{big_endian}
use ricq.Utf8.{IsText, IsAscii-IsText}
use ricq.Result.{ok}
use ricq.Msg.Faces.{utf8, face_id_map, face_name_map}
use ricq.Msg.Message.{Packages, AreInverse, MsgElemInfoServtype33}
use ricq.Msg.Elems.{At, push_text, push_at, push_face, new_face, push_light_app, push_rich_msg}
use ricq.Msg.Elems.Cards.{into_iter-cards}
use ricq.Msg.Elems.RoundTrip.{into_iter-written}
use ricq.Msg.Market.{paper, push_market_face, dice_face, finger_face}
use ricq.Msg.RqElem.{
  Anonymous, Reply, at, text_elem, face_elem, dice, finger_guessing, light_app_elem, rich_msg_elem,
}
use ricq.Msg.Chain.{into_iter}
use ricq.Msg.Faces.Inverse.{face_id_map-face_name_map}
use ricq.Runs.Crypto.{hello}

-- Bytes that may be absent, behind a number that says whether and how many.
abbrev encode_bytes : Option (List ℕ) → List ℕ → List ℕ
encode_bytes none rest = 0 ∷ rest
encode_bytes (some bs) rest = suc (length bs) ∷ (bs ++ rest)

abbrev decode_bytes : List ℕ → Option (List ℕ) × List ℕ
decode_bytes [] = (none, [])
decode_bytes (ℕ.zero ∷ rest) = (none, rest)
decode_bytes (suc n ∷ rest) = (some (take n rest), drop n rest)

decode_bytes-encode_bytes :
    (o : Option (List ℕ)) (rest : List ℕ) → decode_bytes (encode_bytes o rest) ≡ (o, rest)
decode_bytes-encode_bytes none rest = refl
decode_bytes-encode_bytes (some bs) rest =
    ap₂ (λ x y. (some x, y)) (take-append (length bs) bs rest refl)
      (drop-append (length bs) bs rest refl)

abbrev encode_number : Option ℕ → List ℕ → List ℕ
encode_number none rest = 0 ∷ rest
encode_number (some n) rest = 1 ∷ n ∷ rest

abbrev decode_number : List ℕ → Option ℕ × List ℕ
decode_number [] = (none, [])
decode_number (ℕ.zero ∷ rest) = (none, rest)
decode_number (suc k ∷ []) = (none, [])
decode_number (suc k ∷ n ∷ rest) = (some n, rest)

decode_number-encode_number :
    (o : Option ℕ) (rest : List ℕ) → decode_number (encode_number o rest) ≡ (o, rest)
decode_number-encode_number none rest = refl
decode_number-encode_number (some n) rest = refl

abbrev encode : MsgElemInfoServtype33 → List ℕ
encode m =
    encode_number m.index (encode_bytes m.text (encode_bytes m.compat (encode_bytes m.buf [])))

abbrev decode : List ℕ → Option MsgElemInfoServtype33
decode bs =
    let (index, r) = decode_number bs in
    let (text_field, r') = decode_bytes r in
    let (compat, r'') = decode_bytes r' in
    let (buf, left) = decode_bytes r'' in
    some (record { index = index; text = text_field; compat = compat; buf = buf })

abbrev tail : List ℕ → List ℕ
tail [] = []
tail (b ∷ s) = s

-- Packages that write a text behind a byte, and the parts of a face one after the other.
abbrev packages : Packages
packages = record {
  compress = λ s. 120 ∷ s;
  decompress = tail;
  encode_servtype33 = encode;
  decode_servtype33 = decode;
  decode_servtype3 = λ s. none;
}

packages-AreInverse : AreInverse packages
packages-AreInverse = record {
  decompress-compress = λ s. refl;
  compress_some = λ s. (120, s, refl);
  decode-encode = λ m. rw (
    decode_number-encode_number m.index
        (encode_bytes m.text (encode_bytes m.compat (encode_bytes m.buf []))),
    decode_bytes-encode_bytes m.text (encode_bytes m.compat (encode_bytes m.buf [])),
    decode_bytes-encode_bytes m.compat (encode_bytes m.buf []),
    decode_bytes-encode_bytes m.buf [],
  );
}

hello-IsText : IsText hello
hello-IsText = IsAscii-IsText hello (search arith)

into_iter-cards_example :
    (into_iter packages (push_light_app packages (record { content = hello }))
      ≡ ok (light_app_elem (record { content = hello }) ∷ []))
    × (into_iter packages (push_rich_msg packages (record { service_id = 1; template1 = hello }))
        ≡ ok (rich_msg_elem (record { service_id = 1; template1 = hello }) ∷ []))
into_iter-cards_example =
    into_iter-cards packages-AreInverse (record { content = hello })
      (record { service_id = 1; template1 = hello }) hello-IsText hello-IsText

abbrev call : At
call = record { target = 12345; display = hello }

into_iter-written_example :
    (into_iter packages (push_text (record { content = hello }))
      ≡ ok (text_elem (record { content = hello }) ∷ []))
    × (into_iter packages (push_at call) ≡ ok (at call ∷ []))
    × (into_iter packages (push_face packages (new_face 271)) ≡ ok (face_elem (new_face 271) ∷ []))
    × (into_iter packages (push_market_face (dice_face (record { value = pos 3 })))
        ≡ ok (dice (record { value = pos 3 }) ∷ text_elem (record { content = utf8 "[骰子]" }) ∷ []))
    × (into_iter packages (push_market_face (finger_face paper))
        ≡ ok (finger_guessing paper ∷ text_elem (record { content = utf8 "[猜拳]" }) ∷ []))
into_iter-written_example =
    into_iter-written packages (record { content = hello }) call 271 2 paper packages-AreInverse
      (omega arith) (omega arith)

abbrev stranger : Anonymous
stranger = record {
  anon_id = [];
  nick = hello;
  portrait_index = 1;
  bubble_index = 2;
  expire_time = 3;
  color = [];
}

abbrev quote : Reply
quote = record { reply_seq = 5; sender = 10001; time = 0; elements = [] }

face_id_map-face_name_map_example :
    (face_id_map 14 ≡ some (utf8 "微笑")) ↔ (face_name_map (utf8 "微笑") ≡ some 14)
face_id_map-face_name_map_example = face_id_map-face_name_map 14 (utf8 "微笑")
