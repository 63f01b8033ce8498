-- ===== src/Client/Parts/Sorted.antt =====
-- `parse_group_message` of ricq/src/client/processor/online_push.rs and the order of the parts.
use ricq.Base.{
  ℕ, ◌+◌, ◌%◌, ◌<◌, ◌≡◌, ◌≢◌, refl, sym, ap, ap₂, ◌∙◌, arith, List, [], ◌∷◌, ◌++◌, append_assoc,
  append-nil, Option, none, some, All,
}
use mathlib.Core.Path.{subst}
use mathlib.Core.List.{Permᴰ}
use ricq.Client.Parts.{
  GroupMessagePart, GroupMessage, rank, insert_part, sort_parts, present, add_parts, from_first,
  parse_group_message,
}

abbrev pub Apart : GroupMessagePart → GroupMessagePart → Type 0
Apart p q = rank p.pkg_index ≢ rank q.pkg_index

-- Parts of which no two have the same index.
abbrev pub AllApart : List GroupMessagePart → Type 0
AllApart [] = Unit {0}
AllApart (p ∷ ps) = All (Apart p) ps × AllApart ps

insert_part-swap :
    (p q : GroupMessagePart) (l : List GroupMessagePart)
    → Apart p q
    → insert_part p (insert_part q l) ≡ insert_part q (insert_part p l)
unfolding insert_part
insert_part-swap p q [] h = ground arith
insert_part-swap p q (a ∷ l) h = ground (arith, insert_part-swap p q l h)

All-Permᴰ :
    {ps qs : List GroupMessagePart} (p : GroupMessagePart)
    → Permᴰ ps qs
    → All (Apart p) ps
    → All (Apart p) qs
All-Permᴰ p Permᴰ.nil h = h
All-Permᴰ p (Permᴰ.cons e d) h = (rw (sym e) h.0, All-Permᴰ p d h.1)
All-Permᴰ p (Permᴰ.swap e f) h = (rw (sym f) h.1.0, (rw (sym e) h.0, h.1.1))
All-Permᴰ p (Permᴰ.trans d d') h = All-Permᴰ p d' (All-Permᴰ p d h)

AllApart-Permᴰ : {ps qs : List GroupMessagePart} → Permᴰ ps qs → AllApart ps → AllApart qs
AllApart-Permᴰ Permᴰ.nil h = h
AllApart-Permᴰ (Permᴰ.cons {a = a} e d) h = (rw (sym e) (All-Permᴰ a d h.0), AllApart-Permᴰ d h.1)
AllApart-Permᴰ (Permᴰ.swap {l = l} e f) h = (
  (rw (sym e, sym f) (λ same. h.0.0 (sym same)), subst (λ x. All (Apart x) l) f h.1.0),
  (subst (λ x. All (Apart x) l) e h.0.1, h.1.1),
)
AllApart-Permᴰ (Permᴰ.trans d d') h = AllApart-Permᴰ d' (AllApart-Permᴰ d h)

sort_parts-Permᴰ :
    {ps qs : List GroupMessagePart} → Permᴰ ps qs → AllApart ps → sort_parts ps ≡ sort_parts qs
unfolding sort_parts
sort_parts-Permᴰ Permᴰ.nil h = refl
sort_parts-Permᴰ (Permᴰ.cons e d) h = ap₂ insert_part e (sort_parts-Permᴰ d h.1)
sort_parts-Permᴰ (Permᴰ.swap {a} {b} {l = l} e f) h =
    insert_part-swap a b (sort_parts l) h.0.0
    ∙ ap₂ (λ x y. insert_part x (insert_part y (sort_parts l))) f e
sort_parts-Permᴰ (Permᴰ.trans d d') h =
    sort_parts-Permᴰ d h ∙ sort_parts-Permᴰ d' (AllApart-Permᴰ d h)

pub parse_group_message-Permᴰ :
    {ps qs : List GroupMessagePart}
    → Permᴰ ps qs
    → AllApart ps
    → parse_group_message ps ≡ parse_group_message qs
unfolding parse_group_message
parse_group_message-Permᴰ d h = rw (sort_parts-Permᴰ d h)

-- Where the bit pattern of an `i32` stands among all of them.
abbrev pub place : ℕ → ℕ
place n = (n + 2147483648) % 4294967296

-- Parts in the order of their indices, no two with the same one.
abbrev pub Ascending : List GroupMessagePart → Type 0
Ascending [] = Unit {0}
Ascending (p ∷ ps) = All (λ q. place p.pkg_index < place q.pkg_index) ps × Ascending ps

before-Apart :
    (p : GroupMessagePart) (ps : List GroupMessagePart)
    → All (λ q. rank p.pkg_index < rank q.pkg_index) ps
    → All (Apart p) ps
before-Apart p [] h = tt
before-Apart p (q ∷ ps) h = ((λ e. omega (arith, e, h.0)), before-Apart p ps h.1)

Ascending-AllApart : (ps : List GroupMessagePart) → Ascending ps → AllApart ps
Ascending-AllApart [] h = tt
Ascending-AllApart (p ∷ ps) h = (before-Apart p ps h.0, Ascending-AllApart ps h.1)

insert_part-first :
    (p : GroupMessagePart) (ps : List GroupMessagePart)
    → All (λ q. rank p.pkg_index < rank q.pkg_index) ps
    → insert_part p ps ≡ p ∷ ps
unfolding insert_part
insert_part-first p [] h = refl
insert_part-first p (q ∷ ps) h = ground (arith, h.0)

sort_parts-Ascending : (ps : List GroupMessagePart) → Ascending ps → sort_parts ps ≡ ps
unfolding sort_parts
sort_parts-Ascending [] h = refl
sort_parts-Ascending (p ∷ ps) h =
    ap (insert_part p) (sort_parts-Ascending ps h.1) ∙ insert_part-first p ps h.0

-- What parts in their order say: their numbers, and their elements one behind the other, without those
-- that are empty.
abbrev pub seqs_of : List GroupMessagePart → List ℕ
seqs_of [] = []
seqs_of (p ∷ ps) = p.seq ∷ seqs_of ps

abbrev pub rands_of : List GroupMessagePart → List ℕ
rands_of [] = []
rands_of (p ∷ ps) = p.rand ∷ rands_of ps

abbrev pub full_elements : List (Option (List ℕ)) → List (List ℕ)
full_elements [] = []
full_elements (none ∷ es) = full_elements es
full_elements (some e ∷ es) = e ∷ full_elements es

abbrev pub elements_of : List GroupMessagePart → List (List ℕ)
elements_of [] = []
elements_of (p ∷ ps) = full_elements p.elems ++ elements_of ps

-- The message of parts in their order, with the group, the sender and the time of the first one.
abbrev pub merged : GroupMessagePart → List GroupMessagePart → GroupMessage
merged p ps = record {
  seqs = seqs_of (p ∷ ps);
  rands = rands_of (p ∷ ps);
  group_code = p.group_code;
  group_name = p.group_name;
  group_card = p.group_card;
  from_uin = p.from_uin;
  time = p.time;
  elements = elements_of (p ∷ ps);
}

present-full_elements : (es : List (Option (List ℕ))) → present es ≡ full_elements es
unfolding present
present-full_elements [] = refl
present-full_elements (none ∷ es) = present-full_elements es
present-full_elements (some e ∷ es) = ap (λ x. e ∷ x) (present-full_elements es)

add_parts-all :
    (ps : List GroupMessagePart) (m : GroupMessage)
    → add_parts ps m ≡ record m {
      seqs = m.seqs ++ seqs_of ps;
      rands = m.rands ++ rands_of ps;
      elements = m.elements ++ elements_of ps;
    }
unfolding add_parts
add_parts-all [] m = λ i. record m {
  seqs = sym (append-nil m.seqs) i;
  rands = sym (append-nil m.rands) i;
  elements = sym (append-nil m.elements) i;
}
add_parts-all (p ∷ ps) m =
    add_parts-all ps (record m {
      seqs = m.seqs ++ (p.seq ∷ []);
      rands = m.rands ++ (p.rand ∷ []);
      elements = m.elements ++ present p.elems;
    })
    ∙ (λ i. record m {
      seqs = append_assoc m.seqs (p.seq ∷ []) (seqs_of ps) i;
      rands = append_assoc m.rands (p.rand ∷ []) (rands_of ps) i;
      elements =
          (append_assoc m.elements (present p.elems) (elements_of ps)
              ∙ ap (λ x. m.elements ++ (x ++ elements_of ps)) (present-full_elements p.elems))
            i;
    })

-- Parts in any order make the message that they say in theirs.
pub parse_group_message-merged :
    {qs : List GroupMessagePart} (p : GroupMessagePart) (ps : List GroupMessagePart)
    → Permᴰ (p ∷ ps) qs
    → Ascending (p ∷ ps)
    → parse_group_message qs ≡ merged p ps
unfolding parse_group_message from_first
parse_group_message-merged {qs} p ps d h =
    sym (parse_group_message-Permᴰ d (Ascending-AllApart (p ∷ ps) h))
    ∙ ap (λ x. add_parts x (from_first x)) (sort_parts-Ascending (p ∷ ps) h)
    ∙ add_parts-all (p ∷ ps) (from_first (p ∷ ps))
