-- ===== src/Client/Parts.antt =====
-- `process_group_message_part` and `parse_group_message` of ricq/src/client/processor/online_push.rs.
-- Signed numbers are their bit patterns. The elements of a message and voice messages, whose types are
-- generated, are the bytes of their encodings. The two caches, `TimedCache` of the package cached, are
-- parameters; an instant is a number of nanoseconds.
pub mod Sorted
pub mod Cached
pub mod Merged
use ricq.Base.{
  ℕ, ◌+◌, ◌%◌, ◌^◌, List, [], ◌∷◌, ◌++◌, length, Option, none, some, Bool, true, false, ◌==◌, ltb,
  leb, ◌&&◌, if◌then◌else◌,
}

pub record GroupMessagePart : Type 0 where
  pub seq : ℕ
  pub rand : ℕ
  pub group_code : ℕ
  pub group_name : List ℕ
  pub group_card : List ℕ
  pub from_uin : ℕ
  pub elems : List (Option (List ℕ))
  pub time : ℕ
  pub ptt : Option (List ℕ)
  pub pkg_num : ℕ
  pub pkg_index : ℕ
  pub div_seq : ℕ

pub record GroupMessage : Type 0 where
  pub seqs : List ℕ
  pub rands : List ℕ
  pub group_code : ℕ
  pub group_name : List ℕ
  pub group_card : List ℕ
  pub from_uin : ℕ
  pub time : ℕ
  pub elements : List (List ℕ)

-- Where an `i32` stands among all of them.
abbrev pub rank : ℕ → ℕ
rank n = (n + 2 ^ 31) % 2 ^ 32

-- `sort_by` of the standard library, which keeps the order of equal ones.
unfoldable pub insert_part : GroupMessagePart → List GroupMessagePart → List GroupMessagePart
insert_part p [] = p ∷ []
insert_part p (q ∷ rest) =
    let later = insert_part p rest in
    if leb (rank p.pkg_index) (rank q.pkg_index) then p ∷ q ∷ rest else q ∷ later

unfoldable pub sort_parts : List GroupMessagePart → List GroupMessagePart
sort_parts [] = []
sort_parts (p ∷ rest) = insert_part p (sort_parts rest)

unfoldable pub present : List (Option (List ℕ)) → List (List ℕ)
present [] = []
present (none ∷ rest) = present rest
present (some e ∷ rest) = e ∷ present rest

-- The loop over the parts, with the message so far.
unfoldable pub add_parts : List GroupMessagePart → GroupMessage → GroupMessage
add_parts [] m = m
add_parts (p ∷ rest) m = add_parts rest (record m {
  seqs = m.seqs ++ (p.seq ∷ []);
  rands = m.rands ++ (p.rand ∷ []);
  elements = m.elements ++ present p.elems;
})

-- What is taken of the first part.
unfoldable pub from_first : List GroupMessagePart → GroupMessage
from_first [] = record {
  seqs = [];
  rands = [];
  group_code = 0;
  group_name = [];
  group_card = [];
  from_uin = 0;
  time = 0;
  elements = [];
}
from_first (p ∷ rest) = record {
  seqs = [];
  rands = [];
  group_code = p.group_code;
  group_name = p.group_name;
  group_card = p.group_card;
  from_uin = p.from_uin;
  time = p.time;
  elements = [];
}

unfoldable pub parse_group_message : List GroupMessagePart → GroupMessage
parse_group_message parts = add_parts (sort_parts parts) (from_first (sort_parts parts))

-- The operations of the two caches, at an instant where they read the clock. `cache_get_or_set_with` has the
-- value for a key, an empty one that is put in where there is none, and the cache once a value is written
-- through that reference; `remove_waiter` is `cache_remove` of the calls that wait for receipts.
pub record Caches (C R : Type 0) : Type 0 where
  pub cache_misses : C → ℕ
  pub flush : ℕ → C → C
  pub cache_reset_metrics : C → C
  pub cache_get_or_set_with : ℕ → ℕ → C → List GroupMessagePart × (List GroupMessagePart → C)
  pub cache_remove : ℕ → ℕ → C → Option (List GroupMessagePart) × C
  pub remove_waiter : ℕ → ℕ → R → Option ℕ × R

-- The parts that wait, by their `div_seq`, and the calls that wait for the receipt of a message, by
-- its random number.
pub record Groups (C R : Type 0) : Type 0 where
  pub group_message_builder : C
  pub receipt_waiters : R

-- What becomes of a part: a receipt for a call, a voice message, a message, or nothing yet.
pub data Handled : Type 0 where
  receipt : ℕ → ℕ → Handled
  audio : List ℕ → GroupMessagePart → Handled
  message : GroupMessage → Handled
  waits : Handled

abbrev pub or_no_parts : Option (List GroupMessagePart) → List GroupMessagePart
or_no_parts none = []
or_no_parts (some parts) = parts

module _ {C R : Type 0} (ops : Caches C R) where
  -- The call that waits for this receipt.
  unfoldable pub take_waiter : ℕ → ℕ → GroupMessagePart → Groups C R → Option ℕ × Groups C R
  take_waiter uin now p g =
      if p.from_uin == uin
      then (
        (ops.remove_waiter now p.rand g.receipt_waiters).0,
        record g { receipt_waiters = (ops.remove_waiter now p.rand g.receipt_waiters).1 },
      )
      else (none, g)

  -- The cache is flushed once it has missed more than 100 times.
  unfoldable pub tidy_parts : ℕ → C → C
  tidy_parts now c =
      if ltb 100 (ops.cache_misses c) then ops.cache_reset_metrics (ops.flush now c) else c

  -- The parts with the new one, in the cache, and merged if none is missing.
  unfoldable pub merge_part : ℕ → GroupMessagePart → Groups C R → Handled × Groups C R
  merge_part now p g =
      let (held, write) =
        ops.cache_get_or_set_with now p.div_seq (tidy_parts now g.group_message_builder) in
      let parts = held ++ (p ∷ []) in
      let (taken, c) = ops.cache_remove now p.div_seq (write parts) in
      if ltb (length parts) p.pkg_num
      then (waits, record g { group_message_builder = write parts })
      else (
        message (parse_group_message (or_no_parts taken)),
        record g { group_message_builder = c },
      )

  -- A part that is no receipt; `pkg_num` is compared as a signed number.
  unfoldable pub handle_part :
      Option (List ℕ) → ℕ → GroupMessagePart → Groups C R → Handled × Groups C R
  handle_part (some ptt) now p g = (audio ptt p, g)
  handle_part none now p g =
      if ltb 1 p.pkg_num && ltb p.pkg_num (2 ^ 31)
      then merge_part now p g
      else (message (parse_group_message (p ∷ [])), g)

  unfoldable pub receive_part : Option ℕ → ℕ → GroupMessagePart → Groups C R → Handled × Groups C R
  receive_part (some call) now p g = (receipt call p.seq, g)
  receive_part none now p g = handle_part p.ptt now p g

  unfoldable pub process_group_message_part :
      ℕ → ℕ → GroupMessagePart → Groups C R → Handled × Groups C R
  process_group_message_part uin now p g =
      let (waiter, g') = take_waiter uin now p g in receive_part waiter now p g'

  -- Parts that arrive one after the other, each at an instant.
  abbrev pub process_all : ℕ → List (ℕ × GroupMessagePart) → Groups C R → List Handled × Groups C R
  process_all uin [] g = ([], g)
  process_all uin ((now, p) ∷ rest) g =
      let (h, g') = process_group_message_part uin now p g in
      let (hs, g'') = process_all uin rest g' in (h ∷ hs, g'')
