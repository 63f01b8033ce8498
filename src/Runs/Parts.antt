-- ===== src/Runs/Parts.antt =====
-- A run of the messages in parts of ricq/src/client/processor/online_push.rs.
use ricq.Base.{
  ℕ, ◌+◌, ◌-◌, ◌/◌, ◌≤◌, ◌≡◌, refl, sym, arith, [], ◌∷◌, none, some, ltb, ltb_false→le, le→ltb,
  ◌==◌, Bool, true, false, Bool-cases, inl, inr, if◌then◌else◌,
}
use mathlib.Core.List.{Permᴰ}
use ricq.Client.Parts.{GroupMessagePart, Caches, Groups, waits, message, process_all}
use ricq.Client.Parts.Cached.{Entry, lasting, parts_in, started, found_parts, IsTimed}
use ricq.Client.Parts.Sorted.{merged}
use ricq.Client.Parts.Merged.{IsPartOf, last_of, process_all-any_order}
use ricq.Runs.Crypto.{hello}

-- A cache as its entries and the number of its misses; nobody waits for a receipt.
abbrev Table : Type 0
Table = (ℕ → Entry) × ℕ

abbrev table : Caches Table (Unit {0})
table = record {
  cache_misses = λ c. c.1;
  flush = λ now c. ((λ k. lasting now (c.0 k)), c.1);
  cache_reset_metrics = λ c. (c.0, 0);
  cache_get_or_set_with = λ now k c. (
    parts_in (lasting now (c.0 k)),
    λ ps. ((λ j. if k == j then some (started now (lasting now (c.0 k)), ps) else c.0 j), c.1 + 1),
  );
  cache_remove =
      λ now k c. (found_parts (lasting now (c.0 k)), ((λ j. if k == j then none else c.0 j), c.1));
  remove_waiter = λ now rand r. (none, r);
}

lasting-later : (now t : ℕ) (x : Entry) → now ≤ t → lasting t x ≡ lasting t (lasting now x)
lasting-later now t none h = refl
lasting-later now t (some (at, ps)) h = elim (Bool-cases (ltb ((now - at) / 1000000000) 600)) [
  | inl b ↦ rw b
  | inr b ↦
      let late : 600 ≤ (now - at) / 1000000000 = ltb_false→le _ _ b in
      rw (b, le→ltb ((t - at) / 1000000000) 600 (omega (arith, late)))
]

lasting-if :
    (b : Bool) (now : ℕ) (x y : Entry)
    → lasting now (if b then x else y) ≡ (if b then lasting now x else lasting now y)
lasting-if true now x y = refl
lasting-if false now x y = refl

abbrev timed_table : IsTimed table
timed_table = record {
  stored = λ t k c. lasting t (c.0 k);
  ages = λ now t k c h. lasting-later now t (c.0 k) h;
  found = λ now k c. refl;
  written = λ now j k c ps.
      lasting-if (k == j) now (some (started now (lasting now (c.0 k)), ps)) (c.0 j);
  removed = λ now k c. refl;
  left = λ now j k c. lasting-if (k == j) now none (c.0 j);
  flush_keeps = λ now k c. sym (lasting-later now now (c.0 k) (omega arith));
  reset_keeps = λ now k c. refl;
}

abbrev part : ℕ → GroupMessagePart
part index = record {
  seq = index;
  rand = 5;
  group_code = 1;
  group_name = hello;
  group_card = [];
  from_uin = 10001;
  elems = some hello ∷ none ∷ [];
  time = 0;
  ptt = none;
  pkg_num = 2;
  pkg_index = index;
  div_seq = 3;
}

abbrev no_parts : Groups Table (Unit {0})
no_parts = record { group_message_builder = ((λ d. none), 200); receipt_waiters = tt }

-- The second part comes first, and the first part a second later.
process_all-any_order_example :
    (g : Groups Table (Unit {0})) × (process_all table 10002
        ((1000000000, part 1) ∷ (2000000000, part 0) ∷ [])
        no_parts
      ≡ (waits ∷ message (merged (part 0) (part 1 ∷ [])) ∷ [], g))
    × (timed_table.stored (last_of 1000000000 ((2000000000, part 0) ∷ [])) 3 g.group_message_builder
        ≡ none)
process_all-any_order_example =
    process_all-any_order table timed_table 10002 2 3 1000000000 (part 0) (part 1 ∷ []) (part 1)
      ((2000000000, part 0) ∷ []) no_parts (omega arith) (omega arith) (Permᴰ.swap refl refl)
      ((omega arith, tt), (tt, tt)) (is_part 1, (is_part 0, tt)) refl (omega arith, refl, tt) refl
  where
    is_part : (index : ℕ) → IsPartOf 10002 2 3 (part index)
    is_part index = record { of_other = refl; of_message = refl; of_count = refl; no_audio = refl }
