-- ===== src/Client/Parts/Cached.antt =====
-- What the documentation of the cache promises of the parts that
-- ricq/src/client/processor/online_push.rs keeps in it.
use ricq.Base.{
  ℕ, ◌-◌, ◌/◌, ◌≤◌, ◌≡◌, ◌∙◌, List, [], Option, none, some, Bool-cases, inl, inr, ltb, ◌==◌, true,
  if◌then◌else◌,
}
use ricq.Client.Parts.{GroupMessagePart, Caches, tidy_parts}

-- An entry: the instant at which it was made, and its parts.
abbrev pub Entry : Type 0
Entry = Option (ℕ × List GroupMessagePart)

-- Whether less than 600 seconds have gone by since an instant.
abbrev pub IsYoung : ℕ → ℕ → Type 0
IsYoung at t = ltb ((t - at) / 1000000000) 600 ≡ true

-- What is left of an entry at an instant.
abbrev pub lasting : ℕ → Entry → Entry
lasting t none = none
lasting t (some (at, ps)) = if ltb ((t - at) / 1000000000) 600 then some (at, ps) else none

abbrev pub parts_in : Entry → List GroupMessagePart
parts_in none = []
parts_in (some (at, ps)) = ps

-- When the entry was made, or is made now.
abbrev pub started : ℕ → Entry → ℕ
started now none = now
started now (some (at, ps)) = at

abbrev pub found_parts : Entry → Option (List GroupMessagePart)
found_parts none = none
found_parts (some (at, ps)) = some ps

-- `stored t k c` is the entry for the key `k` that the cache `c` has at the instant `t`: one lasts for 600
-- seconds, and a write through the reference does not make it younger.
pub record IsTimed {C R : Type 0} (ops : Caches C R) : Type 0 where
  pub stored : ℕ → ℕ → C → Entry
  pub ages : (now t k : ℕ) (c : C) → now ≤ t → stored t k c ≡ lasting t (stored now k c)
  pub found :
      (now k : ℕ) (c : C) → (ops.cache_get_or_set_with now k c).0 ≡ parts_in (stored now k c)
  pub written :
      (now j k : ℕ) (c : C) (ps : List GroupMessagePart)
      → stored now j ((ops.cache_get_or_set_with now k c).1 ps)
        ≡ (if k == j then lasting now (some (started now (stored now k c), ps)) else stored now j c)
  pub removed : (now k : ℕ) (c : C) → (ops.cache_remove now k c).0 ≡ found_parts (stored now k c)
  pub left :
      (now j k : ℕ) (c : C)
      → stored now j ((ops.cache_remove now k c).1) ≡ (if k == j then none else stored now j c)
  pub flush_keeps : (now k : ℕ) (c : C) → stored now k (ops.flush now c) ≡ stored now k c
  pub reset_keeps : (now k : ℕ) (c : C) → stored now k (ops.cache_reset_metrics c) ≡ stored now k c

pub tidy_parts-stored :
    {C R : Type 0} {ops : Caches C R} (laws : IsTimed ops) (now k : ℕ) (c : C)
    → laws.stored now k (tidy_parts ops now c) ≡ laws.stored now k c
unfolding tidy_parts
tidy_parts-stored {ops = ops} laws now k c = elim (Bool-cases (ltb 100 (ops.cache_misses c))) [
  | inl e ↦ rw e (laws.reset_keeps now k (ops.flush now c) ∙ laws.flush_keeps now k c)
  | inr e ↦ rw e
]
