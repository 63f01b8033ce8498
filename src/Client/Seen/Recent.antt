-- ===== src/Client/Seen/Recent.antt =====
-- The caches of ricq/src/client/processor against the instants at which their keys were let through.
use ricq.Base.{
  ℕ, ◌≤◌, ◌≡◌, refl, ap, ap₂, ◌∙◌, arith, List, [], ◌∷◌, Option, none, some, Bool, true, false, ltb,
  ◌+◌, ◌/◌, ◌%◌, ◌^◌, ◌==◌, ◌||◌, ◌-◌, if◌then◌else◌, Bool-cases, inl, inr,
}
use ricq.Structs.{OnlinePushTrans}
use ricq.Client.Seen.{
  TimedCache, as_secs, tidy, check_key, check_unless, MessageHead, Key, key_of, same_key, same_pair,
  too_old, msg_exists, push_trans_exists, i32_gt, i32_sub, unwrap_or_default, PushMessageInfo,
  req_too_old, push_req_exists,
}

-- Whether the cache has the key at an instant.
abbrev pub found : {K C : Type 0} → TimedCache K C → ℕ → K → C → Bool
found ops t k c = (ops.cache_get t k c).0

-- Whether an instant lies less than `lifespan` seconds back.
unfoldable pub recent : ℕ → ℕ → Option ℕ → Bool
recent lifespan t none = false
recent lifespan t (some at) = ltb (as_secs (t - at)) lifespan

-- What the documentation of the cache promises: a key that is set is found until it has been there
-- for `lifespan` seconds, and not later; setting it again starts anew; and nothing else changes what is
-- found at a later instant.
pub record IsTimed {K C : Type 0} (same : K → K → Bool) (lifespan : ℕ) (ops : TimedCache K C)
    : Type 0 where
  pub get_keeps :
      (now t : ℕ) (j k : K) (c : C)
      → now ≤ t
      → found ops t k ((ops.cache_get now j c).1) ≡ found ops t k c
  pub set_found :
      (now t : ℕ) (j k : K) (c : C)
      → now ≤ t
      → found ops t k (ops.cache_set now j c)
        ≡ (if same j k then recent lifespan t (some now) else found ops t k c)
  pub flush_keeps :
      (now t : ℕ) (k : K) (c : C) → now ≤ t → found ops t k (ops.flush now c) ≡ found ops t k c
  pub reset_keeps :
      (t : ℕ) (k : K) (c : C) → found ops t k (ops.cache_reset_metrics c) ≡ found ops t k c

-- What is remembered: for each key, when it was let through last.
abbrev pub Last : Type 0 → Type 0
Last K = K → Option ℕ

module _ {K C : Type 0} {same : K → K → Bool} {lifespan : ℕ} {ops : TimedCache K C}
    (laws : IsTimed same lifespan ops) where
  tidy-found :
      (limit now t : ℕ) (k : K) (c : C)
      → now ≤ t
      → found ops t k (tidy ops limit now c) ≡ found ops t k c
  unfolding tidy
  tidy-found limit now t k c l = elim (Bool-cases (ltb limit (ops.cache_misses c))) [
    | inl e ↦ rw e (laws.reset_keeps t k (ops.flush now c) ∙ laws.flush_keeps now t k c l)
    | inr e ↦ rw e
  ]

  -- What is found after a key was looked up.
  pub check_key-found :
      (limit now t : ℕ) (j k : K) (c : C)
      → now ≤ t
      → found ops t k ((check_key ops limit now j c).1) ≡ (
          if found ops now j c
          then found ops t k c
          else if same j k
          then recent lifespan t (some now)
          else found ops t k c)
  unfolding check_key
  check_key-found limit now t j k c l = elim (Bool-cases (found ops now j c)) [
    | inl e ↦ rw e (laws.get_keeps now t j k c l)
    | inr e ↦ rw e (
        tidy-found limit now t k (ops.cache_set now j ((ops.cache_get now j c).1)) l
        ∙ laws.set_found now t j k ((ops.cache_get now j c).1) l
        ∙ ap (λ x. if same j k then recent lifespan t (some now) else x)
            (laws.get_keeps now t j k c l))
  ]

-- Arrivals, each with its instant, and what a check answers to them one after the other.
abbrev pub answers : {H S : Type 0} → (ℕ → H → S → Bool × S) → List (ℕ × H) → S → List Bool
answers check [] s = []
answers check ((now, h) ∷ rest) s = let (b, s') = check now h s in b ∷ answers check rest s'

abbrev pub IsInOrder : {H : Type 0} → ℕ → List (ℕ × H) → Type 0
IsInOrder from [] = Unit {0}
IsInOrder from ((now, h) ∷ rest) = (from ≤ now) × IsInOrder now rest

-- The rule: what is old is refused, and what was let through within the lifespan; else it is let
-- through, and this is remembered.
unfoldable pub admit : {K : Type 0} → (K → K → Bool) → ℕ → Bool → ℕ → K → Last K → Bool × Last K
admit same lifespan old now k last =
    if old
    then (true, last)
    else if recent lifespan now (last k)
    then (true, last)
    else (false, λ j. if same k j then some now else last j)

module _ {K C : Type 0} {same : K → K → Bool} {lifespan : ℕ} {ops : TimedCache K C}
    (laws : IsTimed same lifespan ops) (limit : ℕ) where
  -- From an instant on, the cache finds what was let through recently.
  abbrev Agrees : ℕ → C → Last K → Type 0
  Agrees from c last = (t : ℕ) (k : K) → from ≤ t → found ops t k c ≡ recent lifespan t (last k)

  pub check_key-answer :
      (now : ℕ) (k : K) (c : C) → (check_key ops limit now k c).0 ≡ found ops now k c
  unfolding check_key
  check_key-answer now k c = elim (Bool-cases (found ops now k c)) [ inl e ↦ rw e | inr e ↦ rw e ]

  check_unless-admit :
      (old : Bool) (from now : ℕ) (k : K) (c : C) (last : Last K)
      → from ≤ now
      → Agrees from c last
      → ((check_unless ops old limit now k c).0 ≡ (admit same lifespan old now k last).0)
        × Agrees now
            ((check_unless ops old limit now k c).1)
            ((admit same lifespan old now k last).1)
  unfolding check_unless admit
  check_unless-admit true from now k c last l h = (refl, λ t j m. h t j (omega arith))
  check_unless-admit false from now k c last l h =
      elim (Bool-cases (recent lifespan now (last k))) [
        | inl e ↦ (
          check_key-answer now k c ∙ h now k l ∙ rw e,
          λ t j m.
              check_key-found laws limit now t k j c m ∙ rw (h now k l, e) (h t j (omega arith)),
        )
        | inr e ↦ (
          check_key-answer now k c ∙ h now k l ∙ rw e,
          λ t j m.
              check_key-found laws limit now t k j c m
              ∙ rw (h now k l, e)
                  (elim (Bool-cases (same k j)) [
                    | inl f ↦ rw f
                    | inr f ↦ rw f (h t j (omega arith))
                  ]),
        )
      ]

  -- The same for any arrivals in the order of their instants, for a check that looks keys up.
  answers-admit :
      {H : Type 0} (old : ℕ → H → Bool) (key : H → K) (arrivals : List (ℕ × H)) (from : ℕ) (c : C)
      (last : Last K)
      → IsInOrder from arrivals
      → Agrees from c last
      → answers (λ now h. check_unless ops (old now h) limit now (key h)) arrivals c
        ≡ answers (λ now h. admit same lifespan (old now h) now (key h)) arrivals last
  answers-admit old key [] from c last o h = refl
  answers-admit old key ((now, x) ∷ rest) from c last o h =
      let (same_answer, agrees) = check_unless-admit (old now x) from now (key x) c last o.0 h in
      ap₂ (λ b bs. b ∷ bs) same_answer (answers-admit old key rest now _ _ o.1 agrees)

-- A cache in which nothing is found.
abbrev pub IsEmpty : {K C : Type 0} → TimedCache K C → C → Type 0
IsEmpty {K = K} ops c = (t : ℕ) (k : K) → found ops t k c ≡ false

abbrev pub nothing_yet : {K : Type 0} → Last K
nothing_yet k = none

-- Whether the bit pattern `a` is a smaller `i32` than `b`.
abbrev pub is_before : ℕ → ℕ → Bool
is_before a b = ltb ((a + 2 ^ 31) % 2 ^ 32) ((b + 2 ^ 31) % 2 ^ 32)

-- The rule for the time of a message, which is 0 where there is none: it is refused if it is from before the
-- client's start, or if the seconds since it, an `i32`, are more than 60.
abbrev pub refuses_time : ℕ → ℕ → ℕ → Bool
refuses_time start_time now time =
    if is_before time start_time
    then true
    else is_before 60 ((now / 1000000000 % 2 ^ 32 + 2 ^ 32 - time % 2 ^ 32) % 2 ^ 32)

abbrev pub refuses_message : ℕ → ℕ → MessageHead → Bool
refuses_message start_time now head = refuses_time start_time now (unwrap_or_default head.msg_time)

-- The rule for the time of a notice: one of before the client's start is refused, but the time 0 never is.
abbrev pub refuses_notice : ℕ → PushMessageInfo → Bool
refuses_notice start_time info =
    if info.msg_time % 2 ^ 32 == 0 then false else is_before (info.msg_time % 2 ^ 32) start_time

or-true : (b : Bool) → (b || true) ≡ true
or-true true = refl
or-true false = refl

or-false : (b : Bool) → (b || false) ≡ b
or-false true = refl
or-false false = refl

too_old-refuses :
    (start_time now : ℕ) (head : MessageHead)
    → too_old start_time now head.msg_time ≡ refuses_message start_time now head
unfolding too_old
too_old-refuses start_time now head =
    elim (Bool-cases (is_before (unwrap_or_default head.msg_time) start_time)) [
      | inl e ↦ rw (
        e,
        or-true (is_before 60 (i32_sub (as_secs now % 2 ^ 32) (unwrap_or_default head.msg_time))),
      )
      | inr e ↦ rw (
        e,
        or-false (is_before 60 (i32_sub (as_secs now % 2 ^ 32) (unwrap_or_default head.msg_time))),
      )
    ]

req_too_old-refuses :
    (start_time : ℕ) (info : PushMessageInfo)
    → req_too_old start_time info.msg_time ≡ refuses_notice start_time info
unfolding req_too_old
req_too_old-refuses start_time info = elim (Bool-cases (info.msg_time % 2 ^ 32 == 0)) [
  | inl e ↦ rw e
  | inr e ↦ rw e
]

-- Two rules that refuse the same, admit the same.
answers-same :
    {K H : Type 0} (same : K → K → Bool) (lifespan : ℕ) (old refuses : ℕ → H → Bool) (key : H → K)
    (arrivals : List (ℕ × H)) (last : Last K)
    → ((now : ℕ) (h : H) → old now h ≡ refuses now h)
    → answers (λ now h. admit same lifespan (old now h) now (key h)) arrivals last
      ≡ answers (λ now h. admit same lifespan (refuses now h) now (key h)) arrivals last
answers-same same lifespan old refuses key arrivals last e =
    λ i. answers (λ now h. admit same lifespan (e now h i) now (key h)) arrivals last

module _ {C : Type 0} (start_time : ℕ) (c : C) where
  -- With a cache that is empty at first and keeps a key for an hour, `msg_exists` answers to any
  -- messages, at instants that do not decrease, as the rule does that refuses a message outside its
  -- minute, one from before the client's start, and one with the key of a message that was let through
  -- less than an hour ago, and lets the others through.
  pub msg_exists-refines :
      (ops : TimedCache Key C) (arrivals : List (ℕ × MessageHead))
      → IsTimed same_key 3600 ops
      → IsEmpty ops c
      → IsInOrder 0 arrivals
      → answers (msg_exists ops start_time) arrivals c
        ≡ answers
            (λ now head.
              admit same_key 3600
                (refuses_message start_time now head)
                now
                (head.from_uin, head.to_uin, head.msg_seq, head.msg_uid))
            arrivals
            nothing_yet
  unfolding msg_exists recent key_of
  msg_exists-refines ops arrivals laws e o =
      answers-admit laws 100 (λ now head. too_old start_time now head.msg_time) key_of arrivals 0 c
        nothing_yet o (λ t k l. e t k)
      ∙ answers-same same_key 3600 (λ now head. too_old start_time now head.msg_time)
          (refuses_message start_time) key_of arrivals nothing_yet (too_old-refuses start_time)

  -- With a cache that is empty at first and keeps a key for 30 seconds, `push_req_exists` answers to any
  -- notices, at instants that do not decrease, as the rule does that refuses one from before the client's
  -- start unless its time is 0, and one with the numbers of a notice that was let through less than 30
  -- seconds ago, and lets the others through. `push_trans_exists` does so too, with 15 seconds and no
  -- exception for a time of 0.
  pub push_exists-refines :
      (req trans : TimedCache (ℕ × ℕ) C) (infos : List (ℕ × PushMessageInfo))
      (pushes : List (ℕ × OnlinePushTrans))
      → IsTimed same_pair 30 req
      → IsTimed same_pair 15 trans
      → IsEmpty req c
      → IsEmpty trans c
      → IsInOrder 0 infos
      → IsInOrder 0 pushes
      → (answers (push_req_exists req start_time) infos c
          ≡ answers
              (λ now info.
                admit same_pair 30
                  (refuses_notice start_time info)
                  now
                  (info.msg_seq, info.msg_uid))
              infos
              nothing_yet)
        × (answers (push_trans_exists trans start_time) pushes c
            ≡ answers
                (λ now info.
                  admit same_pair 15
                    (is_before info.msg_time start_time)
                    now
                    (info.msg_seq, info.msg_uid))
                pushes
                nothing_yet)
  unfolding push_req_exists push_trans_exists recent
  push_exists-refines req trans infos pushes l m e f o p = (
    answers-admit l 10 (λ now info. req_too_old start_time info.msg_time)
          (λ info. (info.msg_seq, info.msg_uid)) infos 0 c nothing_yet o (λ t k n. e t k)
        ∙ answers-same same_pair 30 (λ now info. req_too_old start_time info.msg_time)
            (λ now info. refuses_notice start_time info) (λ info. (info.msg_seq, info.msg_uid))
            infos nothing_yet (λ now info. req_too_old-refuses start_time info),
    answers-admit m 10 (λ now info. i32_gt start_time info.msg_time)
        (λ info. (info.msg_seq, info.msg_uid)) pushes 0 c nothing_yet p (λ t k n. f t k),
  )
