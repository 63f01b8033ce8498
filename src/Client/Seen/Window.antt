-- ===== src/Client/Seen/Window.antt =====
-- `msg_exists` of ricq/src/client/processor/message_svc.rs on the same message again.
use ricq.Base.{
  ℕ, ◌+◌, ◌-◌, ◌%◌, ◌^◌, ◌≤◌, ◌<◌, ◌≡◌, refl, sym, ap, ◌∙◌, arith, List, [], ◌∷◌, ◌++◌, some, Bool,
  true, false, ==_refl, lt→ltb, if◌then◌else◌, Bool-cases, inl, inr, ◌⊎◌,
}
use ricq.Client.Seen.{
  TimedCache, as_secs, check_key, check_unless, MessageHead, Key, key_of, same_key, too_old,
  msg_exists, i32_sub, i32_gt, unwrap_or_default,
}
use ricq.Client.Seen.Recent.{found, recent, IsTimed, check_key-found, check_key-answer, IsInOrder}

-- The state after arrivals, each with its instant.
abbrev pub after : {H S : Type 0} → (ℕ → H → S → Bool × S) → List (ℕ × H) → S → S
after check [] s = s
after check ((now, h) ∷ rest) s = after check rest ((check now h s).1)

same_key_refl : (k : Key) → same_key k k ≡ true
unfolding same_key
same_key_refl (a, b, c, d) = rw (==_refl a, ==_refl b, ==_refl c, ==_refl d)

IsInOrder-last :
    {H : Type 0} (h : H) (from at : ℕ) (arrivals : List (ℕ × H))
    → IsInOrder from (arrivals ++ ((at, h) ∷ []))
    → from ≤ at
IsInOrder-last h from at [] o = o.0
IsInOrder-last h from at ((now, x) ∷ rest) o = omega (arith, IsInOrder-last h now at rest o.1, o.0)

lt_or_le : (a b : ℕ) → (a < b) ⊎ (b ≤ a)
lt_or_le a b = ground arith

-- A message more than a minute old.
too_old_late :
    (start_time now u : ℕ)
    → u + 60 < as_secs now
    → as_secs now < 2 ^ 31
    → i32_gt (i32_sub (as_secs now % 2 ^ 32) u) 60 ≡ true
too_old_late start_time now u l m =
    lt→ltb ((60 + 2 ^ 31) % 2 ^ 32) ((i32_sub (as_secs now % 2 ^ 32) u + 2 ^ 31) % 2 ^ 32)
      (omega arith)

any_way : (a b : Bool) → (if a then true else if b then true else true) ≡ true
any_way a b = ground arith

module _ {C : Type 0} {ops : TimedCache Key C} (laws : IsTimed same_key 3600 ops) (start_time : ℕ)
    (head : MessageHead) (first again : ℕ) (close : as_secs (again - first) < 3600) where
  recent_again : (now : ℕ) → first ≤ now → recent 3600 again (some now) ≡ true
  unfolding recent
  recent_again now l = lt→ltb (as_secs (again - now)) 3600 (omega arith)

  -- The key stays while other messages are looked up.
  kept :
      (old : Bool) (now : ℕ) (j : Key) (c : C)
      → first ≤ now
      → now ≤ again
      → found ops again (key_of head) c ≡ true
      → found ops again (key_of head) ((check_unless ops old 100 now j c).1) ≡ true
  unfolding check_unless
  kept true now j c l m e = e
  kept false now j c l m e =
      check_key-found laws 100 now again j (key_of head) c m
      ∙ rw (e, recent_again now l) (any_way (found ops now j c) (same_key j (key_of head)))

  found_later :
      (arrivals : List (ℕ × MessageHead)) (from : ℕ) (c : C)
      → first ≤ from
      → IsInOrder from (arrivals ++ ((again, head) ∷ []))
      → found ops again (key_of head) c ≡ true
      → found ops again (key_of head) (after (msg_exists ops start_time) arrivals c) ≡ true
  unfolding msg_exists
  found_later [] from c l o e = e
  found_later ((now, x) ∷ rest) from c l o e = found_later rest now _ (omega (arith, o.0)) o.1 (
      kept (too_old start_time now x.msg_time) now (key_of x) c (omega (arith, o.0))
        (IsInOrder-last head now again rest o.1) e)

  found_first :
      (c c' : C)
      → first ≤ again
      → msg_exists ops start_time first head c ≡ (false, c')
      → found ops again (key_of head) c' ≡ true
  unfolding msg_exists check_unless
  found_first c c' l e = elim (Bool-cases (too_old start_time first head.msg_time)) [
    | inl f ↦ cc (rw f at e)
    | inr f ↦
        let e' : check_key ops 100 first (key_of head) c ≡ (false, c') = rw f at e in
        let missed : found ops first (key_of head) c ≡ false =
          sym (check_key-answer laws 100 first (key_of head) c) ∙ ap (λ x. x.0) e' in
        ap (λ x. found ops again (key_of head) x.1) (sym e')
        ∙ check_key-found laws 100 first again (key_of head) (key_of head) c l
        ∙ rw (missed, same_key_refl (key_of head)) (recent_again first (omega arith))
  ]

check_unless-seen :
    {C : Type 0} {ops : TimedCache Key C}
    → IsTimed same_key 3600 ops
    → (old : Bool) (now : ℕ) (k : Key) (c : C) → (old ≡ true) ⊎ (found ops now k c ≡ true)
    → (check_unless ops old 100 now k c).0 ≡ true
unfolding check_unless
check_unless-seen laws true now k c h = refl
check_unless-seen laws false now k c (inl h) = cc h
check_unless-seen laws false now k c (inr h) = check_key-answer laws 100 now k c ∙ h

too_old_again :
    (start_time now : ℕ) (head : MessageHead)
    → unwrap_or_default head.msg_time + 60 < as_secs now
    → as_secs now < 2 ^ 31
    → too_old start_time now head.msg_time ≡ true
unfolding too_old
too_old_again start_time now head l m =
    rw (too_old_late start_time now (unwrap_or_default head.msg_time) l m)

-- With a cache that keeps a key for an hour, before the year 2038, a message that `msg_exists` lets
-- through, whose time is at most 3500 seconds ahead of the clock then, is refused ever after: whatever
-- messages come in between and however the cache is flushed, the same message, at a later instant,
-- exists.
pub msg_exists-once :
    {C : Type 0} (ops : TimedCache Key C) (start_time first again : ℕ) (head : MessageHead)
    (arrivals : List (ℕ × MessageHead)) (c c' : C)
    → IsTimed same_key 3600 ops
    → msg_exists ops start_time first head c ≡ (false, c')
    → IsInOrder first (arrivals ++ ((again, head) ∷ []))
    → unwrap_or_default head.msg_time ≤ as_secs first + 3500
    → as_secs again < 2 ^ 31
    → (msg_exists ops start_time again head (after (msg_exists ops start_time) arrivals c')).0
      ≡ true
unfolding msg_exists
msg_exists-once ops start_time first again head arrivals c c' laws e o near clock =
    let last : first ≤ again = IsInOrder-last head first again arrivals o in
    check_unless-seen laws _ again (key_of head) _
      (elim (lt_or_le (unwrap_or_default head.msg_time + 60) (as_secs again)) [
        | inl l ↦ inl (too_old_again start_time again head l clock)
        | inr l ↦
            let close : as_secs (again - first) < 3600 = omega arith in
            inr (
              found_later laws start_time head first again close arrivals first c' (omega arith) o
                (found_first laws start_time head first again close c c' last e))
      ])
