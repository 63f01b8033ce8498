-- ===== src/Client/Parts/Merged.antt =====
-- `process_group_message_part` of ricq/src/client/processor/online_push.rs on the parts of one
-- message.
use ricq.Base.{
  ℕ, suc, ◌+◌, ◌-◌, ◌/◌, ◌^◌, ◌<◌, ◌≤◌, ◌≡◌, refl, sym, ap, ap₂, ◌∙◌, arith, List, [], ◌∷◌, ◌++◌,
  All, length, length-append, append_assoc, replicate, none, some, false, ◌==◌, ==_refl, lt→ltb,
  le→ltb,
}
use mathlib.Core.List.{Permᴰ}
use ricq.Client.Parts.{
  GroupMessagePart, Caches, Groups, Handled, waits, message, take_waiter, tidy_parts, merge_part,
  handle_part, receive_part, process_group_message_part, parse_group_message, process_all,
}
use ricq.Client.Parts.Cached.{
  IsYoung, lasting, parts_in, started, found_parts, IsTimed, tidy_parts-stored,
}
use ricq.Client.Parts.Sorted.{Ascending, merged, parse_group_message-merged}

-- A part of a message of `n` parts of another account, which have this `div_seq`, and no voice message.
pub record IsPartOf (uin n div_seq : ℕ) (p : GroupMessagePart) : Type 0 where
  pub of_other : (p.from_uin == uin) ≡ false
  pub of_message : p.div_seq ≡ div_seq
  pub of_count : p.pkg_num ≡ n
  pub no_audio : p.ptt ≡ none

-- Arrivals in the order of their instants, from one on, each less than 600 seconds after the first one.
abbrev pub IsTimely : ℕ → ℕ → List (ℕ × GroupMessagePart) → Type 0
IsTimely first from [] = Unit {0}
IsTimely first from ((now, p) ∷ rest) = (from ≤ now) × IsYoung first now × IsTimely first now rest

abbrev pub parts_of : List (ℕ × GroupMessagePart) → List GroupMessagePart
parts_of [] = []
parts_of ((now, p) ∷ rest) = p ∷ parts_of rest

-- The instant of the last arrival.
abbrev pub last_of : ℕ → List (ℕ × GroupMessagePart) → ℕ
last_of now [] = now
last_of now ((t, p) ∷ rest) = last_of t rest

module _ {C R : Type 0} (ops : Caches C R) (laws : IsTimed ops) (uin : ℕ) where
  process_part :
      (n d now : ℕ) (p : GroupMessagePart) (g : Groups C R)
      → 1 < n
      → n < 2 ^ 31
      → IsPartOf uin n d p
      → process_group_message_part ops uin now p g ≡ merge_part ops now p g
  unfolding process_group_message_part take_waiter receive_part handle_part
  process_part n d now p g l u h =
      rw (h.of_other, h.no_audio, h.of_count, lt→ltb 1 n l, lt→ltb n (2 ^ 31) u)

  -- An entry with the parts held, which was made, or is made now, at `first`.
  pub record Holds (first now d : ℕ) (held : List GroupMessagePart) (c : C) : Type 0 where
    pub parts : parts_in (laws.stored now d c) ≡ held
    pub since : started now (laws.stored now d c) ≡ first

  module _ (n d first now : ℕ) (p : GroupMessagePart) (g : Groups C R)
      (held : List GroupMessagePart) (h : IsPartOf uin n d p)
      (k : Holds first now d held g.group_message_builder) (young : IsYoung first now) where
    abbrev tidied : C
    tidied = tidy_parts ops now g.group_message_builder

    found_here : (ops.cache_get_or_set_with now p.div_seq tidied).0 ≡ held
    found_here =
        laws.found now p.div_seq tidied
        ∙ ap parts_in (tidy_parts-stored laws now p.div_seq g.group_message_builder)
        ∙ ap (λ (x : ℕ). parts_in (laws.stored now x g.group_message_builder)) h.of_message
        ∙ k.parts

    abbrev grown_cache : List GroupMessagePart → C
    grown_cache = (ops.cache_get_or_set_with now p.div_seq tidied).1

    written_here :
        (ps : List GroupMessagePart) → laws.stored now d (grown_cache ps) ≡ some (first, ps)
    written_here ps =
        ap (λ (x : ℕ). laws.stored now x (grown_cache ps)) (sym h.of_message)
        ∙ laws.written now p.div_seq p.div_seq tidied ps
        ∙ rw
            (
              ==_refl p.div_seq,
              tidy_parts-stored laws now p.div_seq g.group_message_builder,
              h.of_message,
              k.since,
              young,
            )
            refl

    grown :
        length ((ops.cache_get_or_set_with now p.div_seq tidied).0 ++ (p ∷ [])) ≡ length held + 1
    grown = rw found_here (length-append held (p ∷ []))

    merge_early :
        length held + 1 < n
        → (g' : Groups C R) × (merge_part ops now p g ≡ (waits, g'))
          × (laws.stored now d g'.group_message_builder ≡ some (first, held ++ (p ∷ [])))
    unfolding merge_part
    merge_early l = (
      record g { group_message_builder = grown_cache (held ++ (p ∷ [])) },
      rw (
        lt→ltb (length ((ops.cache_get_or_set_with now p.div_seq tidied).0 ++ (p ∷ []))) p.pkg_num
            (omega (arith, grown, h.of_count)),
        found_here,
      ),
      written_here (held ++ (p ∷ [])),
    )

    merge_last :
        length held + 1 ≡ n
        → (g' : Groups C R) × (merge_part ops now p g
            ≡ (message (parse_group_message (held ++ (p ∷ []))), g'))
          × (laws.stored now d g'.group_message_builder ≡ none)
    unfolding merge_part
    merge_last l =
        let full : List GroupMessagePart = held ++ (p ∷ []) in
        let taken : (ops.cache_remove now p.div_seq (grown_cache full)).0 ≡ some full =
          laws.removed now p.div_seq (grown_cache full)
          ∙ ap (λ (x : ℕ). found_parts (laws.stored now x (grown_cache full))) h.of_message
          ∙ ap found_parts (written_here full) in
        (
          record g {
            group_message_builder = (ops.cache_remove now p.div_seq (grown_cache full)).1;
          },
          rw (
            le→ltb (length ((ops.cache_get_or_set_with now p.div_seq tidied).0 ++ (p ∷ [])))
                p.pkg_num (omega (arith, grown, h.of_count)),
            found_here,
            taken,
          ),
          ap (λ (x : ℕ). laws.stored now x ((ops.cache_remove now p.div_seq (grown_cache full)).1))
                (sym h.of_message)
              ∙ laws.left now p.div_seq p.div_seq (grown_cache full)
              ∙ rw (==_refl p.div_seq) refl,
        )

  -- The entry at a later instant that is still within the 600 seconds.
  later_Holds :
      (first now t d : ℕ) (held : List GroupMessagePart) (c : C)
      → now ≤ t
      → IsYoung first t
      → laws.stored now d c ≡ some (first, held)
      → Holds first t d held c
  later_Holds first now t d held c l y e =
      let same : laws.stored t d c ≡ some (first, held) =
        laws.ages now t d c l ∙ ap (lasting t) e ∙ rw y refl in
      record { parts = ap parts_in same; since = ap (started t) same }

  process_all-step :
      (now : ℕ) (p : GroupMessagePart) (rest : List (ℕ × GroupMessagePart)) (g g' g'' : Groups C R)
      {a : Handled} {hs : List Handled}
      → process_group_message_part ops uin now p g ≡ (a, g')
      → process_all ops uin rest g' ≡ (hs, g'')
      → process_all ops uin ((now, p) ∷ rest) g ≡ (a ∷ hs, g'')
  process_all-step now p rest g g' g'' e f = rw (e, f)

  -- What parts that arrive do, from those that are held on.
  process_rest :
      (n d first now : ℕ) (p : GroupMessagePart) (rest : List (ℕ × GroupMessagePart))
      (held : List GroupMessagePart) (g : Groups C R)
      → 1 < n
      → n < 2 ^ 31
      → All (IsPartOf uin n d) (p ∷ parts_of rest)
      → IsYoung first now
      → IsTimely first now rest
      → Holds first now d held g.group_message_builder
      → length held + length (p ∷ parts_of rest) ≡ n
      → (g' : Groups C R) × (process_all ops uin ((now, p) ∷ rest) g ≡ (
        replicate (length (parts_of rest)) waits
            ++ (message (parse_group_message (held ++ (p ∷ parts_of rest))) ∷ []),
        g',
      ))
        × (laws.stored (last_of now rest) d g'.group_message_builder ≡ none)
  process_rest n d first now p [] held g l u h y o k c =
      let (g', e, k') = merge_last n d first now p g held h.0 k y (omega arith) in
      (g', rw (process_part n d now p g l u h.0, e), k')
  process_rest n d first now p ((t, q) ∷ rest) held g l u h y o k c =
      let (g', e, k') = merge_early n d first now p g held h.0 k y (omega arith) in
      let (g'', f, k'') =
        process_rest n d first t q rest (held ++ (p ∷ [])) g' l u h.1 o.1 o.2
          (later_Holds first now t d (held ++ (p ∷ [])) g'.group_message_builder o.0 o.1 k')
          (omega (arith, length-append held (p ∷ []))) in
      (
        g'',
        process_all-step now p ((t, q) ∷ rest) g g' g'' (process_part n d now p g l u h.0 ∙ e) f
            ∙ ap
                (λ x. (
                  replicate (suc (length (parts_of rest))) waits
                      ++ (message (parse_group_message x) ∷ []),
                  g'',
                ))
                (append_assoc held (p ∷ []) (q ∷ parts_of rest)),
        k'',
      )

  -- Where the cache keeps its promises and holds no part with this `div_seq`, all parts of a message of `n`
  -- parts, with 1 < n < 2 ^ 31, each of another account than the client's, that arrive in any order, one
  -- after the other and less than 600 seconds after the first of them, are handled as follows: nothing happens
  -- until the last one; then the message is handled that the parts, in the order of their indices, say one
  -- behind the other, with the group, the sender and the time of the part with the smallest index; and
  -- afterwards no part is kept. No two parts have the same index.
  pub process_all-any_order :
      (n d now : ℕ) (first_part : GroupMessagePart) (parts : List GroupMessagePart)
      (arrived : GroupMessagePart) (rest : List (ℕ × GroupMessagePart)) (g : Groups C R)
      → 1 < n
      → n < 2 ^ 31
      → Permᴰ (first_part ∷ parts) (arrived ∷ parts_of rest)
      → Ascending (first_part ∷ parts)
      → All (IsPartOf uin n d) (arrived ∷ parts_of rest)
      → length (arrived ∷ parts_of rest) ≡ n
      → IsTimely now now rest
      → laws.stored now d g.group_message_builder ≡ none
      → (g' : Groups C R) × (process_all ops uin ((now, arrived) ∷ rest) g
          ≡ (replicate (n - 1) waits ++ (message (merged first_part parts) ∷ []), g'))
        × (laws.stored (last_of now rest) d g'.group_message_builder ≡ none)
  process_all-any_order n d now first_part parts arrived rest g l u perm ascending h c o e =
      let young : IsYoung now now = lt→ltb ((now - now) / 1000000000) 600 (omega arith) in
      let empty : Holds now now d [] g.group_message_builder = record {
        parts = ap parts_in e;
        since = ap (started now) e;
      } in
      let (g', f, k) =
        process_rest n d now now arrived rest [] g l u h young o empty (omega (arith, c)) in
      let size : length (parts_of rest) ≡ n - 1 = omega (arith, c) in
      (
        g',
        f
            ∙ ap₂ (λ (m : ℕ) x. (replicate m waits ++ (message x ∷ []), g')) size
                (parse_group_message-merged first_part parts perm ascending),
        k,
      )
