-- ===== src/Runs/Notices.antt =====
-- Runs of the caches of ricq/src/client/processor and of `sync_all_message` of
-- ricq/src/client/api/mod.rs.
use ricq.Base.{
  ℕ, ◌+◌, ◌-◌, ◌*◌, ◌≤◌, ◌≡◌, inl, inr, refl, arith, [], ◌∷◌, Option, none, some, Bool, true, false,
  ltb, Bool-cases, ltb_false→le, le→ltb, if◌then◌else◌,
}
use ricq.Result.{Result, ok}
use ricq.Protocol.Sig.{Sig}
use ricq.Base.Int.{pos}
use ricq.Structs.{OnlinePushTrans, group_disband}
use ricq.Client.Seen.{
  TimedCache, as_secs, MessageHead, Key, same_key, same_pair, too_old, msg_exists, PushMessageInfo,
  push_req_exists, push_trans_exists, check_unless, check_key, tidy,
}
use ricq.Client.Seen.Recent.{
  recent, IsTimed, is_before, refuses_message, refuses_notice, answers, admit, nothing_yet,
  msg_exists-refines, push_exists-refines,
}
use ricq.Client.Seen.Window.{after, msg_exists-once}
use ricq.Client.Sync.{MessageSyncResponse}

-- A cache as the instants of its keys and the number of its misses.
abbrev pub Table : Type 0 → Type 0
Table K = (K → Option ℕ) × ℕ

abbrev within : ℕ → ℕ → Option ℕ → Bool
within lifespan now none = false
within lifespan now (some at) = ltb (as_secs (now - at)) lifespan

abbrev keep_if : Bool → Option ℕ → Option ℕ
keep_if true at = at
keep_if false at = none

abbrev pub table : {K : Type 0} → (K → K → Bool) → ℕ → TimedCache K (Table K)
table same lifespan = record {
  cache_get = λ now k c. (within lifespan now (c.0 k), (c.0, c.1 + 1));
  cache_set = λ now k c. ((λ j. if same k j then some now else c.0 j), c.1);
  cache_misses = λ c. c.1;
  flush = λ now c. ((λ k. keep_if (within lifespan now (c.0 k)) (c.0 k)), c.1);
  cache_reset_metrics = λ c. (c.0, 0);
}

set_within :
    (b : Bool) (lifespan now t : ℕ) (at : Option ℕ)
    → within lifespan t (if b then some now else at)
      ≡ (if b then recent lifespan t (some now) else within lifespan t at)
unfolding recent
set_within true lifespan now t at = refl
set_within false lifespan now t at = refl

flush_within :
    (lifespan now t : ℕ) (at : Option ℕ)
    → now ≤ t
    → within lifespan t (keep_if (within lifespan now at) at) ≡ within lifespan t at
flush_within lifespan now t none h = refl
flush_within lifespan now t (some at) h = elim (Bool-cases (ltb (as_secs (now - at)) lifespan)) [
  | inl b ↦ rw b
  | inr b ↦
      let late : lifespan ≤ as_secs (now - at) = ltb_false→le _ _ b in
      rw (b, le→ltb (as_secs (t - at)) lifespan (omega (arith, late)))
]

table-IsTimed :
    {K : Type 0} (same : K → K → Bool) (lifespan : ℕ) → IsTimed same lifespan (table same lifespan)
table-IsTimed same lifespan = record {
  get_keeps = λ now t j k c h. refl;
  set_found = λ now t j k c h. set_within (same j k) lifespan now t (c.0 k);
  flush_keeps = λ now t k c h. flush_within lifespan now t (c.0 k) h;
  reset_keeps = λ t k c. refl;
}

abbrev pub no_keys : {K : Type 0} → Table K
no_keys = ((λ k. none), 0)

abbrev pub second : ℕ
second = 1000000000

abbrev greeting : MessageHead
greeting = record {
  from_uin = 10001;
  to_uin = 10002;
  msg_type = 166;
  msg_seq = 7;
  msg_uid = 9;
  msg_time = some 100;
}

msg_exists-refines_example :
    answers
      (msg_exists (table same_key 3600) 50)
      ((110 * second, greeting) ∷ (111 * second, greeting) ∷ (300 * second, greeting) ∷ [])
      no_keys
    ≡ answers
        (λ now head.
          admit same_key 3600
            (refuses_message 50 now head)
            now
            (head.from_uin, head.to_uin, head.msg_seq, head.msg_uid))
        ((110 * second, greeting) ∷ (111 * second, greeting) ∷ (300 * second, greeting) ∷ [])
        nothing_yet
msg_exists-refines_example =
    msg_exists-refines 50 no_keys (table same_key 3600)
      ((110 * second, greeting) ∷ (111 * second, greeting) ∷ (300 * second, greeting) ∷ [])
      (table-IsTimed same_key 3600) (λ t k. refl) (omega arith, (omega arith, (omega arith, tt)))

abbrev pub notice : PushMessageInfo
notice = record { msg_seq = 3; msg_uid = 4; msg_time = 0; msg_type = 732; v_msg = [] }

abbrev left_group : OnlinePushTrans
left_group = record {
  msg_seq = 3;
  msg_uid = 4;
  msg_time = 60;
  info = group_disband (record { group_code = pos 1; operator_uin = 10001 });
}

push_exists-refines_example :
    (answers
        (push_req_exists (table same_pair 30) 50)
        ((60 * second, notice) ∷ (70 * second, notice) ∷ [])
        no_keys
      ≡ answers
          (λ now info. admit same_pair 30 (refuses_notice 50 info) now (info.msg_seq, info.msg_uid))
          ((60 * second, notice) ∷ (70 * second, notice) ∷ [])
          nothing_yet)
    × (answers
          (push_trans_exists (table same_pair 15) 50)
          ((60 * second, left_group) ∷ (80 * second, left_group) ∷ [])
          no_keys
        ≡ answers
            (λ now info.
              admit same_pair 15 (is_before info.msg_time 50) now (info.msg_seq, info.msg_uid))
            ((60 * second, left_group) ∷ (80 * second, left_group) ∷ [])
            nothing_yet)
push_exists-refines_example =
    push_exists-refines 50 no_keys (table same_pair 30) (table same_pair 15)
      ((60 * second, notice) ∷ (70 * second, notice) ∷ [])
      ((60 * second, left_group) ∷ (80 * second, left_group) ∷ []) (table-IsTimed same_pair 30)
      (table-IsTimed same_pair 15) (λ t k. refl) (λ t k. refl) (omega arith, (omega arith, tt))
      (omega arith, (omega arith, tt))

abbrev other_greeting : MessageHead
other_greeting = record greeting { msg_seq = 8 }

abbrev seen_once : Table Key
seen_once = (msg_exists (table same_key 3600) 50 (110 * second) greeting no_keys).1

msg_exists-once_example :
    (msg_exists (table same_key 3600) 50 (150 * second) greeting (
      after
        (msg_exists (table same_key 3600) 50)
        ((120 * second, other_greeting) ∷ [])
        seen_once)).0
    ≡ true
unfolding msg_exists check_unless check_key too_old tidy
msg_exists-once_example =
    msg_exists-once (table same_key 3600) 50 (110 * second) (150 * second) greeting
      ((120 * second, other_greeting) ∷ []) no_keys seen_once (table-IsTimed same_key 3600) refl
      (omega arith, (omega arith, tt)) (omega arith) (omega arith)

-- A server that has one message, and no more afterwards.
abbrev one_message : ℕ → ℕ → Sig → Result MessageSyncResponse
one_message round flag sig = ok (record {
  msg_rsp_type = 0;
  sync_flag = 2;
  sync_cookie = none;
  pub_account_cookie = none;
  msgs = some greeting ∷ [];
})
