-- ===== src/Client/Seen.antt =====
-- What the client does not handle twice: `msg_exists` and `process_message_sync` of
-- ricq/src/client/processor/message_svc.rs, `push_req_exists` and `push_trans_exists` of
-- ricq/src/client/processor/online_push.rs. An instant is a number of nanoseconds since the epoch, of one
-- clock for `UNIX_EPOCH` and for the caches; signed numbers are their bit patterns, and overflow
-- wraps. `TimedCache` of the package cached is a parameter.
pub mod Window
pub mod Recent
use ricq.Base.{
  ℕ, ◌+◌, ◌-◌, ◌/◌, ◌%◌, ◌^◌, List, [], ◌∷◌, Option, none, some, Bool, true, false, ◌==◌, ltb, ◌&&◌,
  ◌||◌, not, if◌then◌else◌,
}
use ricq.Structs.{OnlinePushTrans}
use ricq.Result.{Result, ok, panic, map_ok}

-- The operations of the cache, at an instant where they read the clock: whether `cache_get` finds the
-- key, the cache afterwards, and the number of times it did not, which is `unwrap_or_default` of
-- `cache_misses`.
pub record TimedCache (K C : Type 0) : Type 0 where
  pub cache_get : ℕ → K → C → Bool × C
  pub cache_set : ℕ → K → C → C
  pub cache_misses : C → ℕ
  pub flush : ℕ → C → C
  pub cache_reset_metrics : C → C

-- `UNIX_EPOCH.elapsed().unwrap().as_secs()`
abbrev pub as_secs : ℕ → ℕ
as_secs t = t / 1000000000

-- `now - msg_time > 60` and `self.start_time > msg_time`, of `i32`.
abbrev pub i32_sub : ℕ → ℕ → ℕ
i32_sub a b = (a + 2 ^ 32 - b % 2 ^ 32) % 2 ^ 32

abbrev pub i32_gt : ℕ → ℕ → Bool
i32_gt a b = ltb ((b + 2 ^ 31) % 2 ^ 32) ((a + 2 ^ 31) % 2 ^ 32)

abbrev pub unwrap_or_default : Option ℕ → ℕ
unwrap_or_default none = 0
unwrap_or_default (some n) = n

-- The fields of `pb::msg::MessageHead` that are read, with the defaults of those that may be absent.
pub record MessageHead : Type 0 where
  pub from_uin : ℕ
  pub to_uin : ℕ
  pub msg_type : ℕ
  pub msg_seq : ℕ
  pub msg_uid : ℕ
  pub msg_time : Option ℕ

abbrev pub Key : Type 0
Key = ℕ × ℕ × ℕ × ℕ

unfoldable pub key_of : MessageHead → Key
key_of head = (head.from_uin, head.to_uin, head.msg_seq, head.msg_uid)

-- `==` of keys.
unfoldable pub same_key : Key → Key → Bool
same_key (a, b, c, d) (e, f, g, h) = (a == e) && (b == f) && (c == g) && (d == h)

unfoldable pub same_pair : ℕ × ℕ → ℕ × ℕ → Bool
same_pair (a, b) (c, d) = (a == c) && (b == d)

module _ {K C : Type 0} (ops : TimedCache K C) where
  -- The cache is flushed once it has missed more than `limit` times.
  unfoldable pub tidy : ℕ → ℕ → C → C
  tidy limit now c =
      if ltb limit (ops.cache_misses c) then ops.cache_reset_metrics (ops.flush now c) else c

  -- What the three functions do alike, for a key.
  unfoldable pub check_key : ℕ → ℕ → K → C → Bool × C
  check_key limit now k c =
      let (hit, c') = ops.cache_get now k c in
      if hit then (true, c') else (false, tidy limit now (ops.cache_set now k c'))

  -- What is too old is not looked up.
  unfoldable pub check_unless : Bool → ℕ → ℕ → K → C → Bool × C
  check_unless old limit now k c = if old then (true, c) else check_key limit now k c

-- Whether a message is out of its minute, or older than the client.
unfoldable pub too_old : ℕ → ℕ → Option ℕ → Bool
too_old start_time now time =
    i32_gt (i32_sub (as_secs now % 2 ^ 32) (unwrap_or_default time)) 60
    || i32_gt start_time (unwrap_or_default time)

unfoldable pub msg_exists : {C : Type 0} → TimedCache Key C → ℕ → ℕ → MessageHead → C → Bool × C
msg_exists ops start_time now head c =
    check_unless ops (too_old start_time now head.msg_time) 100 now (key_of head) c

-- A notice of `process_push_req`, with the fields that are read; one whose `msg_time as i32` is 0 is not
-- too old.
pub record PushMessageInfo : Type 0 where
  pub msg_seq : ℕ
  pub msg_uid : ℕ
  pub msg_time : ℕ
  pub msg_type : ℕ
  pub v_msg : List ℕ

unfoldable pub req_too_old : ℕ → ℕ → Bool
req_too_old start_time time = not (time % 2 ^ 32 == 0) && i32_gt start_time (time % 2 ^ 32)

unfoldable pub push_req_exists :
    {C : Type 0} → TimedCache (ℕ × ℕ) C → ℕ → ℕ → PushMessageInfo → C → Bool × C
push_req_exists ops start_time now info c =
    check_unless ops (req_too_old start_time info.msg_time) 10 now (info.msg_seq, info.msg_uid) c

unfoldable pub push_trans_exists :
    {C : Type 0} → TimedCache (ℕ × ℕ) C → ℕ → ℕ → OnlinePushTrans → C → Bool × C
push_trans_exists ops start_time now info c =
    check_unless ops (i32_gt start_time info.msg_time) 10 now (info.msg_seq, info.msg_uid) c

-- What `process_message_sync` does with a message that it has not seen.
pub data SyncAction : Type 0 where
  friend_message join_group temp_message friend_ptt_store unhandled : SyncAction

unfoldable pub sync_action : ℕ → SyncAction
sync_action t =
    if t == 9
      || t == 10
      || t == 31
      || t == 79
      || t == 97
      || t == 120
      || t == 132
      || t == 133
      || t == 166
      || t == 167
    then friend_message
    else if t == 33
    then join_group
    else if t == 140 || t == 141
    then temp_message
    else if t == 208
    then friend_ptt_store
    else unhandled

abbrev pub Message : Type 0
Message = Option MessageHead

-- The loop over the messages, each with the instant at which it is looked at. A message without a
-- head makes the task panic.
unfoldable pub process_message_sync :
    {C : Type 0}
    → TimedCache Key C
    → ℕ
    → List (ℕ × Message)
    → C
    → Result (List (SyncAction × MessageHead) × C)
process_message_sync ops start_time [] c = ok ([], c)
process_message_sync ops start_time ((now, none) ∷ rest) c = panic
process_message_sync ops start_time ((now, some head) ∷ rest) c =
    let (seen, c') = msg_exists ops start_time now head c in
    let later = process_message_sync ops start_time rest c' in
    if seen
    then later
    else map_ok (λ (done, c''). ((sync_action head.msg_type, head) ∷ done, c'')) later
