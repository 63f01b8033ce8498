-- ===== src/Client/Pushes.antt =====
-- What the client tells its handler of notices: `process_push_req` and `process_push_trans` of
-- ricq/src/client/processor/online_push.rs, and `decode_online_push_trans_packet` of
-- ricq-core/src/command/online_push/decoder.rs. Signed numbers are their bit patterns, but those of texts
-- and of groups, which are computed with. The generated messages inside a notice are read by `Decoders`.
pub mod Read
use ricq.Base.{
  ℕ, ◌+◌, ◌^◌, List, [], ◌∷◌, ◌++◌, length, Option, none, some, Bool, true, false, ◌==◌, ◌||◌, ◌&&◌,
  not, same_bytes, if◌then◌else◌,
}
use ricq.Base.Int.{ℤ, pos, negsuc}
use ricq.Base.Decimal.{parse}
use ricq.Wire.{Wire}
use ricq.Utf8.{from_utf8_lossy}
use ricq.Result.{Result, ok, err, panic, decode, codes, map_ok}
use ricq.Binary.Reader.{
  Reader, ◌>>=◌, ◌>>◌, pure, fail, get_u8, get_u32, get_i32, advance, remaining,
}
use ricq.Group.{group_uin2code}
use ricq.Structs.{
  FriendInfo, GroupMute, FriendMessageRecall, GroupMessageRecall, GroupLeave, FriendPoke, GroupPoke,
  GroupNameUpdate, DeleteFriend, GroupDisband, OnlinePushTrans, PushTransInfo, member_leave,
  member_permission_change, group_disband, administrator, member,
}
use ricq.Client.Seen.{TimedCache, PushMessageInfo, push_req_exists, push_trans_exists}

-- `QEvent`, as far as notices make one.
pub data QEvent : Type 0 where
  group_mute : GroupMute → QEvent
  group_message_recall : GroupMessageRecall → QEvent
  group_poke : GroupPoke → QEvent
  friend_message_recall : FriendMessageRecall → QEvent
  new_friend : FriendInfo → QEvent
  group_leave : GroupLeave → QEvent
  friend_poke : FriendPoke → QEvent
  group_name_update : GroupNameUpdate → QEvent
  delete_friend : DeleteFriend → QEvent
  permission_change : PushTransInfo → QEvent
  disbanded : GroupDisband → QEvent

-- The fields of the generated messages that are read.
pub record RecalledMsg : Type 0 where
  pub msg_type : ℕ
  pub seq : ℕ
  pub author_uin : ℕ
  pub time : ℕ

pub record MsgRecall : Type 0 where
  pub uin : ℕ
  pub recalled_msg_list : List RecalledMsg

pub record TemplParam : Type 0 where
  pub name : List ℕ
  pub value : List ℕ

pub record NotifyMsgBody : Type 0 where
  pub opt_msg_recall : Option MsgRecall
  pub opt_general_gray_tip : Option (List TemplParam)

pub record Sub8aMsgInfo : Type 0 where
  pub msg_seq : ℕ
  pub from_uin : ℕ
  pub msg_time : ℕ

pub record AddFriendNotify : Type 0 where
  pub uin : ℕ
  pub nick : List ℕ

pub record ProfileInfo : Type 0 where
  pub field : ℕ
  pub value : List ℕ

pub record ModGroupProfile : Type 0 where
  pub group_code : ℕ
  pub cmd_uin : ℕ
  pub group_profile_infos : List ProfileInfo

pub record ModInfo : Type 0 where
  pub mod_group_profile : Option ModGroupProfile
  pub del_friend : Option (List ℕ)

-- `from_buf` of jcers, of the type of a 0x210 message and its bytes, and `decode` of prost; where they
-- fail, `unwrap` panics.
pub record Decoders : Type 0 where
  pub msg_type_0x210 : List ℕ → Option (ℕ × List ℕ)
  pub notify_msg_body : List ℕ → Option NotifyMsgBody
  pub sub_8a : List ℕ → Option (List Sub8aMsgInfo)
  pub sub_b3 : List ℕ → Option (Option AddFriendNotify)
  pub sub_d4 : List ℕ → Option ℤ
  pub general_gray_tip : List ℕ → Option (List TemplParam)
  pub sub_msg_0x27 : List ℕ → Option (List ModInfo)

abbrev pub unwrap : {A : Type 0} → Option A → Result A
unwrap none = panic
unwrap (some a) = ok a

-- `value.parse().unwrap_or_default()` to an `i64`.
abbrev pub or_zero : Option ℤ → ℤ
or_zero none = pos 0
or_zero (some z) = z

-- The sender and the receiver of a poke.
unfoldable pub poke_names : List TemplParam → ℤ × ℤ → ℤ × ℤ
poke_names [] p = p
poke_names (t ∷ rest) (sender, receiver) =
    if same_bytes t.name (codes "uin_str1")
    then poke_names rest (or_zero (parse (2 ^ 63) t.value), receiver)
    else if same_bytes t.name (codes "uin_str2")
    then poke_names rest (sender, or_zero (parse (2 ^ 63) t.value))
    else poke_names rest (sender, receiver)

unfoldable pub is_zero : ℤ → Bool
is_zero (pos n) = n == 0
is_zero (negsuc n) = false

unfoldable pub group_poke_of : ℕ → ℤ × ℤ → List QEvent
group_poke_of group_code (sender, receiver) =
    if is_zero sender
    then []
    else group_poke (record { group_code = group_code; sender = sender; receiver = receiver }) ∷ []

unfoldable pub friend_poke_of : ℤ × ℤ → List QEvent
friend_poke_of (sender, receiver) =
    if is_zero sender
    then []
    else friend_poke (record { sender = sender; receiver = receiver }) ∷ []

unfoldable pub recalls : ℕ → ℕ → List RecalledMsg → List QEvent
recalls group_code operator_uin [] = []
recalls group_code operator_uin (rm ∷ rest) =
    let later = recalls group_code operator_uin rest in
    if rm.msg_type == 2
    then later
    else group_message_recall (record {
      msg_seq = rm.seq;
      group_code = group_code;
      operator_uin = operator_uin;
      author_uin = rm.author_uin;
      time = rm.time;
    })
      ∷ later

unfoldable pub recalls_of : ℕ → Option MsgRecall → List QEvent
recalls_of group_code none = []
recalls_of group_code (some r) = recalls group_code r.uin r.recalled_msg_list

unfoldable pub tip_of : ℕ → Option (List TemplParam) → List QEvent
tip_of group_code none = []
tip_of group_code (some t) = group_poke_of group_code (poke_names t (pos 0, pos 0))

unfoldable pub notify_events : ℕ → NotifyMsgBody → List QEvent
notify_events group_code b =
    recalls_of group_code b.opt_msg_recall ++ tip_of group_code b.opt_general_gray_tip

unfoldable pub friend_recalls : List Sub8aMsgInfo → List QEvent
friend_recalls [] = []
friend_recalls (m ∷ rest) =
    friend_message_recall
      (record { msg_seq = m.msg_seq; friend_uin = m.from_uin; time = m.msg_time })
    ∷ friend_recalls rest

unfoldable pub new_friend_of : Option AddFriendNotify → List QEvent
new_friend_of none = []
new_friend_of (some f) =
    new_friend (record { uin = f.uin; nick = f.nick; remark = []; face_id = 0; group_id = 0 }) ∷ []

-- A field other than 1 is no name.
unfoldable pub name_updates : ModGroupProfile → List ProfileInfo → List QEvent
name_updates g [] = []
name_updates g (p ∷ rest) =
    let later = name_updates g rest in
    if p.field == 1
    then group_name_update (record {
      group_code = g.group_code;
      operator_uin = g.cmd_uin;
      group_name = from_utf8_lossy p.value;
    })
      ∷ later
    else later

unfoldable pub updates_of : Option ModGroupProfile → List QEvent
updates_of none = []
updates_of (some g) = name_updates g g.group_profile_infos

unfoldable pub deletions : List ℕ → List QEvent
deletions [] = []
deletions (uin ∷ rest) = delete_friend (record { uin = uin }) ∷ deletions rest

unfoldable pub deletions_of : Option (List ℕ) → List QEvent
deletions_of none = []
deletions_of (some uins) = deletions uins

unfoldable pub mod_events : List ModInfo → List QEvent
mod_events [] = []
mod_events (m ∷ rest) =
    updates_of m.mod_group_profile ++ (deletions_of m.del_friend ++ mod_events rest)

module _ (d : Decoders) (uin : ℕ) where
  -- By the type of a 0x210 message.
  unfoldable pub events_0x210 : ℕ × List ℕ → Result (List QEvent)
  events_0x210 (sub_msg_type, v_protobuf) =
      if sub_msg_type == 0x8A || sub_msg_type == 0x8B
      then map_ok friend_recalls (unwrap (d.sub_8a v_protobuf))
      else if sub_msg_type == 0xB3
      then map_ok new_friend_of (unwrap (d.sub_b3 v_protobuf))
      else if sub_msg_type == 0xD4
      then map_ok
          (λ (group : ℤ).
            group_leave (record { group_code = group; member_uin = uin; operator_uin = none }) ∷ [])
          (unwrap (d.sub_d4 v_protobuf))
      else if sub_msg_type == 0x122 || sub_msg_type == 0x123
      then map_ok (λ t. friend_poke_of (poke_names t (pos 0, pos 0)))
          (unwrap (d.general_gray_tip v_protobuf))
      else if sub_msg_type == 0x27
      then map_ok mod_events (unwrap (d.sub_msg_0x27 v_protobuf))
      else ok []

  unfoldable pub after_0x210 : Result (ℕ × List ℕ) → Result (List QEvent)
  after_0x210 (ok m) = events_0x210 m
  after_0x210 (err e) = err e
  after_0x210 panic = panic

  module _ ⦃w : Wire⦄ where
    -- A member or all of a group cannot speak; the client's own doing is left out.
    unfoldable pub read_mute : ℕ → Reader (List QEvent)
    read_mute group_code = do
      operator ← get_u32
      if operator == uin then pure [] else (do
        advance 6
        target ← get_u32
        duration ← get_u32
        pure (
            group_mute (record {
              group_code = group_code;
              operator_uin = operator;
              target_uin = target;
              duration = duration;
            })
            ∷ []))

    -- What remains is a `NotifyMsgBody`.
    unfoldable pub read_notify : ℕ → Reader (List QEvent)
    read_notify group_code r =
        map_ok (λ b. (notify_events group_code b, r)) (unwrap (d.notify_msg_body r))

    unfoldable pub read_732 : Reader (List QEvent)
    read_732 = do
      group_code ← get_u32
      i_type ← get_u8
      get_u8
      if i_type == 0x0c
          then read_mute group_code
          else if i_type == 0x10 || i_type == 0x11 || i_type == 0x14 || i_type == 0x15
          then (do advance 1; read_notify group_code)
          else pure []

    unfoldable pub push_events : PushMessageInfo → Result (List QEvent)
    push_events info =
        if info.msg_type == 732
        then map_ok (λ (r : List QEvent × List ℕ). r.0) (read_732 info.v_msg)
        else if info.msg_type == 528
        then after_0x210 (unwrap (d.msg_type_0x210 info.v_msg))
        else ok []

    -- What a notice adds to those behind it; a panic is the end of the task, which has told the handler of
    -- the events before.
    unfoldable pub after_push :
        {C : Type 0} → Result (List QEvent) → List QEvent × Result C → List QEvent × Result C
    after_push (ok es) later = (es ++ later.0, later.1)
    after_push (err e) later = ([], err e)
    after_push panic later = ([], panic)

    -- The loop over the notices, each with the instant at which it is looked at.
    unfoldable pub process_push_req :
        {C : Type 0}
        → TimedCache (ℕ × ℕ) C
        → ℕ
        → List (ℕ × PushMessageInfo)
        → C
        → List QEvent × Result C
    process_push_req ops start_time [] c = ([], ok c)
    process_push_req ops start_time ((now, info) ∷ rest) c =
        let (seen, c') = push_req_exists ops start_time now info c in
        let later = process_push_req ops start_time rest c' in
        if seen then later else after_push (push_events info) later

unfoldable pub trans_event : PushTransInfo → QEvent
trans_event (member_leave leave) = group_leave leave
trans_event (member_permission_change change) = permission_change (member_permission_change change)
trans_event (group_disband disband) = disbanded disband

unfoldable pub process_push_trans :
    {C : Type 0} → TimedCache (ℕ × ℕ) C → ℕ → ℕ → OnlinePushTrans → C → List QEvent × C
process_push_trans ops start_time now push_trans c =
    let (seen, c') = push_trans_exists ops start_time now push_trans c in
    if seen then ([], c') else (trans_event push_trans.info ∷ [], c')

-- The fields of `TransMsgInfo` that are read.
pub record TransMsgInfo : Type 0 where
  pub from_uin : Option ℤ
  pub msg_type : Option ℕ
  pub msg_seq : Option ℕ
  pub msg_uid : Option ℕ
  pub msg_time : Option ℕ
  pub msg_data : Option (List ℕ)

abbrev pub number_or_zero : Option ℕ → ℕ
number_or_zero none = 0
number_or_zero (some n) = n

-- Who left a group, by the type of the notice.
unfoldable pub leave_info : ℤ → ℕ → ℕ → ℕ → Option PushTransInfo
leave_info group_code target typ operator =
    if typ == 0x01 || typ == 0x81
    then some (group_disband (record { group_code = group_code; operator_uin = operator }))
    else if typ == 0x02 || typ == 0x82
    then some (
        member_leave (record { group_code = group_code; member_uin = target; operator_uin = none }))
    else if typ == 0x03 || typ == 0x83
    then some (
        member_leave
          (record { group_code = group_code; member_uin = target; operator_uin = some operator }))
    else none

unfoldable pub permission_info : ℤ → ℕ → ℕ → PushTransInfo
permission_info group_code target flag = member_permission_change (record {
  group_code = group_code;
  member_uin = target;
  new_permission = if flag == 1 then administrator else member;
})

module _ ⦃w : Wire⦄ where
  unfoldable pub read_leave : ℤ → Reader (Option PushTransInfo)
  read_leave group_code = do
    get_i32
    get_u8
    target ← get_u32
    typ ← get_u8
    operator ← get_u32
    pure (leave_info group_code target typ operator)

  -- Behind the target: a number unless `var4` is 0 or 1.
  unfoldable pub read_var5 : ℕ → Reader ℕ
  read_var5 var4 = if var4 == 0 || var4 == 1 then pure 0 else get_u32

  unfoldable pub read_permission : ℤ → Reader (Option PushTransInfo)
  read_permission group_code = do
    advance 5
    var4 ← get_u8
    target ← get_u32
    var5 ← read_var5 var4
    left ← remaining
    if (var5 == 0) && (left == 1)
        then (do flag ← get_u8; pure (some (permission_info group_code target flag)))
        else pure none

  unfoldable pub read_trans : Option ℕ → ℤ → Reader (Option PushTransInfo)
  read_trans none group_code = pure none
  read_trans (some msg_type) group_code =
      if msg_type == 34
      then read_leave group_code
      else if msg_type == 44
      then read_permission group_code
      else pure none

  -- `message` is the text of the error, which prints the type of the notice.
  unfoldable pub trans_result :
      List ℕ → TransMsgInfo → Result (Option PushTransInfo × List ℕ) → Result OnlinePushTrans
  trans_result message info (ok (none, r)) = err (decode message)
  trans_result message info (ok (some i, r)) = ok (record {
    msg_seq = number_or_zero info.msg_seq;
    msg_uid = number_or_zero info.msg_uid;
    msg_time = number_or_zero info.msg_time;
    info = i;
  })
  trans_result message info (err e) = err e
  trans_result message info panic = panic

  unfoldable pub with_data :
      List ℕ → TransMsgInfo → Option ℤ → Option (List ℕ) → Result OnlinePushTrans
  with_data message info none bytes =
      err (decode (codes "decode_online_push_trans_packet from_uin is 0"))
  with_data message info (some uin) none = err (decode (codes "msg_data is none"))
  with_data message info (some uin) (some bytes) =
      trans_result message info (read_trans info.msg_type (group_uin2code uin) bytes)

  -- From the message on that prost has read.
  unfoldable pub decode_online_push_trans_packet : List ℕ → TransMsgInfo → Result OnlinePushTrans
  decode_online_push_trans_packet message info = with_data message info info.from_uin info.msg_data
