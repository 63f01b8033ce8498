-- ===== src/Structs.antt =====
-- ricq-core/src/structs.rs, ricq-core/src/command/friendlist/mod.rs and
-- ricq-core/src/command/online_push/mod.rs: friends, groups and members, the responses that list them, and
-- what notices tell of them. Signed numbers are their bit patterns, a text is the list of its bytes,
-- and a map is a function.
use ricq.Base.{ℕ, List, Option}
use ricq.Base.Int.{ℤ}

pub data GroupMemberPermission : Type 0 where
  owner administrator member : GroupMemberPermission

pub record FriendInfo : Type 0 where
  pub uin : ℕ
  pub nick : List ℕ
  pub remark : List ℕ
  pub face_id : ℕ
  pub group_id : ℕ

pub record FriendGroupInfo : Type 0 where
  pub group_id : ℕ
  pub group_name : List ℕ
  pub friend_count : ℕ
  pub online_friend_count : ℕ
  pub seq_id : ℕ

pub record GroupInfo : Type 0 where
  pub uin : ℕ
  pub code : ℕ
  pub name : List ℕ
  pub memo : List ℕ
  pub owner_uin : ℕ
  pub group_create_time : ℕ
  pub group_level : ℕ
  pub member_count : ℕ
  pub max_member_count : ℕ
  pub shut_up_timestamp : ℕ
  pub my_shut_up_timestamp : ℕ
  pub last_msg_seq : ℕ

pub record GroupMemberInfo : Type 0 where
  pub group_code : ℕ
  pub uin : ℕ
  pub gender : ℕ
  pub nickname : List ℕ
  pub card_name : List ℕ
  pub level : ℕ
  pub join_time : ℕ
  pub last_speak_time : ℕ
  pub special_title : List ℕ
  pub special_title_expire_time : ℕ
  pub shut_up_timestamp : ℕ
  pub permission : GroupMemberPermission

pub record FriendListResponse : Type 0 where
  pub friends : List FriendInfo
  pub friend_groups : ℕ → Option FriendGroupInfo
  pub total_count : ℕ
  pub online_friend_count : ℕ

pub record GroupListResponse : Type 0 where
  pub groups : List GroupInfo
  pub vec_cookie : List ℕ

pub record GroupMemberListResponse : Type 0 where
  pub next_uin : ℕ
  pub list : List GroupMemberInfo

pub record GroupMute : Type 0 where
  pub group_code : ℕ
  pub operator_uin : ℕ
  pub target_uin : ℕ
  pub duration : ℕ

pub record FriendMessageRecall : Type 0 where
  pub msg_seq : ℕ
  pub friend_uin : ℕ
  pub time : ℕ

pub record GroupMessageRecall : Type 0 where
  pub msg_seq : ℕ
  pub group_code : ℕ
  pub operator_uin : ℕ
  pub author_uin : ℕ
  pub time : ℕ

pub record GroupLeave : Type 0 where
  pub group_code : ℤ
  pub member_uin : ℕ
  pub operator_uin : Option ℕ

pub record FriendPoke : Type 0 where
  pub sender : ℤ
  pub receiver : ℤ

pub record GroupPoke : Type 0 where
  pub group_code : ℕ
  pub sender : ℤ
  pub receiver : ℤ

pub record GroupNameUpdate : Type 0 where
  pub group_code : ℕ
  pub operator_uin : ℕ
  pub group_name : List ℕ

pub record DeleteFriend : Type 0 where
  pub uin : ℕ

pub record MemberPermissionChange : Type 0 where
  pub group_code : ℤ
  pub member_uin : ℕ
  pub new_permission : GroupMemberPermission

pub record GroupDisband : Type 0 where
  pub group_code : ℤ
  pub operator_uin : ℕ

pub data PushTransInfo : Type 0 where
  member_leave : GroupLeave → PushTransInfo
  member_permission_change : MemberPermissionChange → PushTransInfo
  group_disband : GroupDisband → PushTransInfo

pub record OnlinePushTrans : Type 0 where
  pub msg_seq : ℕ
  pub msg_uid : ℕ
  pub msg_time : ℕ
  pub info : PushTransInfo
