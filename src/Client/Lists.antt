-- ===== src/Client/Lists.antt =====
-- `get_friend_list` of ricq/src/client/api/friend.rs, `get_group_list` and `get_group_member_list` of
-- ricq/src/client/api/group.rs: the loops that ask for one page after the other. What one request gets
-- from the server, which may answer each round differently, is an argument. A loop has fuel, a request
-- each, and is `none` while it still asks.
pub mod Friends
pub mod Pages
use ricq.Base.{
  ℕ, suc, ◌+◌, ◌%◌, ◌^◌, List, [], ◌∷◌, ◌++◌, length, Option, none, some, Bool, true, false, leb,
  ◌==◌, if◌then◌else◌,
}
use ricq.Result.{Result, ok, err, panic, RqError, empty_field, codes}
use ricq.Structs.{
  FriendGroupInfo, GroupInfo, GroupMemberInfo, FriendListResponse, GroupListResponse,
  GroupMemberListResponse,
}

abbrev pub is_empty : {A : Type 0} → List A → Bool
is_empty [] = true
is_empty (x ∷ xs) = false

-- `as i16`, and `>=` of `i16`.
abbrev pub as_i16 : ℕ → ℕ
as_i16 n = n % 2 ^ 16

-- The arguments of `_get_friend_list`.
pub record FriendPage : Type 0 where
  pub friend_start_index : ℕ
  pub friend_list_count : ℕ
  pub group_start_index : ℕ
  pub group_list_count : ℕ

-- `extend` of a map: later entries replace earlier ones.
unfoldable pub or_else : Option FriendGroupInfo → Option FriendGroupInfo → Option FriendGroupInfo
or_else none old = old
or_else (some new) old = some new

unfoldable pub friend_list_default : FriendListResponse
friend_list_default = record {
  friends = [];
  friend_groups = λ id. none;
  total_count = 0;
  online_friend_count = 0;
}

-- What a page adds.
unfoldable pub add_page : FriendListResponse → FriendListResponse → FriendListResponse
add_page resp output = record output {
  friend_groups = λ id. or_else (resp.friend_groups id) (output.friend_groups id);
  friends = output.friends ++ resp.friends;
  total_count = resp.total_count;
}

unfoldable pub next_page : FriendListResponse → FriendPage
next_page output = record {
  friend_start_index = as_i16 (length output.friends);
  friend_list_count = 150;
  group_start_index = 0;
  group_list_count = 0;
}

-- `output.friends.len() as i16 >= resp.total_count`
unfoldable pub has_all : FriendListResponse → Bool
has_all output =
    leb ((output.total_count + 2 ^ 15) % 2 ^ 16)
      ((as_i16 (length output.friends) + 2 ^ 15) % 2 ^ 16)

-- What the loop does with an answer; `next` is its next round.
unfoldable pub take_page :
    Result FriendListResponse
    → FriendListResponse
    → (FriendListResponse → Option (Result FriendListResponse))
    → Option (Result FriendListResponse)
take_page (ok resp) output next =
    if has_all (add_page resp output)
    then some (ok (add_page resp output))
    else next (add_page resp output)
take_page (err e) output next = some (err e)
take_page panic output next = some panic

unfoldable pub friend_loop :
    (ℕ → FriendPage → Result FriendListResponse)
    → ℕ
    → ℕ
    → FriendListResponse
    → Option (Result FriendListResponse)
friend_loop ask ℕ.zero round output = none
friend_loop ask (suc fuel) round output =
    take_page (ask round (next_page output)) output (λ out. friend_loop ask fuel (suc round) out)

unfoldable pub get_friend_list :
    (ℕ → FriendPage → Result FriendListResponse) → ℕ → Option (Result FriendListResponse)
get_friend_list ask fuel = friend_loop ask fuel 0 friend_list_default

-- An answer with groups; `next` is the round after it, with its cookie.
unfoldable pub take_groups :
    Result GroupListResponse
    → List GroupInfo
    → (List ℕ → List GroupInfo → Option (Result (List GroupInfo)))
    → Option (Result (List GroupInfo))
take_groups (ok resp) groups next =
    if is_empty resp.vec_cookie
    then some (ok (groups ++ resp.groups))
    else next resp.vec_cookie (groups ++ resp.groups)
take_groups (err e) groups next = some (err e)
take_groups panic groups next = some panic

unfoldable pub group_loop :
    (ℕ → List ℕ → Result GroupListResponse)
    → ℕ
    → ℕ
    → List ℕ
    → List GroupInfo
    → Option (Result (List GroupInfo))
group_loop ask ℕ.zero round vec_cookie groups = none
group_loop ask (suc fuel) round vec_cookie groups =
    take_groups (ask round vec_cookie) groups
      (λ cookie more. group_loop ask fuel (suc round) cookie more)

unfoldable pub get_group_list :
    (ℕ → List ℕ → Result GroupListResponse) → ℕ → Option (Result (List GroupInfo))
get_group_list ask fuel = group_loop ask fuel 0 [] []

-- `m.group_code = group_code` for each member.
unfoldable pub set_group_code : ℕ → List GroupMemberInfo → List GroupMemberInfo
set_group_code group_code [] = []
set_group_code group_code (m ∷ rest) =
    record m { group_code = group_code } ∷ set_group_code group_code rest

-- An answer with members; `next` is the round after it, with its `next_uin`.
unfoldable pub take_members :
    ℕ
    → Result GroupMemberListResponse
    → List GroupMemberInfo
    → (ℕ → List GroupMemberInfo → Option (Result (List GroupMemberInfo)))
    → Option (Result (List GroupMemberInfo))
take_members group_code (ok resp) list next =
    if is_empty resp.list
    then some (err (empty_field (codes "GroupMemberListResponse.list")))
    else if resp.next_uin == 0
    then some (ok (list ++ set_group_code group_code resp.list))
    else next resp.next_uin (list ++ set_group_code group_code resp.list)
take_members group_code (err e) list next = some (err e)
take_members group_code panic list next = some panic

unfoldable pub member_loop :
    ℕ
    → (ℕ → ℕ → Result GroupMemberListResponse)
    → ℕ
    → ℕ
    → ℕ
    → List GroupMemberInfo
    → Option (Result (List GroupMemberInfo))
member_loop group_code ask ℕ.zero round next_uin list = none
member_loop group_code ask (suc fuel) round next_uin list =
    take_members group_code (ask round next_uin) list
      (λ next more. member_loop group_code ask fuel (suc round) next more)

unfoldable pub get_group_member_list :
    ℕ → (ℕ → ℕ → Result GroupMemberListResponse) → ℕ → Option (Result (List GroupMemberInfo))
get_group_member_list group_code ask fuel = member_loop group_code ask fuel 0 0 []
