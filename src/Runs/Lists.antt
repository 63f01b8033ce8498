-- ===== src/Runs/Lists.antt =====
-- Runs of the loops of ricq/src/client/api that ask for lists, and of the heartbeat of
-- ricq/src/client/mod.rs.
use ricq.Base.{
  ℕ, suc, ◌+◌, ◌/◌, ◌≡◌, refl, arith, List, [], ◌∷◌, ◌++◌, length, take, drop, replicate, none,
  some, Bool, true, false,
}
use ricq.Result.{Result, ok}
use ricq.Structs.{
  FriendInfo, FriendListResponse, GroupInfo, GroupMemberInfo, member, GroupListResponse,
  GroupMemberListResponse,
}
use ricq.Client.Heartbeat.{Beat, do_heartbeat, goes_on}
use ricq.Client.Heartbeat.Count.{IsServed, do_heartbeat-registers}
use ricq.Client.Lists.{FriendPage, get_friend_list, get_group_list, get_group_member_list}
use ricq.Client.Lists.Friends.{get_friend_list-returns, get_friend_list-never}
use ricq.Client.Lists.Pages.{in_group, group_lists-return}

abbrev friend : FriendInfo
friend = record { uin = 10001; nick = []; remark = []; face_id = 0; group_id = 0 }

abbrev page_of : List FriendInfo → ℕ → FriendListResponse
page_of friends total = record {
  friends = friends;
  friend_groups = λ id. none;
  total_count = total;
  online_friend_count = 3;
}

abbrev many : List FriendInfo
many = replicate 200 friend

abbrev pages : ℕ → FriendPage → Result FriendListResponse
pages round q =
    ok (page_of (take q.friend_list_count (drop q.friend_start_index many)) (length many))

get_friend_list-returns_example :
    (out : FriendListResponse) × (get_friend_list pages (length many / 150 + 1) ≡ some (ok out))
    × (out.friends ≡ many)
    × (out.total_count ≡ length many)
    × (out.online_friend_count ≡ 0)
get_friend_list-returns_example =
    get_friend_list-returns many pages (omega arith) (λ round q. (_, refl, refl, refl))

get_friend_list-never_example : get_friend_list (λ round q. ok (page_of [] 1)) 9 ≡ none
get_friend_list-never_example =
    get_friend_list-never 1 9 (λ round q. ok (page_of [] 1)) (omega arith) (omega arith)
      (λ round q. (_, refl, refl, refl))

abbrev group : GroupInfo
group = record {
  uin = 1;
  code = 1;
  name = [];
  memo = [];
  owner_uin = 10001;
  group_create_time = 0;
  group_level = 0;
  member_count = 2;
  max_member_count = 200;
  shut_up_timestamp = 0;
  my_shut_up_timestamp = 0;
  last_msg_seq = 0;
}

abbrev some_member : GroupMemberInfo
some_member = record {
  group_code = 0;
  uin = 10001;
  gender = 0;
  nickname = [];
  card_name = [];
  level = 1;
  join_time = 0;
  last_speak_time = 0;
  special_title = [];
  special_title_expire_time = 0;
  shut_up_timestamp = 0;
  permission = member;
}

-- Servers with two pages.
abbrev group_server : ℕ → List ℕ → Result GroupListResponse
group_server round [] = ok (record { groups = group ∷ []; vec_cookie = 5 ∷ [] })
group_server round (x ∷ xs) = ok (record { groups = group ∷ group ∷ []; vec_cookie = [] })

abbrev member_server : ℕ → ℕ → Result GroupMemberListResponse
member_server round ℕ.zero = ok (record { next_uin = 10002; list = some_member ∷ [] })
member_server round (suc n) = ok (record { next_uin = 0; list = some_member ∷ [] })

group_lists-return_example :
    (get_group_list group_server 2 ≡ some (ok ((group ∷ []) ++ (group ∷ group ∷ []))))
    × (get_group_member_list 77 member_server 2
        ≡ some (ok (in_group 77 (some_member ∷ some_member ∷ []))))
group_lists-return_example =
    group_lists-return group_server (group ∷ []) ((5 ∷ [], group ∷ group ∷ []) ∷ []) 77
      member_server (some_member ∷ []) ((10002, some_member ∷ []) ∷ []) (refl, refl, refl)
      (refl, refl, refl, (refl, refl))

abbrev beat : Bool → Beat
beat success = record { online = true; heartbeat = success; register_client = true }

do_heartbeat-registers_example :
    do_heartbeat (beat false ∷ (replicate 7 (beat true) ++ (beat true ∷ []))) ≡ (1, goes_on)
do_heartbeat-registers_example =
    do_heartbeat-registers (beat false ∷ (replicate 7 (beat true) ++ (beat true ∷ [])))
      (search served)
  where
    served : (b : Bool) → IsServed (beat b)
    served b = record { stays = refl; serves = refl }
