-- ===== src/Client/Sync.antt =====
-- `sync_all_message` of ricq/src/client/api/mod.rs: the loop that fetches messages and tells the server to
-- delete them. What the server answers, in each round, to `sync_message` and to `delete_message` is an
-- argument. A loop has fuel, a request each, and is `none` while it still asks.
pub mod Kept
use ricq.Base.{ℕ, suc, List, [], ◌∷◌, ◌++◌, Option, none, some, ◌==◌, if◌then◌else◌}
use ricq.Result.{Result, ok, err, panic}
use ricq.Protocol.Sig.{Sig}
use ricq.Client.Seen.{MessageHead, Message}

pub record MessageSyncResponse : Type 0 where
  pub msg_rsp_type : ℕ
  pub sync_flag : ℕ
  pub sync_cookie : Option (List ℕ)
  pub pub_account_cookie : Option (List ℕ)
  pub msgs : List Message

-- The fields of `pb::MessageItem` that are set.
pub record MessageItem : Type 0 where
  pub from_uin : ℕ
  pub to_uin : ℕ
  pub msg_type : ℕ
  pub msg_seq : ℕ
  pub msg_uid : ℕ

unfoldable pub item_of : MessageHead → MessageItem
item_of head = record {
  from_uin = head.from_uin;
  to_uin = head.to_uin;
  msg_type = head.msg_type;
  msg_seq = head.msg_seq;
  msg_uid = head.msg_uid;
}

unfoldable pub cons_item : MessageItem → Option (List MessageItem) → Option (List MessageItem)
cons_item item none = none
cons_item item (some items) = some (item ∷ items)

-- `None` where `unwrap` meets a message without a head.
unfoldable pub items_of : List Message → Option (List MessageItem)
items_of [] = some []
items_of (none ∷ rest) = none
items_of (some head ∷ rest) = cons_item (item_of head) (items_of rest)

unfoldable pub take_sync_cookie : Option (List ℕ) → Sig → Sig
take_sync_cookie none sig = sig
take_sync_cookie (some cookie) sig = record sig { sync_cookie = cookie }

unfoldable pub take_account_cookie : Option (List ℕ) → Sig → Sig
take_account_cookie none sig = sig
take_account_cookie (some cookie) sig = record sig { pub_account_cookie = cookie }

-- The cookies of a response, by its type.
unfoldable pub take_cookies : MessageSyncResponse → Sig → Sig
take_cookies resp sig =
    if resp.msg_rsp_type == 0
    then take_account_cookie resp.pub_account_cookie (take_sync_cookie resp.sync_cookie sig)
    else if resp.msg_rsp_type == 1
    then take_sync_cookie resp.sync_cookie sig
    else if resp.msg_rsp_type == 2
    then take_account_cookie resp.pub_account_cookie sig
    else sig

-- The messages so far, the keys of the engine, and the items of the requests to delete that were
-- answered, in their order.
pub record Synced : Type 0 where
  pub msgs : List Message
  pub sig : Sig
  pub deleted : List MessageItem

unfoldable pub add_response : MessageSyncResponse → List MessageItem → Synced → Synced
add_response resp items s = record {
  msgs = s.msgs ++ resp.msgs;
  sig = take_cookies resp s.sig;
  deleted = s.deleted ++ items;
}

-- Once the server has answered the request to delete; `next` is the next round, with its flag.
unfoldable pub on_deleted :
    Result (Unit {0})
    → MessageSyncResponse
    → List MessageItem
    → Synced
    → (ℕ → Synced → Option (Result Synced))
    → Option (Result Synced)
on_deleted (ok u) resp items s next =
    if resp.sync_flag == 2
    then some (ok (add_response resp items s))
    else next resp.sync_flag (add_response resp items s)
on_deleted (err e) resp items s next = some (ok s)
on_deleted panic resp items s next = some panic

unfoldable pub on_items :
    (List MessageItem → Result (Unit {0}))
    → Option (List MessageItem)
    → MessageSyncResponse
    → Synced
    → (ℕ → Synced → Option (Result Synced))
    → Option (Result Synced)
on_items delete none resp s next = some panic
on_items delete (some items) resp s next = on_deleted (delete items) resp items s next

unfoldable pub on_response :
    (List MessageItem → Result (Unit {0}))
    → Result MessageSyncResponse
    → Synced
    → (ℕ → Synced → Option (Result Synced))
    → Option (Result Synced)
on_response delete (ok resp) s next = on_items delete (items_of resp.msgs) resp s next
on_response delete (err e) s next = some (ok s)
on_response delete panic s next = some panic

module _ (sync : ℕ → ℕ → Sig → Result MessageSyncResponse)
    (delete : ℕ → List MessageItem → Result (Unit {0})) where
  unfoldable pub sync_loop : ℕ → ℕ → ℕ → Synced → Option (Result Synced)
  sync_loop ℕ.zero round flag s = none
  sync_loop (suc fuel) round flag s =
      on_response (delete round) (sync round flag s.sig) s
        (λ next s'. sync_loop fuel (suc round) next s')

  unfoldable pub sync_all_message : ℕ → Sig → Option (Result Synced)
  sync_all_message fuel sig = sync_loop fuel 0 0 (record { msgs = []; sig = sig; deleted = [] })
