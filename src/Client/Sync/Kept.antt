-- ===== src/Client/Sync/Kept.antt =====
-- `sync_all_message` of ricq/src/client/api/mod.rs: what it returns and what the server has deleted.
use ricq.Base.{ℕ, ◌≡◌, ◌⊎◌, List, ◌++◌, Option, none, some}
use ricq.Result.{Result, ok, panic}
use ricq.Protocol.Sig.{Sig}
use ricq.Client.Sync.{MessageSyncResponse, MessageItem, items_of, Synced}

add_all : List MessageItem → Option (List MessageItem) → Option (List MessageItem)
add_all js none = none
add_all js (some is) = some (is ++ js)

-- What was deleted is what is returned.
abbrev pub IsKept : Synced → Type 0
IsKept s = items_of s.msgs ≡ some s.deleted

abbrev pub Ends : Option (Result Synced) → Type 0
Ends r = (r ≡ some panic) ⊎ ((s : Synced) × (r ≡ some (ok s)) × IsKept s)

-- In this round the server has no more messages, or does not answer.
abbrev pub StopsAt : ℕ → (ℕ → ℕ → Sig → Result MessageSyncResponse) → Type 0
StopsAt n sync =
    (flag : ℕ) (sig : Sig) (resp : MessageSyncResponse)
    → sync n flag sig ≡ ok resp
    → resp.sync_flag ≡ 2

-- The next round ends well, or there is none.
abbrev Continues : MessageSyncResponse → (ℕ → Synced → Option (Result Synced)) → Type 0
Continues resp next =
    (resp.sync_flag ≡ 2) ⊎ ((s : Synced) → IsKept s → Ends (next resp.sync_flag s))
