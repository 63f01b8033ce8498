-- ===== src/Client/Network.antt =====
-- `Client::start` and `stop` of ricq/src/client/net.rs: the status of the network, as the atomic steps
-- of the two tasks. What the loop over the connection reads and writes is not modelled; it ends.
pub mod Races
use ricq.Base.{ℕ, suc, List, [], ◌∷◌, ◌++◌, Bool, true, false, if◌then◌else◌, ◌==◌}

pub data NetworkStatus : Type 0 where
  unknown running stop drop network_offline kicked_offline msf_offline : NetworkStatus

unfoldable pub status_value : NetworkStatus → ℕ
status_value unknown = 0
status_value running = 1
status_value stop = 2
status_value drop = 3
status_value network_offline = 4
status_value kicked_offline = 5
status_value msf_offline = 6

-- Why a handler is told that the client is disconnected.
pub data DisconnectReason : Type 0 where
  network : DisconnectReason
  actively : NetworkStatus → DisconnectReason

-- `events` are the reasons that the handler was told, the last one first.
pub record Net : Type 0 where
  pub status : ℕ
  pub online : Bool
  pub signals : ℕ
  pub events : List DisconnectReason

-- The status of an `Actively`; four is not among the numbers of the match.
unfoldable pub told : ℕ → NetworkStatus
told status =
    if status == 0
    then unknown
    else if status == 1
    then running
    else if status == 2
    then stop
    else if status == 3
    then drop
    else if status == 5
    then kicked_offline
    else if status == 6
    then msf_offline
    else unknown

-- The steps that other tasks can come between.
pub data Action : Type 0 where
  signal_disconnect : Action
  store_status : NetworkStatus → Action
  store_offline : Action
  compare_exchange : Action

unfoldable pub act : Action → Net → Net
act signal_disconnect n = record n { signals = suc n.signals }
act (store_status status) n = record n { status = status_value status }
act store_offline n = record n { online = false }
act compare_exchange n =
    if n.status == status_value running
    then record n { status = status_value network_offline; events = network ∷ n.events }
    else record n { events = actively (told n.status) ∷ n.events }

unfoldable pub perform : List Action → Net → Net
perform [] n = n
perform (a ∷ rest) n = perform rest (act a n)

-- `stop(status)`
unfoldable pub stop_actions : NetworkStatus → List Action
stop_actions status = signal_disconnect ∷ store_status status ∷ store_offline ∷ []

-- How the loop over the connection ends: by a packet that cannot be decoded, or otherwise.
pub data LoopEnd : Type 0 where
  undecodable other_end : LoopEnd

-- `start` once its loop has ended.
unfoldable pub start_actions : LoopEnd → List Action
start_actions undecodable =
    store_status msf_offline ∷ signal_disconnect ∷ store_offline ∷ compare_exchange ∷ []
start_actions other_end = signal_disconnect ∷ store_offline ∷ compare_exchange ∷ []

-- All orders of the steps of two tasks that keep the order of each task.
abbrev pub put_first {ℓ} : {A : Type ℓ} → A → List (List A) → List (List A)
put_first x [] = []
put_first x (t ∷ ts) = (x ∷ t) ∷ put_first x ts

unfoldable pub interleavings {ℓ} : {A : Type ℓ} → List A → List A → List (List A)
interleavings [] ys = ys ∷ []
interleavings (x ∷ xs) [] = (x ∷ xs) ∷ []
interleavings (x ∷ xs) (y ∷ ys) =
    put_first x (interleavings xs (y ∷ ys)) ++ put_first y (interleavings (x ∷ xs) ys)
