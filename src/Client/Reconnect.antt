-- ===== src/Client/Reconnect.antt =====
-- `auto_reconnect` of ricq/src/ext/reconnect.rs. What the network and the server do in each round is
-- the argument: a list of attempts, in their order.
pub mod Limits
use ricq.Base.{ℕ, suc, ◌+◌, List, [], ◌∷◌, ltb, ◌==◌, if◌then◌else◌}
use ricq.Client.Network.{NetworkStatus, network_offline, status_value}

-- One round: no connection; a connection whose login fails; or a login, and the status with which the
-- connection ended later.
pub data Attempt : Type 0 where
  not_connected not_logged_in : Attempt
  logged_in : ℕ → Attempt

-- How the loop stands after the rounds: ended by the status, ended by the count, or about to begin the
-- next round with a count.
pub data Outcome : Type 0 where
  ended gave_up : ℕ → Outcome
  goes_on : ℕ → Outcome

-- A failure: the loop ends if the count is above the maximum.
unfoldable pub after_failure : ℕ → ℕ → Outcome → Outcome
after_failure max count next = if ltb max count then gave_up count else next

-- The loop, with the status that it finds and the count so far, which a connection sets back to zero.
-- `stop` leaves the status of a network that is offline, and so does a failed login.
unfoldable pub auto_reconnect : ℕ → ℕ → ℕ → List Attempt → Outcome
auto_reconnect max status count [] =
    if status == status_value network_offline then goes_on count else ended status
auto_reconnect max status count (not_connected ∷ rest) =
    let next = auto_reconnect max (status_value network_offline) (count + 1) rest in
    if status == status_value network_offline
    then after_failure max (count + 1) next
    else ended status
auto_reconnect max status count (not_logged_in ∷ rest) =
    let next = auto_reconnect max (status_value network_offline) 1 rest in
    if status == status_value network_offline then after_failure max 1 next else ended status
auto_reconnect max status count (logged_in later ∷ rest) =
    let next = auto_reconnect max later 0 rest in
    if status == status_value network_offline then next else ended status
