-- ===== src/Client/Heartbeat.antt =====
-- `do_heartbeat` of ricq/src/client/mod.rs. What each round meets is an argument: a list of rounds, in
-- their order.
pub mod Count
use ricq.Base.{ℕ, ◌+◌, List, [], ◌∷◌, Bool, leb, if◌then◌else◌}

-- Whether the client is online at the beginning of the round, and whether the heartbeat and the
-- registration succeed, where the loop comes to them.
pub record Beat : Type 0 where
  pub online : Bool
  pub heartbeat : Bool
  pub register_client : Bool

-- How the loop stands after the rounds: ended because the client is not online or could not register,
-- or about to begin the next round. `heartbeat_enabled` is set before the loop and reset behind it.
pub data Standing : Type 0 where
  not_online not_registered goes_on : Standing

-- One more registration.
abbrev pub registered : ℕ × Standing → ℕ × Standing
registered (n, standing) = (n + 1, standing)

-- The number of registrations, and how the loop stands.
unfoldable pub heartbeat_loop : ℕ → List Beat → ℕ × Standing
heartbeat_loop times [] = (0, goes_on)
heartbeat_loop times (b ∷ rest) =
    let same = heartbeat_loop times rest in
    let one_more = heartbeat_loop (times + 1) rest in
    let anew = heartbeat_loop 0 rest in
    if b.online
    then if b.heartbeat
      then if leb 7 (times + 1)
        then if b.register_client then registered anew else (1, not_registered)
        else one_more
      else same
    else (0, not_online)

unfoldable pub do_heartbeat : List Beat → ℕ × Standing
do_heartbeat beats = heartbeat_loop 0 beats
