-- ===== src/Client/Reconnect/Limits.antt =====
-- The limit on failures of `auto_reconnect` of ricq/src/ext/reconnect.rs.
use ricq.Base.{
  ℕ, zero, suc, ◌+◌, ◌≤◌, ◌≡◌, refl, arith, ap, ◌∙◌, List, ◌++◌, replicate, lt→ltb, le→ltb,
}
use ricq.Client.Network.{network_offline, status_value}
use ricq.Client.Reconnect.{
  Attempt, not_connected, not_logged_in, gave_up, goes_on, after_failure, auto_reconnect,
}

-- From a count on, the failures that are still allowed, and one more.
auto_reconnect-not_connected :
    (left max count : ℕ) (rest : List Attempt)
    → count + left ≡ max
    → auto_reconnect max 4 count (replicate (suc left) not_connected ++ rest) ≡ gave_up (max + 1)
unfolding auto_reconnect after_failure status_value
auto_reconnect-not_connected zero max count rest h =
    let last : count + 1 ≡ max + 1 = omega arith in rw (lt→ltb max (count + 1) (omega arith), last)
auto_reconnect-not_connected (suc left) max count rest h =
    rw (le→ltb max (count + 1) (omega arith))
      (auto_reconnect-not_connected left max (count + 1) rest (omega arith))

-- A client that is offline and cannot connect gives up after one failure more than the maximum, with
-- that count, whatever would come behind.
pub auto_reconnect-gives_up :
    (max : ℕ) (rest : List Attempt)
    → auto_reconnect max
        (status_value network_offline)
        0
        (replicate (max + 1) not_connected ++ rest)
      ≡ gave_up (max + 1)
unfolding status_value
auto_reconnect-gives_up max rest =
    let same : max + 1 ≡ suc max = omega arith in
    ap (λ (n : ℕ). auto_reconnect max 4 0 (replicate n not_connected ++ rest)) same
    ∙ auto_reconnect-not_connected max max 0 rest (omega arith)

not_logged_in-on :
    (max n : ℕ) → 1 ≤ max → auto_reconnect max 4 1 (replicate n not_logged_in) ≡ goes_on 1
unfolding auto_reconnect after_failure status_value
not_logged_in-on max zero h = refl
not_logged_in-on max (suc n) h = rw (le→ltb max 1 h) (not_logged_in-on max n h)

-- A client that is offline and that can connect but not log in never gives up if the maximum is one or
-- more: with any count and after any number of failed logins from one on, it begins another round,
-- with the count one.
pub auto_reconnect-never :
    (max n count : ℕ)
    → 1 ≤ max
    → auto_reconnect max (status_value network_offline) count (replicate (suc n) not_logged_in)
      ≡ goes_on 1
unfolding auto_reconnect after_failure status_value
auto_reconnect-never max n count h = rw (le→ltb max 1 h) (not_logged_in-on max n h)
