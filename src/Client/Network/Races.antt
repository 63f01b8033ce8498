-- ===== src/Client/Network/Races.antt =====
-- The orders of the steps of `stop` and of the end of `start` of ricq/src/client/net.rs.
use ricq.Base.{ℕ, suc, ◌≡◌, List, [], ◌∷◌, All, Bool, true, false, if◌then◌else◌}
use ricq.Client.Network.{
  NetworkStatus, unknown, running, stop, drop, network_offline, kicked_offline, msf_offline,
  status_value, DisconnectReason, network, actively, Net, told, Action, signal_disconnect,
  store_status, store_offline, compare_exchange, act, perform, stop_actions, start_actions,
  undecodable, other_end, interleavings,
}

-- Whether the end of `start` looks at the status before `stop` stores its own.
abbrev pub looks_first : List Action → Bool
looks_first [] = false
looks_first (signal_disconnect ∷ rest) = looks_first rest
looks_first (store_status status ∷ rest) = false
looks_first (store_offline ∷ rest) = looks_first rest
looks_first (compare_exchange ∷ rest) = true

-- The status that a handler is told for the one that is asked for: that of an offline network is not known
-- to it.
abbrev pub reported : NetworkStatus → NetworkStatus
reported unknown = unknown
reported running = running
reported stop = stop
reported drop = drop
reported network_offline = unknown
reported kicked_offline = kicked_offline
reported msf_offline = msf_offline

-- What holds after all steps: the status that was asked for, offline, two signals, and one event, which
-- is that the network failed where `start` looked first, and else that the client was stopped.
abbrev pub IsStopped : NetworkStatus → Net → List Action → Type 0
IsStopped status n actions = perform actions n ≡ record {
  status = status_value status;
  online = false;
  signals = suc (suc n.signals);
  events = (if looks_first actions then network else actively (reported status)) ∷ n.events;
}

-- The status that is stored last, and the one that the end of `start` looks at.
abbrev pub last_stored : NetworkStatus → List Action → NetworkStatus
last_stored status [] = status
last_stored status (signal_disconnect ∷ rest) = last_stored status rest
last_stored status (store_status next ∷ rest) = last_stored next rest
last_stored status (store_offline ∷ rest) = last_stored status rest
last_stored status (compare_exchange ∷ rest) = last_stored status rest

abbrev pub looked_at : NetworkStatus → List Action → NetworkStatus
looked_at status [] = status
looked_at status (signal_disconnect ∷ rest) = looked_at status rest
looked_at status (store_status next ∷ rest) = looked_at next rest
looked_at status (store_offline ∷ rest) = looked_at status rest
looked_at status (compare_exchange ∷ rest) = status

-- The same where the loop of `start` was ended by an undecodable packet: the status is the one that is stored
-- last, and the event is that the client was stopped, with the status that was stored when it was looked at.
abbrev pub IsEnded : Net → List Action → Type 0
IsEnded n actions = perform actions n ≡ record {
  status = status_value (last_stored stop actions);
  online = false;
  signals = suc (suc n.signals);
  events = actively (reported (looked_at stop actions)) ∷ n.events;
}

-- A user stops the client, another client has taken its place, or it could not log in again.
pub data IsFinal : NetworkStatus → Type 0 where
  by_user : IsFinal stop
  by_failure : IsFinal network_offline
  by_drop : IsFinal drop
  by_kick : IsFinal kicked_offline
  by_server : IsFinal msf_offline

abbrev pub running_net : Bool → ℕ → List DisconnectReason → Net
running_net online signals events = record {
  status = 1;
  online = online;
  signals = signals;
  events = events;
}

ends_decoded :
    (online : Bool) (signals : ℕ) (events : List DisconnectReason) {status : NetworkStatus}
    → IsFinal status
    → All
        (IsStopped status (running_net online signals events))
        (interleavings (stop_actions status) (start_actions other_end))
unfolding interleavings stop_actions start_actions act perform status_value told
ends_decoded online signals events by_user = search
ends_decoded online signals events by_failure = search
ends_decoded online signals events by_drop = search
ends_decoded online signals events by_kick = search
ends_decoded online signals events by_server = search

ends_undecoded :
    (online : Bool) (signals : ℕ) (events : List DisconnectReason) {status : NetworkStatus}
    → IsFinal status
    → All
        (IsEnded (running_net online signals events))
        (interleavings (stop_actions status) (start_actions undecodable))
unfolding interleavings stop_actions start_actions act perform status_value told
ends_undecoded online signals events by_user = search
ends_undecoded online signals events by_failure = search
ends_undecoded online signals events by_drop = search
ends_undecoded online signals events by_kick = search
ends_undecoded online signals events by_server = search

-- For each of the statuses 2 to 6 that a client can be stopped with, and every order of the steps of `stop` and
-- of those of `start` behind its loop, from a running client on: the client ends offline, and the handler is
-- told once. If no undecodable packet has ended the loop, the status is afterwards the one that was asked for,
-- and the handler is told that the client was stopped with it, or with an unknown one where 4, that of an offline
-- network, was asked for; but it is told that the network failed where the end of `start`, which the signal of
-- `stop` sets off, looks at the status before `stop` stores it. If an undecodable packet has ended the loop, the
-- status is that of `stop` or 6, whichever is stored last, and the handler is told that the client was stopped
-- with the one of the two that the end of `start` finds, or with an unknown one for 4.
pub perform-interleavings :
    (online : Bool) (signals : ℕ) (events : List DisconnectReason) {status : NetworkStatus}
    → IsFinal status
    → All
        (IsStopped status (running_net online signals events))
        (interleavings (stop_actions status) (start_actions other_end))
      × All
          (IsEnded (running_net online signals events))
          (interleavings (stop_actions status) (start_actions undecodable))
perform-interleavings online signals events final =
    (ends_decoded online signals events final, ends_undecoded online signals events final)
