-- ===== src/Runs/Client.antt =====
-- Runs of the models of ricq/src/client and of ricq/src/ext/reconnect.rs.
use ricq.Base.{ℕ, ◌≡◌, ◌≢◌, ◌⊎◌, refl, arith, [], All, replicate, true, false, same_bytes}
use ricq.Result.{ok, panic, codes}
use ricq.Protocol.Packet.{Packet, packet_default}
use ricq.Client.Promises.{
  Phase, waiting, answered, dropped, Calls, no_calls, insert_promise, process_income_packet, expire,
  finish, Step, sends, receives, Reachable, start, step,
}
use ricq.Client.Promises.Delivery.{answered_calls}
use ricq.Client.Promises.Answers.{finish-matches, process_income_packet-cases}
use ricq.Client.Network.{
  stop, network_offline, status_value, interleavings, stop_actions, start_actions, other_end,
  undecodable,
}
use ricq.Client.Network.Races.{IsStopped, IsEnded, by_user, running_net, perform-interleavings}
use ricq.Client.Reconnect.{not_logged_in, auto_reconnect, goes_on}
use ricq.Client.Reconnect.Limits.{auto_reconnect-never}

abbrev response : Packet
response = record packet_default { seq_id = 7; command_name = codes "StatSvc.register" }

abbrev asked : Calls
asked = insert_promise 0 7 no_calls

asked-Reachable : Reachable asked
asked-Reachable = step start (sends 0 7 refl)

answered-Reachable : Reachable (answered_calls 0 response asked)
unfolding process_income_packet ricq.Client.Promises.answer_to ricq.Client.Promises.send_answer
    insert_promise ricq.Client.Promises.remove_promise ricq.Client.Promises.drop_sender
    packet_default
answered-Reachable = step asked-Reachable (receives response true refl)

finish-matches_example :
    (seq : ℕ) × ((answered_calls 0 response asked).phase 0 ≡ answered seq response)
    × (response.seq_id ≡ seq)
    × (same_bytes response.command_name (codes "StatSvc.register") ≡ true)
unfolding finish ricq.Client.Promises.outcome ricq.Protocol.Packet.check_command_name same_bytes
    packet_default
finish-matches_example =
    finish-matches (answered_calls 0 response asked) _ 0 (codes "StatSvc.register") response
      answered-Reachable refl

process_income_packet-cases_example :
    (((c : ℕ) → asked.phase c ≢ waiting response.seq_id)
      × (process_income_packet response asked ≡ ok (false, asked)))
    ⊎ ((c : ℕ) × (asked.phase c ≡ waiting response.seq_id)
        × (process_income_packet response asked ≡ ok (true, answered_calls c response asked))
        × (process_income_packet response (answered_calls c response asked)
            ≡ ok (false, answered_calls c response asked)))
    ⊎ ((c : ℕ) × (asked.phase c ≡ dropped response.seq_id)
        × (process_income_packet response asked ≡ panic))
process_income_packet-cases_example = process_income_packet-cases asked response asked-Reachable

perform-interleavings_example :
    All
      (IsStopped stop (running_net true 0 []))
      (interleavings (stop_actions stop) (start_actions other_end))
    × All
        (IsEnded (running_net true 0 []))
        (interleavings (stop_actions stop) (start_actions undecodable))
perform-interleavings_example = perform-interleavings true 0 [] by_user

auto_reconnect-never_example :
    auto_reconnect 2 (status_value network_offline) 0 (replicate 9 not_logged_in) ≡ goes_on 1
auto_reconnect-never_example = auto_reconnect-never 2 8 0 (omega arith)
