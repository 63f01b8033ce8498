-- ===== src/Client/Promises.antt =====
-- `send_and_wait` of ricq/src/client/mod.rs and the front of `process_income_packet` of
-- ricq/src/client/processor/mod.rs. Calls are numbered in the order in which they start. Each has a
-- channel for one answer; `packet_promises` has the call whose channel waits for the number of a packet.
pub mod Sound
pub mod Delivery
pub mod Awaited
pub mod Answers
use ricq.Base.{
  ℕ, List, [], ◌∷◌, Option, none, some, Bool, true, false, ◌==◌, ◌≡◌, ◌⊎◌, if◌then◌else◌,
}
use ricq.Result.{Result, ok, err, panic, map_ok, timeout, network}
use ricq.Protocol.Packet.{Packet, check_command_name}

-- Where a call stands: its channel waits, holds the answer, lost its receiver after fifteen seconds, or
-- lost its sender. Each of these has the number of the packet that the call sent.
pub data Phase : Type 0 where
  idle returned : Phase
  waiting : ℕ → Phase
  answered : ℕ → Packet → Phase
  dropped lost : ℕ → Phase

pub record Calls : Type 0 where
  pub packet_promises : ℕ → Option ℕ
  pub phase : ℕ → Phase

abbrev pub no_calls : Calls
no_calls = record { packet_promises = λ seq. none; phase = λ c. idle }

-- A function with another value at one place.
abbrev pub update {ℓ} : {A : Type ℓ} → (ℕ → A) → ℕ → A → ℕ → A
update f k value j = if k == j then value else f j

abbrev pub with_phase : ℕ → Phase → Calls → Calls
with_phase c phase s = record s { phase = update s.phase c phase }

abbrev pub with_promise : ℕ → Option ℕ → Calls → Calls
with_promise seq promise s = record s { packet_promises = update s.packet_promises seq promise }

abbrev pub senderless : Phase → Phase
senderless idle = idle
senderless returned = returned
senderless (waiting seq) = lost seq
senderless (answered seq p) = answered seq p
senderless (dropped seq) = dropped seq
senderless (lost seq) = lost seq

-- A sender that nobody has any more: its receiver ends with an error.
unfoldable pub drop_sender : Option ℕ → Calls → Calls
drop_sender none s = s
drop_sender (some c) s = with_phase c (senderless (s.phase c)) s

unfoldable pub remove_promise : ℕ → Calls → Calls
remove_promise seq s = with_promise seq none (drop_sender (s.packet_promises seq) s)

-- The call puts its sender in, in place of one that was there.
unfoldable pub insert_promise : ℕ → ℕ → Calls → Calls
insert_promise c seq s =
    with_phase c (waiting seq) (with_promise seq (some c) (remove_promise seq s))

-- `sender.send(pkt).unwrap()`, which panics where the receiver was dropped.
unfoldable pub send_answer : ℕ → Packet → Phase → Calls → Result Calls
send_answer c pkt idle s = panic
send_answer c pkt returned s = panic
send_answer c pkt (waiting seq) s = ok (with_phase c (answered seq pkt) s)
send_answer c pkt (answered seq p) s = panic
send_answer c pkt (dropped seq) s = panic
send_answer c pkt (lost seq) s = panic

-- The answer that a call waits for; without a call the packet goes on to the handlers of its command.
unfoldable pub answer_to : Packet → Option ℕ → Calls → Result (Bool × Calls)
answer_to pkt none s = ok (false, s)
answer_to pkt (some c) s =
    map_ok (λ s'. (true, s')) (send_answer c pkt (s.phase c) (with_promise pkt.seq_id none s))

-- Whether the packet was an answer, and the calls after it.
unfoldable pub process_income_packet : Packet → Calls → Result (Bool × Calls)
process_income_packet pkt s = answer_to pkt (s.packet_promises pkt.seq_id) s

abbrev pub receiverless : Phase → Phase
receiverless idle = idle
receiverless returned = returned
receiverless (waiting seq) = dropped seq
receiverless (answered seq p) = answered seq p
receiverless (dropped seq) = dropped seq
receiverless (lost seq) = lost seq

-- Fifteen seconds are over: the receiver is dropped, unless the answer is there.
unfoldable pub expire : ℕ → Calls → Calls
expire c s = with_phase c (receiverless (s.phase c)) s

unfoldable pub outcome : List ℕ → ℕ → Phase → Calls → Option (Result Packet × Calls)
outcome expect c idle s = none
outcome expect c returned s = none
outcome expect c (waiting seq) s = none
outcome expect c (answered seq p) s = some (check_command_name expect p, with_phase c returned s)
outcome expect c (dropped seq) s = some (err timeout, with_phase c returned (remove_promise seq s))
outcome expect c (lost seq) s = some (panic, with_phase c returned s)

-- What the call returns, and the calls after it; a call that still waits returns nothing.
unfoldable pub finish : List ℕ → ℕ → Calls → Option (Result Packet × Calls)
finish expect c s = outcome expect c (s.phase c) s

-- The packet could not be sent: the call returns the error of the network.
unfoldable pub fail_to_send : ℕ → ℕ → Calls → Result Packet × Calls
fail_to_send c seq s = (err network, with_phase c returned (remove_promise seq s))

-- A call has sent its packet, and its fifteen seconds have not begun: it waits, or in the meantime its
-- answer has come or another call has taken the place of its sender.
abbrev pub IsSent : ℕ → Phase → Type 0
IsSent seq phase =
    (phase ≡ waiting seq) ⊎ ((p : Packet) × (phase ≡ answered seq p)) ⊎ (phase ≡ lost seq)

-- One step of one of the tasks. After a panic of the task that reads, no more packets are received.
pub data Step : Calls → Calls → Type 0 where
  sends : {s : Calls} (c seq : ℕ) → s.phase c ≡ idle → Step s (insert_promise c seq s)
  fails : {s : Calls} (c seq : ℕ) → IsSent seq (s.phase c) → Step s (fail_to_send c seq s).1
  receives :
      {s s' : Calls} (pkt : Packet) (answer : Bool)
      → process_income_packet pkt s ≡ ok (answer, s')
      → Step s s'
  expires : {s : Calls} (c : ℕ) → Step s (expire c s)
  returns :
      {s s' : Calls} (c : ℕ) (expect : List ℕ) (r : Result Packet)
      → finish expect c s ≡ some (r, s')
      → Step s s'

pub data Reachable : Calls → Type 0 where
  start : Reachable no_calls
  step : {s s' : Calls} → Reachable s → Step s s' → Reachable s'
