-- ===== src/Client/Promises/Answers.antt =====
-- What the calls of `send_and_wait` of ricq/src/client/mod.rs return, and what becomes of packets.
use ricq.Base.{
  ℕ, ◌≡◌, ◌≢◌, ◌⊎◌, inl, inr, sym, ap, List, Option-cases, some, true, false, same_bytes,
  Bool-cases, ==_refl,
}
use ricq.Result.{Result, ok, ok-injective, panic}
use ricq.Protocol.Packet.{Packet, check_command_name}
use ricq.Client.Promises.{
  Phase, idle, returned, waiting, answered, dropped, lost, Calls, insert_promise,
  process_income_packet, expire, outcome, finish, Reachable,
}
use ricq.Client.Promises.Sound.{IsSound}
use ricq.Client.Promises.Awaited.{Reachable-IsAwaited}
use ricq.Client.Promises.Delivery.{
  Reachable-IsSound, income_waiting, income_dropped, income_none, answered_calls,
}

check_command_name-ok :
    (expect : List ℕ) (pkt p : Packet)
    → check_command_name expect pkt ≡ ok p
    → (pkt ≡ p) × (same_bytes pkt.command_name expect ≡ true)
unfolding check_command_name
check_command_name-ok expect pkt p e = elim (Bool-cases (same_bytes pkt.command_name expect)) [
  | inl f ↦ (ok-injective (rw f at e), f)
  | inr f ↦ cc (rw f at e)
]

abbrev Matches : Phase → List ℕ → Packet → Type 0
Matches phase expect p =
    (seq : ℕ) × (phase ≡ answered seq p) × (same_bytes p.command_name expect ≡ true)

first_of : {p q : Result Packet × Calls} → some p ≡ some q → p.0 ≡ q.0
first_of e = cc

outcome-Matches :
    (s s' : Calls) (c : ℕ) (expect : List ℕ) (p : Packet) (phase : Phase)
    → outcome expect c phase s ≡ some (ok p, s')
    → Matches phase expect p
unfolding outcome
outcome-Matches s s' c expect p idle e = cc
outcome-Matches s s' c expect p returned e = cc
outcome-Matches s s' c expect p (waiting seq) e = cc
outcome-Matches s s' c expect p (answered seq q) e =
    let (same, f) = check_command_name-ok expect q p (first_of e) in
    (seq, ap (answered seq) same, rw (sym same) f)
outcome-Matches s s' c expect p (dropped seq) e = cc (first_of e)
outcome-Matches s s' c expect p (lost seq) e = cc (first_of e)

-- In every state that the tasks reach, a packet that a call of `send_and_wait` returns has the number
-- of the packet that the call sent, and the command that it expects.
pub finish-matches :
    (s s' : Calls) (c : ℕ) (expect : List ℕ) (p : Packet)
    → Reachable s
    → finish expect c s ≡ some (ok p, s')
    → (seq : ℕ) × (s.phase c ≡ answered seq p)
      × (p.seq_id ≡ seq)
      × (same_bytes p.command_name expect ≡ true)
unfolding finish
finish-matches s s' c expect p reached e =
    let (seq, a, f) = outcome-Matches s s' c expect p (s.phase c) e in
    (seq, a, (Reachable-IsSound reached).correct c seq p a, f)

-- In every state that the tasks reach, a packet that arrives is one of three: no call waits for its
-- number, and it goes on with nothing changed; or the call that does still waits, and has the answer
-- afterwards, the phases of the other calls being as they were, and the same packet once more would go
-- on; or that call has timed out and not yet taken its promise away, and the task panics.
pub process_income_packet-cases :
    (s : Calls) (pkt : Packet)
    → Reachable s
    → (((c : ℕ) → s.phase c ≢ waiting pkt.seq_id) × (process_income_packet pkt s ≡ ok (false, s)))
      ⊎ ((c : ℕ) × (s.phase c ≡ waiting pkt.seq_id)
          × (process_income_packet pkt s ≡ ok (true, answered_calls c pkt s))
          × (process_income_packet pkt (answered_calls c pkt s)
              ≡ ok (false, answered_calls c pkt s)))
      ⊎ ((c : ℕ) × (s.phase c ≡ dropped pkt.seq_id) × (process_income_packet pkt s ≡ panic))
process_income_packet-cases s pkt reached = elim (Option-cases (s.packet_promises pkt.seq_id)) [
  | inl n ↦ inl (
    (λ c w. let there = Reachable-IsAwaited reached c pkt.seq_id w in cc (n, there)),
    income_none pkt s n,
  )
  | inr (c, e) ↦ elim (h.paired pkt.seq_id c e) [
    | inl w ↦ inr (
        inl (
          c,
          w,
          income_waiting pkt s c e w,
          income_none pkt (answered_calls c pkt s) (rw (==_refl pkt.seq_id)),
        ))
    | inr d ↦ inr (inr (c, d, income_dropped pkt s c e d))
  ]
]
  where
    h : IsSound s
    h = Reachable-IsSound reached

-- Whenever a call has sent its packet and its fifteen seconds are over before it takes its promise
-- away, the answer that arrives then makes the task that reads from the connection panic.
pub process_income_packet-late :
    (s : Calls) (c : ℕ) (pkt : Packet)
    → process_income_packet pkt (expire c (insert_promise c pkt.seq_id s)) ≡ panic
unfolding expire insert_promise
process_income_packet-late s c pkt =
    income_dropped pkt (expire c (insert_promise c pkt.seq_id s)) c (rw (==_refl pkt.seq_id))
      (rw (==_refl c))
