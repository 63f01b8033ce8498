-- ===== src/Client/Promises/Delivery.antt =====
-- The states that the tasks of ricq/src/client/mod.rs and processor/mod.rs reach.
use ricq.Base.{ℕ, ◌≡◌, ◌≢◌, inl, inr, refl, sym, ap, ◌∙◌, none, some, Bool, true, false}
use ricq.Base.{List, Option-cases}
use ricq.Result.{Result, ok, panic}
use ricq.Protocol.Packet.{Packet}
use ricq.Client.Promises.{
  Phase, idle, returned, waiting, answered, dropped, lost, Calls, with_phase, with_promise,
  send_answer, answer_to, process_income_packet, outcome, finish, fail_to_send, IsSent,
  remove_promise, Step, sends, fails, receives, expires, returns, Reachable, start, step,
}
use ricq.Client.Promises.Sound.{
  IsSound, NoPromise, with_phase-IsSound, unheld-fails, taken-IsSound, taken-NoPromise,
  insert_promise-IsSound, fail_to_send-IsSound, expire-IsSound,
}

-- The calls after an answer was given to one that waits for it.
abbrev pub answered_calls : ℕ → Packet → Calls → Calls
answered_calls c pkt s = with_phase c (answered pkt.seq_id pkt) (with_promise pkt.seq_id none s)

pub income_waiting :
    (pkt : Packet) (s : Calls) (c : ℕ)
    → s.packet_promises pkt.seq_id ≡ some c
    → s.phase c ≡ waiting pkt.seq_id
    → process_income_packet pkt s ≡ ok (true, answered_calls c pkt s)
unfolding process_income_packet answer_to send_answer
income_waiting pkt s c e w = rw (e, w)

pub income_dropped :
    (pkt : Packet) (s : Calls) (c : ℕ)
    → s.packet_promises pkt.seq_id ≡ some c
    → s.phase c ≡ dropped pkt.seq_id
    → process_income_packet pkt s ≡ panic
unfolding process_income_packet answer_to send_answer
income_dropped pkt s c e d = rw (e, d)

pub income_none :
    (pkt : Packet) (s : Calls)
    → s.packet_promises pkt.seq_id ≡ none
    → process_income_packet pkt s ≡ ok (false, s)
unfolding process_income_packet answer_to
income_none pkt s e = rw e

income-IsSound :
    (pkt : Packet) (answer : Bool) (s s' : Calls)
    → IsSound s
    → process_income_packet pkt s ≡ ok (answer, s')
    → IsSound s'
income-IsSound pkt answer s s' h e = elim (Option-cases (s.packet_promises pkt.seq_id)) [
  | inl n ↦ same (false, s) h (sym (income_none pkt s n) ∙ e)
  | inr (c, f) ↦ elim (h.paired pkt.seq_id c f) [
    | inl w ↦
        same (true, answered_calls c pkt s)
          (with_phase-IsSound c (answered pkt.seq_id pkt) (taken-IsSound pkt.seq_id h)
            (taken-NoPromise pkt.seq_id c h (inl w)) (λ j p g. cc))
          (sym (income_waiting pkt s c f w) ∙ e)
    | inr d ↦ cc (income_dropped pkt s c f d, e)
  ]
]
  where
    same : (r : Bool × Calls) → IsSound r.1 → ok r ≡ ok (answer, s') → IsSound s'
    same r g k = let same_calls : r ≡ (answer, s') = cc in rw (sym (ap (λ q. q.1) same_calls)) g

carried :
    {q : Result Packet × Calls} {r : Result Packet} {s' : Calls}
    → IsSound q.1
    → some q ≡ some (r, s')
    → IsSound s'
carried {q} {r} {s'} g e = let same : q ≡ (r, s') = cc in rw (sym (ap (λ t. t.1) same)) g

-- A call in a phase in which no promise holds has none.
unheld_lem :
    {s : Calls} {c : ℕ}
    → IsSound s
    → ((k : ℕ) → s.phase c ≢ waiting k)
    → ((k : ℕ) → s.phase c ≢ dropped k)
    → NoPromise c s
unheld_lem {c = c} h w d k e = elim (h.paired k c e) [ inl a ↦ w k a | inr b ↦ d k b ]

outcome-IsSound :
    (expect : List ℕ) (c : ℕ) (s s' : Calls) (phase : Phase) (r : Result Packet)
    → IsSound s
    → s.phase c ≡ phase
    → outcome expect c phase s ≡ some (r, s')
    → IsSound s'
unfolding outcome
outcome-IsSound expect c s s' idle r h p e = cc
outcome-IsSound expect c s s' returned r h p e = cc
outcome-IsSound expect c s s' (waiting seq) r h p e = cc
outcome-IsSound expect c s s' (answered seq q) r h p e =
    carried (with_phase-IsSound c returned h (unheld_lem h (λ k w. cc) (λ k d. cc)) (λ j x f. cc)) e
outcome-IsSound expect c s s' (dropped seq) r h p e =
    carried (fail_to_send-IsSound s c seq h (inr p)) e
outcome-IsSound expect c s s' (lost seq) r h p e =
    carried (with_phase-IsSound c returned h (unheld_lem h (λ k w. cc) (λ k d. cc)) (λ j x f. cc)) e

-- A call that cannot send, in each of the phases in which it can find itself.
fails-IsSound :
    (s : Calls) (c seq : ℕ)
    → IsSound s
    → IsSent seq (s.phase c)
    → IsSound (with_phase c returned (remove_promise seq s))
fails-IsSound s c seq h (inl w) = fail_to_send-IsSound s c seq h (inl w)
fails-IsSound s c seq h (inr (inl (p, e))) =
    unheld-fails s c seq h (unheld_lem h (λ k w. cc) (λ k d. cc))
fails-IsSound s c seq h (inr (inr e)) =
    unheld-fails s c seq h (unheld_lem h (λ k w. cc) (λ k d. cc))

Step-IsSound : {s s' : Calls} → IsSound s → Step s s' → IsSound s'
unfolding fail_to_send finish
Step-IsSound {s} h (sends c seq i) = insert_promise-IsSound s c seq h i
Step-IsSound {s} h (fails c seq w) = fails-IsSound s c seq h w
Step-IsSound {s} {s'} h (receives pkt answer e) = income-IsSound pkt answer s s' h e
Step-IsSound {s} h (expires c) = expire-IsSound s c h
Step-IsSound {s} {s'} h (returns c expect r e) =
    outcome-IsSound expect c s s' (s.phase c) r h refl e

pub Reachable-IsSound : {s : Calls} → Reachable s → IsSound s
Reachable-IsSound start = record { paired = λ k c e. cc; correct = λ c j p e. cc }
Reachable-IsSound (step r t) = Step-IsSound (Reachable-IsSound r) t
