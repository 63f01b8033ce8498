-- ===== src/Client/Promises/Awaited.antt =====
-- What a call that waits can rely on in ricq/src/client/mod.rs: its promise is there.
use ricq.Base.{
  ℕ, ◌≡◌, ◌≢◌, refl, inl, inr, sym, ap, ◌∙◌, List, Option-cases, none, some, Bool, true, false,
}
use ricq.Result.{Result, ok}
use ricq.Protocol.Packet.{Packet}
use ricq.Client.Promises.{
  Phase, idle, returned, waiting, answered, dropped, lost, Calls, with_phase, with_promise,
  senderless, receiverless, drop_sender, remove_promise, insert_promise, process_income_packet,
  expire, outcome, finish, fail_to_send, Step, sends, fails, receives, expires, returns, Reachable,
  start, step,
}
use ricq.Client.Promises.Sound.{update-cases}
use ricq.Client.Promises.Delivery.{
  Reachable-IsSound, income_waiting, income_dropped, income_none, answered_calls,
}

-- The promise for the number of a call that waits is this call's.
abbrev pub IsAwaited : Calls → Type 0
IsAwaited s = (c k : ℕ) → s.phase c ≡ waiting k → s.packet_promises k ≡ some c

-- A call that stops waiting.
with_phase-IsAwaited :
    (s : Calls) (c : ℕ) (phase : Phase)
    → ((k : ℕ) → phase ≢ waiting k)
    → IsAwaited s
    → IsAwaited (with_phase c phase s)
with_phase-IsAwaited s c phase n h d k e = elim (update-cases s.phase c phase d) [
  | inl (same, u) ↦ absurd (n k (sym u ∙ e))
  | inr (other, u) ↦ h d k (sym u ∙ e)
]

some-injective : {a b : ℕ} → some a ≡ some b → a ≡ b
some-injective e = cc

-- A promise that is taken out, where the call that it belongs to stops waiting.
taken-IsAwaited :
    (s : Calls) (seq c : ℕ) (phase : Phase)
    → s.packet_promises seq ≡ some c
    → ((k : ℕ) → phase ≢ waiting k)
    → IsAwaited s
    → IsAwaited (with_phase c phase (with_promise seq none s))
taken-IsAwaited s seq c phase p n h d k e = elim (update-cases s.phase c phase d) [
  | inl (same, u) ↦ absurd (n k (sym u ∙ e))
  | inr (other, u) ↦ elim (update-cases s.packet_promises seq none k) [
    | inl (this, v) ↦
        absurd (other (some-injective (sym p ∙ ap s.packet_promises this ∙ h d k (sym u ∙ e))))
    | inr (that, v) ↦ v ∙ h d k (sym u ∙ e)
  ]
]

senderless_lem : (phase : Phase) (k : ℕ) → senderless phase ≢ waiting k
senderless_lem idle k e = cc
senderless_lem returned k e = cc
senderless_lem (waiting j) k e = cc
senderless_lem (answered j p) k e = cc
senderless_lem (dropped j) k e = cc
senderless_lem (lost j) k e = cc

receiverless_lem : (phase : Phase) (k : ℕ) → receiverless phase ≢ waiting k
receiverless_lem idle k e = cc
receiverless_lem returned k e = cc
receiverless_lem (waiting j) k e = cc
receiverless_lem (answered j p) k e = cc
receiverless_lem (dropped j) k e = cc
receiverless_lem (lost j) k e = cc

-- A promise that nobody has made is taken out.
untaken-IsAwaited :
    (s : Calls) (seq : ℕ)
    → s.packet_promises seq ≡ none
    → IsAwaited s
    → IsAwaited (with_promise seq none s)
untaken-IsAwaited s seq n h d k e = elim (update-cases s.packet_promises seq none k) [
  | inl (this, v) ↦
      let there : s.packet_promises seq ≡ some d = ap s.packet_promises this ∙ h d k e in
      cc (n, there)
  | inr (that, v) ↦ v ∙ h d k e
]

remove_promise-IsAwaited : (s : Calls) (seq : ℕ) → IsAwaited s → IsAwaited (remove_promise seq s)
unfolding remove_promise drop_sender
remove_promise-IsAwaited s seq h = elim (Option-cases (s.packet_promises seq)) [
  | inl e ↦ rw e (untaken-IsAwaited s seq e h)
  | inr (c, e) ↦
      rw e (taken-IsAwaited s seq c (senderless (s.phase c)) e (senderless_lem (s.phase c)) h)
]

removed_lem : (s : Calls) (seq : ℕ) → (remove_promise seq s).packet_promises seq ≡ none
unfolding remove_promise
removed_lem s seq =
    elim (update-cases (drop_sender (s.packet_promises seq) s).packet_promises seq none seq) [
      | inl (same, u) ↦ u
      | inr (other, u) ↦ absurd (other refl)
    ]

insert_promise-IsAwaited :
    (s : Calls) (c seq : ℕ) → IsAwaited s → IsAwaited (insert_promise c seq s)
unfolding insert_promise
insert_promise-IsAwaited s c seq h d k e =
    let r : Calls = remove_promise seq s in
    let g : IsAwaited r = remove_promise-IsAwaited s seq h in
    elim (update-cases r.phase c (waiting seq) d) [
      | inl (this, u) ↦ elim (update-cases r.packet_promises seq (some c) k) [
        | inl (same, v) ↦ v ∙ ap some this
        | inr (other, v) ↦ absurd (other (waiting-injective (sym u ∙ e)))
      ]
      | inr (that, u) ↦ elim (update-cases r.packet_promises seq (some c) k) [
        | inl (same, v) ↦
            let there : r.packet_promises seq ≡ some d =
              ap r.packet_promises same ∙ g d k (sym u ∙ e) in
            cc (removed_lem s seq, there)
        | inr (other, v) ↦ v ∙ g d k (sym u ∙ e)
      ]
    ]
  where
    waiting-injective : {a b : ℕ} → waiting a ≡ waiting b → a ≡ b
    waiting-injective e = cc

income-IsAwaited :
    (pkt : Packet) (answer : Bool) (s s' : Calls)
    → Reachable s
    → IsAwaited s
    → process_income_packet pkt s ≡ ok (answer, s')
    → IsAwaited s'
income-IsAwaited pkt answer s s' reached h e = elim (Option-cases (s.packet_promises pkt.seq_id)) [
  | inl n ↦ same (false, s) h (sym (income_none pkt s n) ∙ e)
  | inr (c, f) ↦ elim ((Reachable-IsSound reached).paired pkt.seq_id c f) [
    | inl w ↦
        same (true, answered_calls c pkt s)
          (taken-IsAwaited s pkt.seq_id c (answered pkt.seq_id pkt) f (λ k g. cc) h)
          (sym (income_waiting pkt s c f w) ∙ e)
    | inr d ↦ cc (income_dropped pkt s c f d, e)
  ]
]
  where
    same : (r : Bool × Calls) → IsAwaited r.1 → ok r ≡ ok (answer, s') → IsAwaited s'
    same r g k = let same_calls : r ≡ (answer, s') = cc in rw (sym (ap (λ q. q.1) same_calls)) g

carried :
    {q : Result Packet × Calls} {r : Result Packet} {s' : Calls}
    → IsAwaited q.1
    → some q ≡ some (r, s')
    → IsAwaited s'
carried {q} {r} {s'} g e = let same : q ≡ (r, s') = cc in rw (sym (ap (λ t. t.1) same)) g

outcome-IsAwaited :
    (expect : List ℕ) (c : ℕ) (s s' : Calls) (phase : Phase) (r : Result Packet)
    → IsAwaited s
    → outcome expect c phase s ≡ some (r, s')
    → IsAwaited s'
unfolding outcome
outcome-IsAwaited expect c s s' idle r h e = cc
outcome-IsAwaited expect c s s' returned r h e = cc
outcome-IsAwaited expect c s s' (waiting seq) r h e = cc
outcome-IsAwaited expect c s s' (answered seq q) r h e =
    carried (with_phase-IsAwaited s c returned (λ k x. cc) h) e
outcome-IsAwaited expect c s s' (dropped seq) r h e =
    carried
      (with_phase-IsAwaited (remove_promise seq s) c returned (λ k x. cc)
        (remove_promise-IsAwaited s seq h))
      e
outcome-IsAwaited expect c s s' (lost seq) r h e =
    carried (with_phase-IsAwaited s c returned (λ k x. cc) h) e

Step-IsAwaited : {s s' : Calls} → Reachable s → IsAwaited s → Step s s' → IsAwaited s'
unfolding fail_to_send finish expire
Step-IsAwaited {s} reached h (sends c seq i) = insert_promise-IsAwaited s c seq h
Step-IsAwaited {s} reached h (fails c seq w) =
    with_phase-IsAwaited (remove_promise seq s) c returned (λ k x. cc)
      (remove_promise-IsAwaited s seq h)
Step-IsAwaited {s} {s'} reached h (receives pkt answer e) =
    income-IsAwaited pkt answer s s' reached h e
Step-IsAwaited {s} reached h (expires c) =
    with_phase-IsAwaited s c (receiverless (s.phase c)) (receiverless_lem (s.phase c)) h
Step-IsAwaited {s} {s'} reached h (returns c expect r e) =
    outcome-IsAwaited expect c s s' (s.phase c) r h e

pub Reachable-IsAwaited : {s : Calls} → Reachable s → IsAwaited s
Reachable-IsAwaited start = λ c k e. cc
Reachable-IsAwaited (step r t) = Step-IsAwaited r (Reachable-IsAwaited r) t
