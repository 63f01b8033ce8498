-- ===== src/Client/Promises/Sound.antt =====
-- The invariant of the promises of ricq/src/client/mod.rs, and the operations on them.
use ricq.Base.{
  ℕ, ◌≡◌, ◌≢◌, ◌⊎◌, inl, inr, sym, ap, ◌∙◌, none, some, ◌==◌, Bool-cases, ==_eq, ==_refl,
}
use ricq.Base.{Option-cases}
use ricq.Protocol.Packet.{Packet}
use ricq.Client.Promises.{
  Phase, idle, returned, waiting, answered, dropped, lost, Calls, update, with_phase, with_promise,
  senderless, receiverless, drop_sender, remove_promise, insert_promise, expire,
}

pub update-cases {ℓ} :
    {A : Type ℓ} (f : ℕ → A) (k : ℕ) (v : A) (j : ℕ)
    → ((k ≡ j) × (update f k v j ≡ v)) ⊎ ((k ≢ j) × (update f k v j ≡ f j))
update-cases f k v j = elim (Bool-cases (k == j)) [
  | inl e ↦ inl (==_eq k j e, rw e)
  | inr e ↦ inr (λ h. cc (==_refl k, e, h), rw e)
]

-- A call whose promise is kept for a number sent a packet with that number.
abbrev pub Holds : ℕ → Phase → Type 0
Holds k phase = (phase ≡ waiting k) ⊎ (phase ≡ dropped k)

-- The answer of a call has the number of its packet.
abbrev pub IsCorrect : Phase → Type 0
IsCorrect phase = (seq : ℕ) (p : Packet) → phase ≡ answered seq p → p.seq_id ≡ seq

pub record IsSound (s : Calls) : Type 0 where
  pub paired : (k c : ℕ) → s.packet_promises k ≡ some c → Holds k (s.phase c)
  pub correct : (c : ℕ) → IsCorrect (s.phase c)

abbrev pub NoPromise : ℕ → Calls → Type 0
NoPromise c s = (k : ℕ) → s.packet_promises k ≢ some c

Holds-unique : {j k : ℕ} {phase : Phase} → Holds j phase → Holds k phase → j ≡ k
Holds-unique (inl a) (inl b) = cc
Holds-unique (inl a) (inr b) = cc
Holds-unique (inr a) (inl b) = cc
Holds-unique (inr a) (inr b) = cc

pub with_phase-IsSound :
    {s : Calls} (c : ℕ) (phase : Phase)
    → IsSound s
    → NoPromise c s
    → IsCorrect phase
    → IsSound (with_phase c phase s)
with_phase-IsSound {s} c phase h n q = record {
  paired = λ k d e. elim (update-cases s.phase c phase d) [
    | inl (same, u) ↦ absurd (n k (e ∙ ap some (sym same)))
    | inr (other, u) ↦ rw u (h.paired k d e)
  ];
  correct = λ d. elim (update-cases s.phase c phase d) [
    | inl (same, u) ↦ rw u q
    | inr (other, u) ↦ rw u (h.correct d)
  ];
}

pub taken-IsSound : {s : Calls} (seq : ℕ) → IsSound s → IsSound (with_promise seq none s)
taken-IsSound {s} seq h = record {
  paired = λ k d e. elim (update-cases s.packet_promises seq none k) [
    | inl (same, u) ↦ cc
    | inr (other, u) ↦ h.paired k d (sym u ∙ e)
  ];
  correct = h.correct;
}

-- Once the promise of a call is taken out, it has none.
pub taken-NoPromise :
    {s : Calls} (seq c : ℕ)
    → IsSound s
    → Holds seq (s.phase c)
    → NoPromise c (with_promise seq none s)
taken-NoPromise {s} seq c h q k e = elim (update-cases s.packet_promises seq none k) [
  | inl (same, u) ↦ cc
  | inr (other, u) ↦ other (Holds-unique q (h.paired k c (sym u ∙ e)))
]

senderless-IsCorrect : (phase : Phase) → IsCorrect phase → IsCorrect (senderless phase)
senderless-IsCorrect idle h = h
senderless-IsCorrect returned h = h
senderless-IsCorrect (waiting j) h = λ seq p e. cc
senderless-IsCorrect (answered j q) h = h
senderless-IsCorrect (dropped j) h = h
senderless-IsCorrect (lost j) h = h

receiverless-IsCorrect : (phase : Phase) → IsCorrect phase → IsCorrect (receiverless phase)
receiverless-IsCorrect idle h = h
receiverless-IsCorrect returned h = h
receiverless-IsCorrect (waiting j) h = λ seq p e. cc
receiverless-IsCorrect (answered j q) h = h
receiverless-IsCorrect (dropped j) h = h
receiverless-IsCorrect (lost j) h = h

receiverless-Holds : (k : ℕ) (phase : Phase) → Holds k phase → Holds k (receiverless phase)
receiverless-Holds k phase (inl e) = inr (ap receiverless e)
receiverless-Holds k phase (inr e) = inr (ap receiverless e)

remove_promise-IsSound : {s : Calls} (seq : ℕ) → IsSound s → IsSound (remove_promise seq s)
unfolding remove_promise drop_sender
remove_promise-IsSound {s} seq h = elim (Option-cases (s.packet_promises seq)) [
  | inl e ↦ rw e (taken-IsSound seq h)
  | inr (d, e) ↦ rw e (
      with_phase-IsSound d (senderless (s.phase d)) (taken-IsSound seq h)
        (taken-NoPromise seq d h (h.paired seq d e))
        (senderless-IsCorrect (s.phase d) (h.correct d)))
]

removed-promises :
    (s : Calls) (seq k : ℕ)
    → (remove_promise seq s).packet_promises k ≡ update s.packet_promises seq none k
unfolding remove_promise drop_sender
removed-promises s seq k = elim (Option-cases (s.packet_promises seq)) [
  | inl e ↦ rw e
  | inr (d, e) ↦ rw e
]

removed-NoPromise :
    (s : Calls) (seq c : ℕ) → IsSound s → Holds seq (s.phase c) → NoPromise c (remove_promise seq s)
removed-NoPromise s seq c h q k e = taken-NoPromise seq c h q k (sym (removed-promises s seq k) ∙ e)

-- A call that has not started has no promise, and none after another one was removed.
idle-NoPromise :
    (s : Calls) (seq c : ℕ) → IsSound s → s.phase c ≡ idle → NoPromise c (remove_promise seq s)
idle-NoPromise s seq c h i k e = elim (update-cases s.packet_promises seq none k) [
  | inl (same, u) ↦ cc (u, e, removed-promises s seq k)
  | inr (other, u) ↦ elim (h.paired k c (sym u ∙ sym (removed-promises s seq k) ∙ e)) [
    | inl w ↦ cc
    | inr d ↦ cc
  ]
]

pub insert_promise-IsSound :
    (s : Calls) (c seq : ℕ) → IsSound s → s.phase c ≡ idle → IsSound (insert_promise c seq s)
unfolding insert_promise
insert_promise-IsSound s c seq h i = record {
  paired = λ k d e. elim (update-cases r.packet_promises seq (some c) k) [
    | inl (same, u) ↦ elim (update-cases r.phase c (waiting seq) d) [
      | inl (this, v) ↦ inl (v ∙ ap waiting same)
      | inr (that, v) ↦ absurd (that (some-injective (sym u ∙ e)))
    ]
    | inr (other, u) ↦ elim (update-cases r.phase c (waiting seq) d) [
      | inl (this, v) ↦ absurd (n k (sym u ∙ e ∙ ap some (sym this)))
      | inr (that, v) ↦ rw v (g.paired k d (sym u ∙ e))
    ]
  ];
  correct = λ d. elim (update-cases r.phase c (waiting seq) d) [
    | inl (this, v) ↦ λ j p e. cc
    | inr (that, v) ↦ rw v (g.correct d)
  ];
}
  where
    r : Calls
    r = remove_promise seq s

    g : IsSound r
    g = remove_promise-IsSound seq h

    n : NoPromise c r
    n = idle-NoPromise s seq c h i

    some-injective : {a b : ℕ} → some a ≡ some b → a ≡ b
    some-injective e = cc

pub fail_to_send-IsSound :
    (s : Calls) (c seq : ℕ)
    → IsSound s
    → Holds seq (s.phase c)
    → IsSound (with_phase c returned (remove_promise seq s))
fail_to_send-IsSound s c seq h q =
    with_phase-IsSound c returned (remove_promise-IsSound seq h) (removed-NoPromise s seq c h q)
      (λ j p e. cc)

-- A call without a promise, which returns after a promise was taken out.
pub unheld-fails :
    (s : Calls) (c seq : ℕ)
    → IsSound s
    → NoPromise c s
    → IsSound (with_phase c returned (remove_promise seq s))
unheld-fails s c seq h n =
    with_phase-IsSound c returned (remove_promise-IsSound seq h)
      (λ k e. elim (update-cases s.packet_promises seq none k) [
        | inl (same, u) ↦ cc (u, e, removed-promises s seq k)
        | inr (other, u) ↦ n k (sym u ∙ sym (removed-promises s seq k) ∙ e)
      ])
      (λ j p e. cc)

pub expire-IsSound : (s : Calls) (c : ℕ) → IsSound s → IsSound (expire c s)
unfolding expire
expire-IsSound s c h = record {
  paired = λ k d e. elim (update-cases s.phase c (receiverless (s.phase c)) d) [
    | inl (same, u) ↦ rw u (receiverless-Holds k (s.phase c) (rw same (h.paired k d e)))
    | inr (other, u) ↦ rw u (h.paired k d e)
  ];
  correct = λ d. elim (update-cases s.phase c (receiverless (s.phase c)) d) [
    | inl (same, u) ↦ rw u (receiverless-IsCorrect (s.phase c) (h.correct c))
    | inr (other, u) ↦ rw u (h.correct d)
  ];
}
