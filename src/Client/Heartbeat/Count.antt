-- ===== src/Client/Heartbeat/Count.antt =====
-- How often `do_heartbeat` of ricq/src/client/mod.rs registers the client.
use ricq.Base.{
  ℕ, suc, ◌+◌, ◌/◌, ◌<◌, ◌≡◌, ap, ◌∙◌, arith, List, [], ◌∷◌, All, true, leb, leb→le, leb_false→lt,
  Bool-cases, inl, inr, if◌then◌else◌,
}
use ricq.Client.Heartbeat.{Beat, goes_on, heartbeat_loop, do_heartbeat}

-- The rounds whose heartbeat succeeds.
abbrev pub successes : List Beat → ℕ
successes [] = 0
successes (b ∷ rest) = if b.heartbeat then suc (successes rest) else successes rest

-- The client stays online, and a registration succeeds.
pub record IsServed (b : Beat) : Type 0 where
  pub stays : b.online ≡ true
  pub serves : b.register_client ≡ true

heartbeat_loop-IsServed :
    (times : ℕ) (beats : List Beat)
    → times < 7
    → All IsServed beats
    → heartbeat_loop times beats ≡ ((times + successes beats) / 7, goes_on)
unfolding heartbeat_loop
heartbeat_loop-IsServed times [] h a =
    let none_yet : 0 ≡ (times + 0) / 7 = omega arith in ap (λ (n : ℕ). (n, goes_on)) none_yet
heartbeat_loop-IsServed times (b ∷ rest) h a = elim (Bool-cases b.heartbeat) [
  | inr f ↦ rw (a.0.stays, f) (heartbeat_loop-IsServed times rest h a.1)
  | inl s ↦ elim (Bool-cases (leb 7 (times + 1))) [
    | inl e ↦
        let count : (0 + successes rest) / 7 + 1 ≡ (times + suc (successes rest)) / 7 =
          omega (arith, leb→le 7 (times + 1) e) in
        rw (a.0.stays, s, e, a.0.serves, heartbeat_loop-IsServed 0 rest (omega arith) a.1)
          (ap (λ (n : ℕ). (n, goes_on)) count)
    | inr e ↦
        let count : (times + 1 + successes rest) / 7 ≡ (times + suc (successes rest)) / 7 =
          omega arith in
        rw
          (
            a.0.stays,
            s,
            e,
            heartbeat_loop-IsServed (times + 1) rest (leb_false→lt 7 (times + 1) e) a.1,
          )
          (ap (λ (n : ℕ). (n, goes_on)) count)
  ]
]

-- While the client is online and can register, the loop goes on, and it has registered once for every
-- seven heartbeats that succeeded, whatever number of them failed in between.
pub do_heartbeat-registers :
    (beats : List Beat) → All IsServed beats → do_heartbeat beats ≡ (successes beats / 7, goes_on)
unfolding do_heartbeat
do_heartbeat-registers beats a =
    let same : 0 + successes beats ≡ successes beats = omega arith in
    heartbeat_loop-IsServed 0 beats (omega arith) a ∙ ap (λ (n : ℕ). (n / 7, goes_on)) same
