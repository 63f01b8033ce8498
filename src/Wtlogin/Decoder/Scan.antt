-- ===== src/Wtlogin/Decoder/Scan.antt =====
-- Short packets about a scan, for ricq-core/src/command/wtlogin/decoder.rs.
use ricq.Base.{
  ℕ, ◌+◌, ◌<◌, ◌≤◌, [], ◌∷◌, ◌≡◌, refl, arith, List, drop, length, length-drop, lt→ltb, le→ltb,
}
use ricq.Wire.{Wire}
use ricq.Result.{ok, panic, err, codes, decode}
use ricq.Binary.Reader.{Reader, ◌>>=◌, remaining, usize_sub, get_be, get_u8, advance, copy_to_bytes}
use ricq.Binary.Reader.ReadBack.{get_be-ok}
use ricq.Wtlogin.Decoder.{read_trans_emp, decode_trans_emp_response}

-- A reader that takes `n` bytes whenever there are so many.
abbrev Takes {ℓ} : {A : Type ℓ} → Reader A → ℕ → Type ℓ
Takes {A = A} reader n = (r : List ℕ) → n ≤ length r → (a : A) × (reader r ≡ ok (a, drop n r))

-- A reader that panics on every buffer of `n` bytes.
abbrev PanicsAt {ℓ} : {A : Type ℓ} → Reader A → ℕ → Type ℓ
PanicsAt reader n = (r : List ℕ) → length r ≡ n → reader r ≡ panic

Takes-advance : (n : ℕ) → Takes (advance n) n
unfolding advance
Takes-advance n r h = (tt, rw (le→ltb (length r) n h))

Takes-get_u8 : Takes get_u8 1
unfolding get_u8
Takes-get_u8 [] h = absurd (omega arith)
Takes-get_u8 (b ∷ r) h = (b, refl)

PanicsAt->>= :
    {A B : Type 0} {m : Reader A} {f : A → Reader B} {n : ℕ} (k : ℕ)
    → Takes m n
    → ((a : A) → PanicsAt (f a) k)
    → PanicsAt (m >>= f) (n + k)
PanicsAt->>= {n = n} k t p r h =
    let (a, e) = t r (omega arith) in rw e (p a (drop n r) (omega (arith, length-drop n r)))

-- Nothing is left, and all but the last byte of it is asked for.
PanicsAt-rest :
    {B : Type 0} (f : List ℕ → Reader B)
    → PanicsAt (remaining >>= λ left. (copy_to_bytes (usize_sub left 1) >>= f)) 0
unfolding copy_to_bytes
PanicsAt-rest f r h = rw h

module _ ⦃w : Wire⦄ where
  Takes-get_be : (n : ℕ) → Takes (get_be n) n
  Takes-get_be n r h = (_, get_be-ok n r (le→ltb (length r) n h))

  PanicsAt-read_trans_emp : PanicsAt read_trans_emp 48
  unfolding read_trans_emp
  PanicsAt-read_trans_emp = PanicsAt->>= 43 (Takes-advance 5) λ _. PanicsAt->>= 42 Takes-get_u8 λ _.
      PanicsAt->>= 40 (Takes-get_be 2) λ _. PanicsAt->>= 38 (Takes-get_be 2) λ cmd.
        PanicsAt->>= 17 (Takes-advance 21) λ _. PanicsAt->>= 16 Takes-get_u8 λ _.
          PanicsAt->>= 14 (Takes-get_be 2) λ _. PanicsAt->>= 12 (Takes-get_be 2) λ _.
            PanicsAt->>= 8 (Takes-get_be 4)
              λ _. PanicsAt->>= 0 (Takes-get_be 8) λ _. PanicsAt-rest _

  -- A payload of fewer than 48 bytes is an error, and one of exactly 48 bytes, which passes the test of
  -- the length, panics: nothing is left for the last byte.
  pub decode_trans_emp_response-short :
      (payload : List ℕ)
      → (length payload < 48
          → decode_trans_emp_response payload ≡ err (decode (codes "invalid payload length")))
        × (length payload ≡ 48 → decode_trans_emp_response payload ≡ panic)
  unfolding decode_trans_emp_response
  decode_trans_emp_response-short payload = (
    λ h. rw (lt→ltb (length payload) 48 h),
    λ h. rw (le→ltb (length payload) 48 (omega arith)) (rw (PanicsAt-read_trans_emp payload h)),
  )
