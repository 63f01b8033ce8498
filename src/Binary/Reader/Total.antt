-- ===== src/Binary/Reader/Total.antt =====
-- How `read_tlv_map` of ricq-core/src/binary/binary_reader.rs ends.
use ricq.Base.{ℕ, zero, suc, ◌+◌, ◌%◌, ◌^◌, ◌≤◌, ◌<◌, ◌≡◌, ◌⊎◌, inl, inr, refl, arith}
use ricq.Base.{
  List, [], ◌∷◌, length, take, drop, ltb, ◌==◌, false, true, Bool-cases, length-drop, ltb_false→le,
}
use ricq.Base.{if◌then◌else◌}
use ricq.Wire.{Wire}
use ricq.Result.{Result, ok}
use ricq.HashMap.{HashMap, empty, insert}
use ricq.Binary.Reader.{get_u8, read_tag, tlv_value, tlv_round, tlv_loop}
use ricq.Binary.Reader.ReadBack.{get_be-ok, copy_to_bytes-ok}
use ricq.Binary.Reader.{read_tlv_map, Round, done, more, go_on, pure}

module _ ⦃w : Wire⦄ where
  abbrev Tagged : ℕ → List ℕ → Type 0
  Tagged tag_size r = (p : ℕ × List ℕ) × (read_tag tag_size r ≡ ok p) × (length p.1 ≤ length r)

  u8_outcome :
      (r : List ℕ) → 1 ≤ length r → (p : ℕ × List ℕ) × (get_u8 r ≡ ok p) × (length p.1 ≤ length r)
  unfolding get_u8
  u8_outcome [] h = absurd (omega arith)
  u8_outcome (b ∷ r) h = ((b, r), refl, omega arith)

  -- A buffer that is no shorter than a number that was tested is no shorter than that number.
  long_enough :
      (tag_size n : ℕ) (r : List ℕ)
      → (tag_size == n) ≡ true
      → ltb (length r) tag_size ≡ false
      → ltb (length r) n ≡ false
  long_enough tag_size n r e h = ground arith

  read_tag_outcome :
      (tag_size : ℕ) (r : List ℕ) → ltb (length r) tag_size ≡ false → Tagged tag_size r
  unfolding read_tag
  read_tag_outcome tag_size r h = elim (Bool-cases (tag_size == 1)) [
    | inl e ↦ rw e (u8_outcome r (ltb_false→le _ 1 (long_enough tag_size 1 r e h)))
    | inr e ↦ elim (Bool-cases (tag_size == 2)) [
      | inl f ↦ (
        (w.of_be (take 2 r), drop 2 r),
        rw (e, f, get_be-ok 2 r (long_enough tag_size 2 r f h)),
        omega (arith, length-drop 2 r),
      )
      | inr f ↦ elim (Bool-cases (tag_size == 4)) [
        | inl g ↦ (
          (w.of_be (take 4 r) % 2 ^ 16, drop 4 r),
          rw (e, f, g, get_be-ok 4 r (long_enough tag_size 4 r g h)),
          omega (arith, length-drop 4 r),
        )
        | inr g ↦ ((0, r), rw (e, f, g), omega arith)
      ]
    ]
  ]

  -- A round ends the loop, or takes at least the two bytes of a length.
  abbrev RoundEnds : List ℕ → Result (Round × List ℕ) → Type 0
  RoundEnds r result =
      ((p : HashMap × List ℕ) × (result ≡ ok (done p.0, p.1)) × (length p.1 ≤ length r))
      ⊎ ((p : HashMap × List ℕ) × (result ≡ ok (more p.0, p.1)) × (length p.1 + 2 ≤ length r))

  tlv_value_outcome : (m : HashMap) (k : ℕ) (r : List ℕ) → RoundEnds r (tlv_value m k r)
  unfolding tlv_value
  tlv_value_outcome m k r = elim (Bool-cases (ltb (length r) 2)) [
    | inl e ↦ inl ((m, r), rw e, omega arith)
    | inr e ↦ elim (Bool-cases (ltb (length (drop 2 r)) (w.of_be (take 2 r)))) [
      | inl f ↦ inl ((m, drop 2 r), rw (e, get_be-ok 2 r e, f), omega (arith, length-drop 2 r))
      | inr f ↦ inr (
        (insert k (take (w.of_be (take 2 r)) (drop 2 r)) m, drop (w.of_be (take 2 r)) (drop 2 r)),
        rw (e, get_be-ok 2 r e, f, copy_to_bytes-ok (w.of_be (take 2 r)) (drop 2 r) f),
        omega (
          arith,
          ltb_false→le (length r) 2 e,
          length-drop 2 r,
          length-drop (w.of_be (take 2 r)) (drop 2 r),
        ),
      )
    ]
  ]

  tlv_round_outcome :
      (tag_size : ℕ) (m : HashMap) (r : List ℕ) → RoundEnds r (tlv_round tag_size m r)
  unfolding tlv_round
  tlv_round_outcome tag_size m r = elim (Bool-cases (ltb (length r) tag_size)) [
    | inl e ↦ inl ((m, r), rw e, omega arith)
    | inr e ↦ rw e (after_tag (read_tag_outcome tag_size r e))
  ]
    where
      weaker :
          (r' : List ℕ) (result : Result (Round × List ℕ))
          → length r' ≤ length r
          → RoundEnds r' result
          → RoundEnds r result
      weaker r' result h (inl (p, e, l)) = inl (p, e, omega arith)
      weaker r' result h (inr (p, e, l)) = inr (p, e, omega arith)

      after_tag :
          Tagged tag_size r
          → RoundEnds r
              (go_on (read_tag tag_size r) (λ k. if k == 255 then pure (done m) else tlv_value m k))
      after_tag ((k, r'), e, l) = rw e (elim (Bool-cases (k == 255)) [
        | inl f ↦ rw f (inl ((m, r'), refl, l))
        | inr f ↦ rw f (weaker r' (tlv_value m k r') l (tlv_value_outcome m k r'))
      ])

  tlv_loop_returns :
      (fuel tag_size : ℕ) (m : HashMap) (r : List ℕ)
      → length r < fuel
      → (p : HashMap × List ℕ) × (tlv_loop fuel tag_size m r ≡ ok p) × (length p.1 ≤ length r)
  unfolding tlv_loop
  tlv_loop_returns zero tag_size m r h = absurd (omega arith)
  tlv_loop_returns (suc fuel) tag_size m r h = elim (tlv_round_outcome tag_size m r) [
    | inl (p, e, l) ↦ (p, rw (e, tlv_loop), l)
    | inr (p, e, l) ↦
        let (q, f, k) = tlv_loop_returns fuel tag_size p.0 p.1 (omega arith) in
        (q, rw (e, tlv_loop) f, omega arith)
  ]

  -- `read_tlv_map` returns on every input and for every size of the tags: it does not panic, does not
  -- run past the end, and the bytes that it leaves are no more than it was given.
  pub read_tlv_map_returns :
      (tag_size : ℕ) (r : List ℕ)
      → (p : HashMap × List ℕ) × (read_tlv_map tag_size r ≡ ok p) × (length p.1 ≤ length r)
  unfolding read_tlv_map
  read_tlv_map_returns tag_size r = tlv_loop_returns (suc (length r)) tag_size empty r (omega arith)
