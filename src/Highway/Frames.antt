-- ===== src/Highway/Frames.antt =====
-- Frames of ricq/src/client/highway/codec.rs that have arrived whole, or not yet.
use ricq.Base.{ℕ, ◌+◌, ◌%◌, ◌^◌, ◌<◌, ◌≡◌, refl, arith, sym, ap, ◌∙◌, List, [], ◌∷◌, ◌++◌}
use ricq.Base.{length, length-append, append_assoc, none, some, ltb}
use ricq.Base.{lt→ltb, le→ltb, false}
use ricq.Wire.{Wire}
use ricq.Result.{ok}
use ricq.Binary.Reader.{get_u8}
use ricq.Binary.Reader.ReadBack.{get_be-append, copy_to_bytes-append}
use ricq.Binary.Writer.Writes.{Writes, Writes->>, Writes-put_slice}
use ricq.Highway.{HighwayFrame}
use ricq.Highway.Encode.{encode}
use ricq.Highway.Decode.{decode, decode_parts}

-- Lengths that a head of the frame can count.
pub record IsFrame (f : HighwayFrame) : Type 0 where
  pub head_fits : length f.head < 2 ^ 32
  pub body_fits : length f.body < 2 ^ 32

module _ ⦃w : Wire⦄ where
  abbrev lengths : ℕ → ℕ → List ℕ → List ℕ
  lengths h b rest = 40 ∷ (w.be 4 (h % 2 ^ 32) ++ (w.be 4 (b % 2 ^ 32) ++ rest))

  abbrev payload : HighwayFrame → List ℕ → List ℕ
  payload f rest = f.head ++ (f.body ++ (41 ∷ rest))

  abbrev pub frame_bytes : HighwayFrame → List ℕ
  frame_bytes f = lengths (length f.head) (length f.body) (payload f [])

  pub Writes-encode : (f : HighwayFrame) → Writes (encode f) (frame_bytes f)
  unfolding encode
  Writes-encode f =
      let put = Writes-put_slice in
      Writes->> (put _)
        (Writes->> (put _) (Writes->> (put _) (Writes->> (put _) (Writes->> (put _) (put _)))))

  decode-lengths :
      (h b : ℕ) (rest : List ℕ)
      → h < 2 ^ 32
      → b < 2 ^ 32
      → 0 < length rest
      → decode (lengths h b rest) ≡ decode_parts h b rest
  unfolding decode get_u8
  decode-lengths h b rest x y z =
      let long : ltb (length (lengths h b rest)) 10 ≡ false = le→ltb _ _ (
        omega (
          arith,
          length-append (w.be 4 (h % 2 ^ 32)) (w.be 4 (b % 2 ^ 32) ++ rest),
          length-append (w.be 4 (b % 2 ^ 32)) rest,
          w.length-be 4 (h % 2 ^ 32),
          w.length-be 4 (b % 2 ^ 32),
        )) in
      let h' : h % 2 ^ 32 % 256 ^ 4 ≡ h = omega arith in
      let b' : b % 2 ^ 32 % 256 ^ 4 ≡ b = omega arith in
      rw (
        long,
        get_be-append 4 (h % 2 ^ 32) (w.be 4 (b % 2 ^ 32) ++ rest),
        h',
        get_be-append 4 (b % 2 ^ 32) rest,
        b',
      )

  decode_parts-payload :
      (f : HighwayFrame) (rest : List ℕ)
      → decode_parts (length f.head) (length f.body) (payload f rest) ≡ ok (some f, rest)
  unfolding decode_parts get_u8
  decode_parts-payload f rest =
      let tail = f.body ++ (41 ∷ rest) in
      let whole : ltb (length (payload f rest)) (length f.head + length f.body + 1) ≡ false =
        le→ltb _ _ (omega (arith, length-append f.head tail, length-append f.body (41 ∷ rest))) in
      rw (
        whole,
        copy_to_bytes-append (length f.head) f.head tail refl,
        copy_to_bytes-append (length f.body) f.body (41 ∷ rest) refl,
      )

  -- Too little behind the lengths.
  decode_parts_short :
      (h b : ℕ) (rest : List ℕ) → length rest < h + b + 1 → decode_parts h b rest ≡ ok (none, rest)
  unfolding decode_parts
  decode_parts_short h b rest l = rw (lt→ltb (length rest) (h + b + 1) l)

  -- For every frame whose head and body have fewer than 2 ^ 32 bytes, `encode` appends bytes to any
  -- buffer and does not panic, and `decode` at these bytes returns the frame and leaves exactly what
  -- stands behind them.
  pub decode-encode :
      (f : HighwayFrame)
      → IsFrame f
      → (bytes : List ℕ) × ((buf : List ℕ) → encode f buf ≡ ok (buf ++ bytes))
        × ((rest : List ℕ) → decode (bytes ++ rest) ≡ ok (some f, rest))
  decode-encode f h =
      (frame_bytes f, (Writes-encode f).onto, λ rest. ap decode (moved rest) ∙ taken rest)
    where
      moved :
          (rest : List ℕ)
          → frame_bytes f ++ rest ≡ lengths (length f.head) (length f.body) (payload f rest)
      moved rest =
          ap (λ t. 40 ∷ t)
            (append_assoc (w.be 4 (length f.head % 2 ^ 32)) _ rest
              ∙ ap (λ t. w.be 4 (length f.head % 2 ^ 32) ++ t)
                  (append_assoc (w.be 4 (length f.body % 2 ^ 32)) _ rest
                    ∙ ap (λ t. w.be 4 (length f.body % 2 ^ 32) ++ t)
                        (append_assoc f.head _ rest
                          ∙ ap (λ t. f.head ++ t) (append_assoc f.body _ rest))))

      taken :
          (rest : List ℕ)
          → decode (lengths (length f.head) (length f.body) (payload f rest)) ≡ ok (some f, rest)
      taken rest =
          decode-lengths (length f.head) (length f.body) (payload f rest) h.head_fits h.body_fits (
            omega (
              arith,
              length-append f.head (f.body ++ (41 ∷ rest)),
              length-append f.body (41 ∷ rest),
            ))
          ∙ decode_parts-payload f rest

  abbrev header : HighwayFrame → List ℕ
  header f = 40 ∷ (w.be 4 (length f.head % 2 ^ 32) ++ w.be 4 (length f.body % 2 ^ 32))

  header-lengths :
      (f : HighwayFrame) (rest : List ℕ)
      → header f ++ rest ≡ lengths (length f.head) (length f.body) rest
  header-lengths f rest =
      ap (λ t. 40 ∷ t)
        (append_assoc (w.be 4 (length f.head % 2 ^ 32)) (w.be 4 (length f.body % 2 ^ 32)) rest)

  -- For every frame whose head and body have fewer than 2 ^ 32 bytes, what `encode` writes is a header
  -- of nine bytes and a payload. Where the payload is cut in two parts that are not empty, `decode` at
  -- the header and the first part returns no frame and leaves the first part only: the header is gone
  -- from the buffer when the second part arrives.
  pub decode_drops_header :
      (f : HighwayFrame) (front back : List ℕ)
      → IsFrame f
      → front ++ back ≡ f.head ++ (f.body ++ (41 ∷ []))
      → 0 < length front
      → 0 < length back
      → (start : List ℕ) × (length start ≡ 9)
        × (encode f [] ≡ ok (start ++ (front ++ back)))
        × (decode (start ++ front) ≡ ok (none, front))
  decode_drops_header f front back h e x y = (
    header f,
    omega (
      arith,
      length-append (w.be 4 (length f.head % 2 ^ 32)) (w.be 4 (length f.body % 2 ^ 32)),
      w.length-be 4 (length f.head % 2 ^ 32),
      w.length-be 4 (length f.body % 2 ^ 32),
    ),
    (Writes-encode f).onto []
        ∙ ap ok (
            sym
              (header-lengths f (front ++ back) ∙ ap (lengths (length f.head) (length f.body)) e)),
    ap decode (header-lengths f front)
        ∙ decode-lengths (length f.head) (length f.body) front h.head_fits h.body_fits x
        ∙ decode_parts_short (length f.head) (length f.body) front (
            omega (
              arith,
              ap length e,
              length-append front back,
              length-append f.head (f.body ++ (41 ∷ [])),
              length-append f.body (41 ∷ []),
            )),
  )
