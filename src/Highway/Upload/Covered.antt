-- ===== src/Highway/Upload/Covered.antt =====
-- `highway_upload_bdh` of ricq/src/client/highway/net.rs: which part of the data has been sent.
use ricq.Base.{
  ℕ, zero, suc, ◌+◌, ◌≤◌, ◌<◌, ◌≡◌, refl, sym, ap, ◌∙◌, arith, List, [], ◌∷◌, ◌++◌, length, take,
  drop, length-take, append_assoc, append-nil, length-drop, take-append-drop, Option, none, some,
  Bool-cases, inl, inr, ltb, ltb→lt, ltb_false→le, ◌%◌, ◌^◌, ◌==◌,
}
use mathlib.Core.Path.{subst}
use ricq.Wire.{Wire}
use ricq.Result.{Result, ok, err, panic, RqError}
use ricq.Highway.Upload.{
  Session, BdhInput, Frame, Answer, answer, closed, Ending, finished, RspHead, Carried, Run, carry,
  is_zero, send_frame, refused, unless_refused, chunk_frame, build_heartbreak, heartbreak_frame,
  chunks, SegHead, build_seghead, next_seq, upload_chunks, upload_data, upload_with_echo,
  sealed_ext, upload_connected, highway_upload_bdh,
}

-- The bodies of frames, one behind the other.
abbrev pub bodies : List Frame → List ℕ
bodies [] = []
bodies (f ∷ fs) = f.body ++ bodies fs

-- What was sent is the data up to a place, which is its end if the upload succeeds.
abbrev pub Covers : List ℕ → Run → Type 0
Covers bytes r =
    (rest : List ℕ) × (bodies r.0 ++ rest ≡ bytes)
    × ((ext : List ℕ) → r.1 ≡ finished (ok ext) → rest ≡ [])

-- A head says where in the data its chunk begins, how long both are, and the hashes of both; a frame
-- without such a head is empty.
abbrev pub Describes : (List ℕ → List ℕ) → List ℕ → ℕ → List ℕ → Option SegHead → Type 0
Describes md5 bytes i body none = body ≡ []
Describes md5 bytes i body (some h) =
    (h.dataoffset ≡ i)
    × (h.datalength ≡ length body % 2 ^ 32)
    × (h.filesize ≡ length bytes)
    × (h.md5 ≡ md5 body)
    × (h.file_md5 ≡ md5 bytes)

abbrev pub AreDescribed : (List ℕ → List ℕ) → List ℕ → ℕ → List Frame → Type 0
AreDescribed md5 bytes i [] = Unit {0}
AreDescribed md5 bytes i (f ∷ fs) =
    Describes md5 bytes i f.body f.head.msg_seghead × AreDescribed md5 bytes (i + length f.body) fs

-- The same of the chunks of the data.
abbrev joined : List (ℕ × List ℕ) → List ℕ
joined [] = []
joined ((i, chunk) ∷ rest) = chunk ++ joined rest

abbrev ArePlaced : ℕ → List (ℕ × List ℕ) → Type 0
ArePlaced i [] = Unit {0}
ArePlaced i ((j, chunk) ∷ rest) = (j ≡ i) × ArePlaced (i + length chunk) rest

joined-chunks :
    (fuel size i : ℕ) (bytes : List ℕ)
    → 0 < size
    → length bytes ≤ fuel
    → joined (chunks fuel size i bytes) ≡ bytes
unfolding chunks
joined-chunks zero size i [] h l = refl
joined-chunks zero size i (b ∷ bytes) h l = absurd (omega arith)
joined-chunks (suc fuel) size i [] h l = refl
joined-chunks (suc fuel) size i (b ∷ bytes) h l =
    ap (λ x. take size (b ∷ bytes) ++ x)
      (joined-chunks fuel size (i + size) (drop size (b ∷ bytes)) h
        (omega (arith, length-drop size (b ∷ bytes))))
    ∙ take-append-drop size (b ∷ bytes)

drop_short : (n : ℕ) (xs : List ℕ) → length xs ≤ n → drop n xs ≡ []
drop_short zero [] h = refl
drop_short zero (x ∷ xs) h = absurd (omega arith)
drop_short (suc n) [] h = refl
drop_short (suc n) (x ∷ xs) h = drop_short n xs (omega arith)

chunks-nil : (fuel size i : ℕ) → chunks fuel size i [] ≡ []
unfolding chunks
chunks-nil zero size i = refl
chunks-nil (suc fuel) size i = refl

-- Behind a chunk that is not the last one, the place is the one that the loop counts.
chunks-ArePlaced : (fuel size i : ℕ) (bytes : List ℕ) → ArePlaced i (chunks fuel size i bytes)
unfolding chunks
chunks-ArePlaced zero size i bytes = tt
chunks-ArePlaced (suc fuel) size i [] = tt
chunks-ArePlaced (suc fuel) size i (b ∷ bytes) = (
  refl,
  elim (Bool-cases (ltb size (length (b ∷ bytes)))) [
    | inl l ↦
        let full : i + size ≡ i + length (take size (b ∷ bytes)) =
          omega (arith, length-take size (b ∷ bytes), ltb→lt size (length (b ∷ bytes)) l) in
        subst (λ (k : ℕ). ArePlaced k (chunks fuel size (i + size) (drop size (b ∷ bytes)))) full
          (chunks-ArePlaced fuel size (i + size) (drop size (b ∷ bytes)))
    | inr g ↦
        let none_left : drop size (b ∷ bytes) ≡ [] =
          drop_short size (b ∷ bytes) (ltb_false→le size (length (b ∷ bytes)) g) in
        subst (λ cs. ArePlaced (i + length (take size (b ∷ bytes))) cs)
          (sym (ap (chunks fuel size (i + size)) none_left ∙ chunks-nil fuel size (i + size))) tt
  ],
)

-- What a run has sent, from a place on.
abbrev pub IsUploaded : (List ℕ → List ℕ) → List ℕ → ℕ → List ℕ → Run → Type 0
IsUploaded md5 all i bytes r = Covers bytes r × AreDescribed md5 all i r.0

finished-injective : {a b : Result (List ℕ)} → finished a ≡ finished b → a ≡ b
finished-injective e = cc e

err-ne-ok : {e : RqError} {a : List ℕ} → err e ≡ ok a → ⊥
err-ne-ok e = cc e

panic-ne-ok : {a : List ℕ} → panic ≡ ok a → ⊥
panic-ne-ok e = cc e

module _ (md5 : List ℕ → List ℕ) (all : List ℕ) where
  send_frame-IsUploaded :
      (i : ℕ) (frame : Frame) (a : Answer) (next : RspHead → Run) (more : List ℕ)
      → Describes md5 all i frame.body frame.head.msg_seghead
      → ((r : RspHead) → IsUploaded md5 all (i + length frame.body) more (next r))
      → IsUploaded md5 all i (frame.body ++ more) (send_frame frame a next)
  unfolding send_frame
  send_frame-IsUploaded i frame closed next more d h =
      ((more, ap (λ x. x ++ more) (append-nil frame.body), λ ext e. cc e), (d, tt))
  send_frame-IsUploaded i frame (answer (err e')) next more d h = (
    (
      more,
      ap (λ x. x ++ more) (append-nil frame.body),
      λ ext e. absurd (err-ne-ok (finished-injective e)),
    ),
    (d, tt),
  )
  send_frame-IsUploaded i frame (answer panic) next more d h = (
    (
      more,
      ap (λ x. x ++ more) (append-nil frame.body),
      λ ext e. absurd (panic-ne-ok (finished-injective e)),
    ),
    (d, tt),
  )
  send_frame-IsUploaded i frame (answer (ok r)) next more d h =
      let ((rest, covered, ends), described) = h r in
      (
        (
          rest,
          append_assoc frame.body (bodies (next r).0) rest ∙ ap (λ x. frame.body ++ x) covered,
          ends,
        ),
        (d, described),
      )

  unless_refused-IsUploaded :
      (i : ℕ) (r : RspHead) (later : Run) (more : List ℕ)
      → IsUploaded md5 all i more later
      → IsUploaded md5 all i more (unless_refused r later)
  unfolding unless_refused refused
  unless_refused-IsUploaded i r later more h = elim (Bool-cases (is_zero r.error_code)) [
    | inl e ↦ rw e h
    | inr e ↦ rw e ((more, refl, λ ext f. absurd (err-ne-ok (finished-injective f))), tt)
  ]

  upload_chunks-IsUploaded :
      (answers : ℕ → Answer) (n : ℕ) (input : BdhInput) (i : ℕ) (cs : List (ℕ × List ℕ))
      (c : Carried)
      → ArePlaced i cs
      → IsUploaded md5 all i (joined cs) (upload_chunks md5 answers n input all cs c)
  unfolding upload_chunks chunk_frame build_seghead
  upload_chunks-IsUploaded answers n input i [] c p = (([], refl, λ ext e. refl), tt)
  upload_chunks-IsUploaded answers n input i ((j, chunk) ∷ rest) c p =
      send_frame-IsUploaded i (chunk_frame md5 input all c.ticket c.session j chunk) (answers n) _
        (joined rest) (p.0, refl, refl, refl, refl)
        (λ r.
          unless_refused-IsUploaded (i + length chunk) r _ (joined rest) (
            upload_chunks-IsUploaded answers (suc n) input (i + length chunk) rest (carry r c) p.1))

  nothing_sent :
      (end : Ending)
      → ((ext : List ℕ) → end ≡ finished (ok ext) → ⊥)
      → IsUploaded md5 all 0 all ([], end)
  nothing_sent end h = ((all, refl, λ ext e. absurd (h ext e)), tt)

  upload_data-IsUploaded :
      (answers : ℕ → Answer) (n : ℕ) (input : BdhInput) (s : Session)
      → IsUploaded md5 all 0 all (upload_data md5 answers n input all s)
  unfolding upload_data
  upload_data-IsUploaded answers n input s = elim (Bool-cases (input.chunk_size == 0)) [
    | inl e ↦ rw e (nothing_sent (finished panic) (λ ext f. panic-ne-ok (finished-injective f)))
    | inr e ↦ rw e (
        subst
          (λ bytes. IsUploaded md5 all 0 bytes (
            upload_chunks md5 answers n input all (chunks (length all) input.chunk_size 0 all)
              (record { session = s; ticket = input.ticket; rsp_ext = [] })))
          (joined-chunks (length all) input.chunk_size 0 all (ground arith) (omega arith))
          (upload_chunks-IsUploaded answers n input 0 (chunks (length all) input.chunk_size 0 all) _
            (chunks-ArePlaced (length all) input.chunk_size 0 all)))
  ]

  upload_with_echo-IsUploaded :
      (answers : ℕ → Answer) (input : BdhInput) (s : Session)
      → IsUploaded md5 all 0 all (upload_with_echo md5 answers input all s)
  unfolding upload_with_echo heartbreak_frame build_heartbreak
  upload_with_echo-IsUploaded answers input s = elim (Bool-cases input.send_echo) [
    | inl e ↦ simp e (
        send_frame-IsUploaded 0 (heartbreak_frame s) (answers 0) _ all refl
          (λ r. upload_data-IsUploaded answers 1 input (next_seq s).1))
    | inr e ↦ simp e (upload_data-IsUploaded answers 0 input s)
  ]

  upload_connected-IsUploaded :
      (connected : Result (Unit {0})) (answers : ℕ → Answer) (input : BdhInput) (s : Session)
      (ext : Result (List ℕ))
      → IsUploaded md5 all 0 all (upload_connected md5 connected answers input all s ext)
  unfolding upload_connected
  upload_connected-IsUploaded connected answers input s (err e) =
      nothing_sent (finished (err e)) (λ ext f. err-ne-ok (finished-injective f))
  upload_connected-IsUploaded connected answers input s panic =
      nothing_sent (finished panic) (λ ext f. panic-ne-ok (finished-injective f))
  upload_connected-IsUploaded (err e) answers input s (ok ext) =
      nothing_sent (finished (err e)) (λ ext' f. err-ne-ok (finished-injective f))
  upload_connected-IsUploaded panic answers input s (ok ext) =
      nothing_sent (finished panic) (λ ext' f. panic-ne-ok (finished-injective f))
  upload_connected-IsUploaded (ok u) answers input s (ok ext) =
      upload_with_echo-IsUploaded answers (record input { ext = ext }) s

  -- Whatever the server answers and wherever the upload ends, the bodies of the frames that
  -- `highway_upload_bdh` has sent are, one behind the other, the data up to some place, and all of it if the
  -- upload succeeds. The head of each frame with a chunk says at which place of the data the chunk begins,
  -- the lengths of the chunk and of the data, and the hashes of both; a frame without such a head is empty.
  pub highway_upload_bdh-IsUploaded :
      ⦃w : Wire⦄
      → (filling : ℕ → List ℕ) (connected : Result (Unit {0})) (answers : ℕ → Answer)
        (input : BdhInput) (s : Session)
      → IsUploaded md5 all 0 all (highway_upload_bdh md5 filling connected answers input all s)
  unfolding highway_upload_bdh
  highway_upload_bdh-IsUploaded filling connected answers input s =
      upload_connected-IsUploaded connected answers input s (sealed_ext filling input s)
