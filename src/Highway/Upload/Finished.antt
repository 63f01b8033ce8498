-- ===== src/Highway/Upload/Finished.antt =====
-- `highway_upload_bdh` of ricq/src/client/highway/net.rs with a server that accepts every frame.
use ricq.Base.{
  ℕ, suc, ◌<◌, ◌≡◌, refl, ap, sym, ◌∙◌, arith, List, [], ◌∷◌, ◌++◌, length, append-nil, true,
  Bool-cases, inl, inr, ◌==◌,
}
use mathlib.Core.Path.{subst}
use ricq.Wire.{Wire}
use ricq.Result.{ok}
use ricq.Highway.Upload.{
  Session, BdhInput, Frame, Answer, answer, finished, RspHead, Carried, Run, carry, is_zero,
  send_frame, unless_refused, heartbreak_frame, chunks, chunk_frame, next_seq, upload_chunks,
  upload_data, upload_with_echo, sealed_ext, upload_connected, highway_upload_bdh,
}
use ricq.Highway.Upload.Covered.{bodies, highway_upload_bdh-IsUploaded}

-- The run ends with a result.
abbrev Finishes : Run → Type 0
Finishes r = (ext : List ℕ) × (r.1 ≡ finished (ok ext))

-- A head that accepts a frame.
abbrev pub Accepts : Answer → Type 0
Accepts a = (r : RspHead) × (a ≡ answer (ok r)) × (is_zero r.error_code ≡ true)

module _ (md5 : List ℕ → List ℕ) (all : List ℕ) (answers : ℕ → Answer)
    (accepted : (n : ℕ) → Accepts (answers n)) where
  send_frame-Finishes :
      (frame : Frame) (n : ℕ) (next : RspHead → Run)
      → ((r : RspHead) → is_zero r.error_code ≡ true → Finishes (next r))
      → Finishes (send_frame frame (answers n) next)
  unfolding send_frame
  send_frame-Finishes frame n next h =
      let (r, e, z) = accepted n in
      let (ext, f) = h r z in (ext, ap (λ a. (send_frame frame a next).1) e ∙ f)

  upload_chunks-Finishes :
      (n : ℕ) (input : BdhInput) (cs : List (ℕ × List ℕ)) (c : Carried)
      → Finishes (upload_chunks md5 answers n input all cs c)
  unfolding upload_chunks unless_refused
  upload_chunks-Finishes n input [] c = (c.rsp_ext, refl)
  upload_chunks-Finishes n input ((j, chunk) ∷ rest) c =
      send_frame-Finishes (chunk_frame md5 input all c.ticket c.session j chunk) n _
        (λ r z. simp z (upload_chunks-Finishes (suc n) input rest (carry r c)))

  upload_data-Finishes :
      (n : ℕ) (input : BdhInput) (s : Session)
      → 0 < input.chunk_size
      → Finishes (upload_data md5 answers n input all s)
  unfolding upload_data
  upload_data-Finishes n input s h = elim (Bool-cases (input.chunk_size == 0)) [
    | inl e ↦ absurd (ground arith)
    | inr e ↦ simp e (
        upload_chunks-Finishes n input (chunks (length all) input.chunk_size 0 all)
          (record { session = s; ticket = input.ticket; rsp_ext = [] }))
  ]

  upload_with_echo-Finishes :
      (input : BdhInput) (s : Session)
      → 0 < input.chunk_size
      → Finishes (upload_with_echo md5 answers input all s)
  unfolding upload_with_echo
  upload_with_echo-Finishes input s h = elim (Bool-cases input.send_echo) [
    | inl e ↦ simp e (
        send_frame-Finishes (heartbreak_frame s) 0 _
          (λ r z. upload_data-Finishes 1 input (next_seq s).1 h))
    | inr e ↦ simp e (upload_data-Finishes 0 input s h)
  ]

upload_bdh-Finishes :
    ⦃w : Wire⦄
    → (md5 : List ℕ → List ℕ) (all : List ℕ) (answers : ℕ → Answer) (filling : ℕ → List ℕ)
      (input : BdhInput) (s : Session) (ext : List ℕ)
    → ((n : ℕ) → Accepts (answers n))
    → 0 < input.chunk_size
    → sealed_ext filling input s ≡ ok ext
    → Finishes (highway_upload_bdh md5 filling (ok tt) answers input all s)
unfolding highway_upload_bdh upload_connected
upload_bdh-Finishes md5 all answers filling input s ext accepted h e =
    subst (λ x. Finishes (upload_connected md5 (ok tt) answers input all s x)) (sym e)
      (upload_with_echo-Finishes md5 all answers accepted (record input { ext = ext }) s h)

-- If the connection succeeds, the size of a chunk is not zero, the extension can be encrypted where it is to
-- be, and the server accepts every frame, then `highway_upload_bdh` ends with a result, and the bodies of
-- the frames that it has sent are, one behind the other, the data.
pub highway_upload_bdh-finishes :
    ⦃w : Wire⦄
    → (md5 : List ℕ → List ℕ) (all : List ℕ) (answers : ℕ → Answer) (filling : ℕ → List ℕ)
      (input : BdhInput) (s : Session) (ext : List ℕ)
    → ((n : ℕ) → Accepts (answers n))
    → 0 < input.chunk_size
    → sealed_ext filling input s ≡ ok ext
    → ((rsp_ext : List ℕ) × ((highway_upload_bdh md5 filling (ok tt) answers input all s).1
          ≡ finished (ok rsp_ext)))
      × (bodies (highway_upload_bdh md5 filling (ok tt) answers input all s).0 ≡ all)
highway_upload_bdh-finishes md5 all answers filling input s ext accepted h e =
    let ((rest, covered, ends), _) =
      highway_upload_bdh-IsUploaded md5 all filling (ok tt) answers input s in
    let sent : List ℕ = bodies (highway_upload_bdh md5 filling (ok tt) answers input all s).0 in
    let (rsp_ext, f) = upload_bdh-Finishes md5 all answers filling input s ext accepted h e in
    ((rsp_ext, f), sym (append-nil sent) ∙ ap (λ r. sent ++ r) (sym (ends rsp_ext f)) ∙ covered)
