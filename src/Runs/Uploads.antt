-- ===== src/Runs/Uploads.antt =====
-- A run of the model of ricq/src/client/highway/net.rs.
use ricq.Base.{ℕ, ◌≡◌, refl, arith, List, [], ◌∷◌, none, true, false}
use ricq.Base.Int.{pos}
use ricq.Result.{ok}
use ricq.Wire.BigEndian.{big_endian}
use ricq.Highway.Upload.{
  Session, BdhInput, Answer, answer, finished, is_zero, sealed_ext, highway_upload_bdh,
}
use ricq.Highway.Upload.Covered.{IsUploaded, bodies, highway_upload_bdh-IsUploaded}
use ricq.Highway.Upload.Finished.{Accepts, highway_upload_bdh-finishes}
use ricq.Runs.Crypto.{filling_220, sevens, hello}

abbrev echoed_in_pairs : BdhInput
echoed_in_pairs = record {
  command_id = 2;
  ticket = hello;
  ext = hello;
  encrypt = true;
  chunk_size = 2;
  send_echo = true;
}

abbrev session_of_sevens : Session
session_of_sevens = record { uin = pos 10001; app_id = 537; session_key = sevens; seq = 8 }

abbrev accepted : ℕ → Answer
accepted n =
    answer (ok (record { error_code = pos 0; rsp_extendinfo = n ∷ []; serviceticket = none }))

highway_upload_bdh-IsUploaded_example :
    IsUploaded
      (λ bs. bs)
      hello
      0
      hello
      (highway_upload_bdh
        (λ bs. bs)
        filling_220
        (ok tt)
        accepted
        echoed_in_pairs
        hello
        session_of_sevens)
highway_upload_bdh-IsUploaded_example =
    highway_upload_bdh-IsUploaded (λ bs. bs) hello filling_220 (ok tt) accepted echoed_in_pairs
      session_of_sevens

abbrev plain_in_pairs : BdhInput
plain_in_pairs = record echoed_in_pairs { encrypt = false }

accepted-Accepts : (n : ℕ) → Accepts (accepted n)
unfolding is_zero
accepted-Accepts n =
    (record { error_code = pos 0; rsp_extendinfo = n ∷ []; serviceticket = none }, refl, refl)

plain_in_pairs-sealed : sealed_ext filling_220 plain_in_pairs session_of_sevens ≡ ok hello
unfolding sealed_ext
plain_in_pairs-sealed = refl

highway_upload_bdh-finishes_example :
    ((rsp_ext : List ℕ) × ((highway_upload_bdh
          (λ bs. bs)
          filling_220
          (ok tt)
          accepted
          plain_in_pairs
          hello
          session_of_sevens).1
        ≡ finished (ok rsp_ext)))
    × (bodies
          (highway_upload_bdh
            (λ bs. bs)
            filling_220
            (ok tt)
            accepted
            plain_in_pairs
            hello
            session_of_sevens).0
        ≡ hello)
highway_upload_bdh-finishes_example =
    highway_upload_bdh-finishes (λ bs. bs) hello accepted filling_220 plain_in_pairs
      session_of_sevens hello accepted-Accepts (omega arith) plain_in_pairs-sealed
