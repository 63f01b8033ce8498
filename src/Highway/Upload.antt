-- ===== src/Highway/Upload.antt =====
-- `Session` and `BdhInput` of ricq-core/src/highway/mod.rs and `highway_upload_bdh` of
-- ricq/src/client/highway/net.rs: data goes to a server in chunks, each of which is answered. The heads
-- are the generated messages, before prost writes them; what the server answers to each frame, and
-- MD5, are arguments.
pub mod Covered
pub mod Finished
use ricq.Base.{
  ℕ, zero, suc, ◌+◌, ◌%◌, ◌^◌, List, [], ◌∷◌, ◌++◌, length, take, drop, Option, none, some, Bool,
  true, false, ◌==◌, if◌then◌else◌,
}
use ricq.Base.Int.{ℤ, pos, negsuc}
use ricq.Base.Decimal.{to_string}
use ricq.Wire.{Wire}
use ricq.Result.{Result, ok, err, panic, RqError, other, codes}
use ricq.Crypto.QqTea.{qqtea_encrypt}

-- The fields that uploading reads and writes.
pub record Session : Type 0 where
  pub uin : ℤ
  pub app_id : ℕ
  pub session_key : List ℕ
  pub seq : ℕ

pub record BdhInput : Type 0 where
  pub command_id : ℕ
  pub ticket : List ℕ
  pub ext : List ℕ
  pub encrypt : Bool
  pub chunk_size : ℕ
  pub send_echo : Bool

-- `DataHighwayHead`, `SegHead` and `ReqDataHighwayHead`, with the fields that are set.
pub record BaseHead : Type 0 where
  pub version : ℕ
  pub uin : List ℕ
  pub command : List ℕ
  pub seq : ℕ
  pub appid : ℕ
  pub dataflag : ℕ
  pub command_id : ℕ
  pub locale_id : ℕ

pub record SegHead : Type 0 where
  pub filesize : ℕ
  pub dataoffset : ℕ
  pub datalength : ℕ
  pub serviceticket : List ℕ
  pub md5 : List ℕ
  pub file_md5 : List ℕ

pub record ReqHead : Type 0 where
  pub msg_basehead : BaseHead
  pub msg_seghead : Option SegHead
  pub req_extendinfo : List ℕ

pub record Frame : Type 0 where
  pub head : ReqHead
  pub body : List ℕ

-- The fields of `RspDataHighwayHead` that are read; of its `SegHead` only the ticket is.
pub record RspHead : Type 0 where
  pub error_code : ℤ
  pub rsp_extendinfo : List ℕ
  pub serviceticket : Option (List ℕ)

-- What comes back for a frame: a head, an error of sending, reading or decoding, or the end of the
-- connection, on which `read_response` asks for ever. The head of what answers an echo is not decoded.
pub data Answer : Type 0 where
  answer : Result RspHead → Answer
  closed : Answer

pub data Ending : Type 0 where
  finished : Result (List ℕ) → Ending
  spins : Ending

unfoldable pub next_seq : Session → ℕ × Session
next_seq s = (s.seq, record s { seq = (s.seq + 2) % 2 ^ 32 })

unfoldable pub build_basehead : Session → List ℕ → ℕ → ℕ → ℕ → BaseHead
build_basehead s command dataflag command_id locale_id = record {
  version = 1;
  uin = to_string s.uin;
  command = command;
  seq = (next_seq s).0;
  appid = s.app_id;
  dataflag = dataflag;
  command_id = command_id;
  locale_id = locale_id;
}

-- `(0..len).step_by(chunk_size)`, with the chunk at each offset; there are no more chunks than bytes.
unfoldable pub chunks : ℕ → ℕ → ℕ → List ℕ → List (ℕ × List ℕ)
chunks zero size i bytes = []
chunks (suc fuel) size i [] = []
chunks (suc fuel) size i (b ∷ bytes) =
    (i, take size (b ∷ bytes)) ∷ chunks fuel size (i + size) (drop size (b ∷ bytes))

-- What the loop carries: the session, the ticket, and the last extension that was not empty.
pub record Carried : Type 0 where
  pub session : Session
  pub ticket : List ℕ
  pub rsp_ext : List ℕ

unfoldable pub unless_empty : List ℕ → List ℕ → List ℕ
unless_empty [] old = old
unless_empty (b ∷ bs) old = b ∷ bs

unfoldable pub new_ticket : Option (List ℕ) → List ℕ → List ℕ
new_ticket none old = old
new_ticket (some t) old = unless_empty t old

unfoldable pub carry : RspHead → Carried → Carried
carry r c = record {
  session = (next_seq c.session).1;
  ticket = new_ticket r.serviceticket c.ticket;
  rsp_ext = unless_empty r.rsp_extendinfo c.rsp_ext;
}

unfoldable pub is_zero : ℤ → Bool
is_zero (pos n) = n == 0
is_zero (negsuc n) = false

-- What was sent, and how it ends.
abbrev pub Run : Type 0
Run = List Frame × Ending

-- A frame that is sent, and its answer; `next` is what follows.
unfoldable pub send_frame : Frame → Answer → (RspHead → Run) → Run
send_frame frame closed next = (frame ∷ [], spins)
send_frame frame (answer (err e)) next = (frame ∷ [], finished (err e))
send_frame frame (answer panic) next = (frame ∷ [], finished panic)
send_frame frame (answer (ok r)) next = (frame ∷ (next r).0, (next r).1)

unfoldable pub refused : RspHead → Run
refused r = ([], finished (err (other (codes "error_code = " ++ to_string r.error_code))))

unfoldable pub unless_refused : RspHead → Run → Run
unless_refused r later = if is_zero r.error_code then later else refused r

unfoldable pub build_heartbreak : Session → ReqHead
build_heartbreak s = record {
  msg_basehead = build_basehead s (codes "PicUp.Echo") 4096 0 2052;
  msg_seghead = none;
  req_extendinfo = [];
}

unfoldable pub heartbreak_frame : Session → Frame
heartbreak_frame s = record { head = build_heartbreak s; body = [] }

-- The extension, encrypted if it is to be; `filling` is the padding.
unfoldable pub sealed_ext : ⦃w : Wire⦄ → (ℕ → List ℕ) → BdhInput → Session → Result (List ℕ)
sealed_ext filling input s =
    if input.encrypt then qqtea_encrypt filling input.ext s.session_key else ok input.ext

module _ (md5 : List ℕ → List ℕ) where
  unfoldable pub build_seghead : ℕ → ℕ → List ℕ → List ℕ → List ℕ → SegHead
  build_seghead filesize dataoffset chunk ticket file_md5 = record {
    filesize = filesize;
    dataoffset = dataoffset;
    datalength = length chunk % 2 ^ 32;
    serviceticket = ticket;
    md5 = md5 chunk;
    file_md5 = file_md5;
  }

  -- The frame of a chunk.
  unfoldable pub chunk_frame : BdhInput → List ℕ → List ℕ → Session → ℕ → List ℕ → Frame
  chunk_frame input data_bytes ticket s i chunk = record {
    head = record {
      msg_basehead = build_basehead s (codes "PicUp.DataUp") 4096 input.command_id 2052;
      msg_seghead = some (build_seghead (length data_bytes) i chunk ticket (md5 data_bytes));
      req_extendinfo = input.ext;
    };
    body = chunk;
  }

  -- The loop over the chunks; the answers are numbered.
  unfoldable pub upload_chunks :
      (ℕ → Answer) → ℕ → BdhInput → List ℕ → List (ℕ × List ℕ) → Carried → Run
  upload_chunks answers n input data_bytes [] c = ([], finished (ok c.rsp_ext))
  upload_chunks answers n input data_bytes ((i, chunk) ∷ rest) c =
      send_frame (chunk_frame input data_bytes c.ticket c.session i chunk) (answers n)
        (λ r. unless_refused r (upload_chunks answers (suc n) input data_bytes rest (carry r c)))

  -- A step of no bytes panics.
  unfoldable pub upload_data : (ℕ → Answer) → ℕ → BdhInput → List ℕ → Session → Run
  upload_data answers n input data_bytes s =
      if input.chunk_size == 0
      then ([], finished panic)
      else upload_chunks answers n input data_bytes
          (chunks (length data_bytes) input.chunk_size 0 data_bytes)
          (record { session = s; ticket = input.ticket; rsp_ext = [] })

  unfoldable pub upload_with_echo : (ℕ → Answer) → BdhInput → List ℕ → Session → Run
  upload_with_echo answers input data_bytes s =
      if input.send_echo
      then send_frame (heartbreak_frame s) (answers 0)
          (λ r. upload_data answers 1 input data_bytes (next_seq s).1)
      else upload_data answers 0 input data_bytes s

  unfoldable pub upload_connected :
      Result (Unit {0}) → (ℕ → Answer) → BdhInput → List ℕ → Session → Result (List ℕ) → Run
  upload_connected connected answers input data_bytes s (err e) = ([], finished (err e))
  upload_connected connected answers input data_bytes s panic = ([], finished panic)
  upload_connected (err e) answers input data_bytes s (ok ext) = ([], finished (err e))
  upload_connected panic answers input data_bytes s (ok ext) = ([], finished panic)
  upload_connected (ok u) answers input data_bytes s (ok ext) =
      upload_with_echo answers (record input { ext = ext }) data_bytes s

  unfoldable pub highway_upload_bdh :
      ⦃w : Wire⦄
      → (ℕ → List ℕ)
      → Result (Unit {0})
      → (ℕ → Answer)
      → BdhInput
      → List ℕ
      → Session
      → Run
  highway_upload_bdh filling connected answers input data_bytes s =
      upload_connected connected answers input data_bytes s (sealed_ext filling input s)
