-- ===== src/Wtlogin/Response/Work.antt =====
-- `t546_to_t547` of ricq-core/src/command/wtlogin/mod.rs: the number whose hash the server asks for.
-- The packages `sha2` and `rsa` (for `BigUint`) and the clock are parameters.
use ricq.Base.{ℕ, zero, suc, ◌+◌, ◌≡◌, ◌<◌, ◌%◌, ◌^◌, List, [], length, Bool, true, false}
use ricq.Base.{if◌then◌else◌, ◌==◌, ◌&&◌, not, same_bytes, arith, sym, ap, ap₂, ◌∙◌}
use ricq.Wire.{Wire}
use ricq.Result.{Result, ok, panic, and_then, map_ok}
use ricq.Binary.Reader.{Reader, ◌>>=◌, pure, get_u8, get_u16, read_bytes_short}
use ricq.Binary.Writer.{PacketWriter, ◌>>◌, put_u8, put_u16, put_u32, write_bytes_short}
use ricq.Wtlogin.TlvReader.{run}

-- What the search uses: the hash, numbers from and to their bytes, and how long it took.
pub record Hashing : Type 0 where
  pub sha256 : List ℕ → List ℕ
  pub from_bytes_be : List ℕ → ℕ
  pub to_bytes_be : ℕ → List ℕ
  pub elapsed : ℕ

-- The search from `tmp` on, with the number of steps so far; the code has no bound on them, and the
-- model has as many as the fuel.
unfoldable pub find_preimage : Hashing → List ℕ → ℕ → ℕ → ℕ → Result (ℕ × ℕ)
find_preimage h tgt zero tmp cnt = panic
find_preimage h tgt (suc fuel) tmp cnt =
    let rest = find_preimage h tgt fuel (tmp + 1) (cnt + 1) in
    if same_bytes (h.sha256 (h.to_bytes_be tmp)) tgt then ok (tmp, cnt) else rest

-- The puzzle as it was read.
pub record Puzzle : Type 0 where
  pub a : ℕ
  pub typ : ℕ
  pub c : ℕ
  pub proven : Bool
  pub e : ℕ
  pub f : ℕ
  pub src : List ℕ
  pub tgt : List ℕ
  pub cpy : List ℕ

-- What was found: the number, how long it took and the steps; all is zero where nothing was searched.
pub record Found : Type 0 where
  pub proven : Bool
  pub dst : List ℕ
  pub elp : ℕ
  pub cnt : ℕ

unfoldable pub solve : Hashing → ℕ → Puzzle → Result Found
solve h fuel p =
    if p.typ == 2 && length p.tgt == 32
    then map_ok
        (λ r. record {
          proven = true;
          dst = h.to_bytes_be r.0;
          elp = h.elapsed;
          cnt = r.1 % 2 ^ 32;
        })
        (find_preimage h p.tgt fuel (h.from_bytes_be p.src) 0)
    else ok (record { proven = p.proven; dst = []; elp = 0; cnt = 0 })

module _ ⦃w : Wire⦄ where
  unfoldable pub read_t546 : Reader Puzzle
  read_t546 = do
    a ← get_u8
    typ ← get_u8
    c ← get_u8
    flag ← get_u8
    e ← get_u16
    f ← get_u16
    src ← read_bytes_short
    tgt ← read_bytes_short
    cpy ← read_bytes_short
    pure (record {
      a = a;
      typ = typ;
      c = c;
      proven = not (flag == 0);
      e = e;
      f = f;
      src = src;
      tgt = tgt;
      cpy = cpy;
    })

  unfoldable pub write_found : Found → PacketWriter
  write_found found =
      if found.proven
      then (do write_bytes_short found.dst; put_u32 found.elp; put_u32 found.cnt)
      else λ buf. ok buf

  unfoldable pub write_t547 : Puzzle → Found → PacketWriter
  write_t547 p found = do
    put_u8 p.a
    put_u8 p.typ
    put_u8 p.c
    put_u8 (if found.proven then 1 else 0)
    put_u16 p.e
    put_u16 p.f
    write_bytes_short p.src
    write_bytes_short p.tgt
    write_bytes_short p.cpy
    write_found found

  unfoldable pub t546_to_t547 : Hashing → ℕ → List ℕ → Result (List ℕ)
  t546_to_t547 h fuel bytes =
      and_then (run read_t546 bytes) λ p. and_then (solve h fuel p) λ found. write_t547 p found []

-- Whenever some number from the one that the server sent on has the hash that it asks for, the search
-- ends with the least such number and with how many numbers it passed, for any fuel above that many.
pub find_preimage_least :
    (h : Hashing) (tgt : List ℕ) (fuel tmp cnt n : ℕ)
    → same_bytes (h.sha256 (h.to_bytes_be (tmp + n))) tgt ≡ true
    → ((m : ℕ) → m < n → same_bytes (h.sha256 (h.to_bytes_be (tmp + m))) tgt ≡ false)
    → n < fuel
    → find_preimage h tgt fuel tmp cnt ≡ ok (tmp + n, cnt + n)
unfolding find_preimage
find_preimage_least h tgt zero tmp cnt n hit before enough = absurd (omega arith)
find_preimage_least h tgt (suc fuel) tmp cnt zero hit before enough =
    let here : tmp + 0 ≡ tmp = omega arith in
    let steps : cnt + 0 ≡ cnt = omega arith in
    rw (ap (λ t. same_bytes (h.sha256 (h.to_bytes_be t)) tgt) (sym here) ∙ hit, here, steps)
find_preimage_least h tgt (suc fuel) tmp cnt (suc n) hit before enough =
    let here : tmp + 0 ≡ tmp = omega arith in
    let next : (k : ℕ) → (tmp + 1) + k ≡ tmp + suc k = λ k. omega arith in
    let steps : (cnt + 1) + n ≡ cnt + suc n = omega arith in
    let hash : ℕ → Bool = λ t. same_bytes (h.sha256 (h.to_bytes_be t)) tgt in
    rw (ap hash (sym here) ∙ before 0 (omega arith)) (
      find_preimage_least h tgt fuel (tmp + 1) (cnt + 1) n (ap hash (next n) ∙ hit)
        (λ m l. ap hash (next m) ∙ before (suc m) (omega arith)) (omega arith)
      ∙ ap₂ (λ x y. ok (x, y)) (next n) steps)
