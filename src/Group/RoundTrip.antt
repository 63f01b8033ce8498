-- ===== src/Group/RoundTrip.antt =====
-- The conversions of ricq-core/src/common.rs, there and back.
use ricq.Base.{
  ℕ, ◌+◌, ◌*◌, ◌/◌, ◌%◌, ◌^◌, ◌<◌, ◌≡◌, refl, sym, arith, ap, Bool, true, false, ◌==◌, ==_eq, ◌∙◌,
  if◌then◌else◌,
}
use ricq.Base.Bits.{passes, passes_lem}
use ricq.Base.Int.{ℤ, pos, negsuc}
use ricq.Result.{ok}
use ricq.Group.{group_code2uin, group_uin2code, uin_left, code_left}
use ricq.Group.{RqAddr, to_socket_addr, from_socket_addr}

is_pos : ℕ → ℤ → Bool
is_pos n (pos m) = m == n
is_pos n (negsuc m) = false

unfoldable goes_back : ℕ → Bool
unfolding is_pos uin_left code_left
goes_back n = is_pos n (code_left (uin_left (pos n)))

checked : passes goes_back 2010 ≡ true
unfolding passes goes_back
checked = refl

is_pos→≡ : (n : ℕ) (z : ℤ) → is_pos n z ≡ true → z ≡ pos n
unfolding is_pos
is_pos→≡ n (pos m) h = ap pos (==_eq m n h)
is_pos→≡ n (negsuc m) h = absurd (cc)

left_lem : (n : ℕ) → n < 2010 → code_left (uin_left (pos n)) ≡ pos n
left_lem n h =
    is_pos→≡ n (code_left (uin_left (pos n)))
      (unfold goes_back in passes_lem goes_back 2010 n h checked)

abbrev IsPos : ℤ → Type 0
IsPos z = (n : ℕ) × (z ≡ pos n)

if-IsPos : (b : Bool) {x y : ℤ} → IsPos x → IsPos y → IsPos (if b then x else y)
if-IsPos true h k = h
if-IsPos false h k = k

uin_left-IsPos : (n : ℕ) → IsPos (uin_left (pos n))
unfolding uin_left
uin_left-IsPos n =
    let shifted : (k : ℕ) → IsPos (pos (n + k)) = λ k. (n + k, refl) in
    if-IsPos _ (shifted 202) (
      if-IsPos _ (shifted 469) (
        if-IsPos _ (shifted 2080) (
          if-IsPos _ (shifted 1943) (
            if-IsPos _ (shifted 1990) (
              if-IsPos _ (shifted 3890) (
                if-IsPos _ (shifted 3490)
                  (if-IsPos _ (shifted 2265) (if-IsPos _ (shifted 3490) (n, refl)))))))))

-- For every group number from 0 up to and without 2010000000, the account that `group_code2uin` gives
-- is not negative, and `group_uin2code` gives the number back.
pub group_uin2code-group_code2uin :
    (code : ℕ)
    → code < 2010000000
    → (uin : ℕ) × (group_code2uin (pos code) ≡ pos uin) × (group_uin2code (pos uin) ≡ pos code)
unfolding group_code2uin group_uin2code
group_uin2code-group_code2uin code h =
    let (left, e) = uin_left-IsPos (code / 1000000) in
    let low = code % 1000000 in
    let high : (left * 1000000 + low) / 1000000 ≡ left = omega arith in
    let rest : (left * 1000000 + low) % 1000000 ≡ low = omega arith in
    let whole : code / 1000000 * 1000000 + low ≡ code = omega arith in
    let back : code_left (pos left) ≡ pos (code / 1000000) =
      ap code_left (sym e) ∙ left_lem (code / 1000000) (omega arith) in
    (left * 1000000 + low, rw e, rw (high, rest, back, whole))

-- For every address of 32 bits, `RQAddr` from the socket address made of it is the address again.
pub from_socket_addr-to_socket_addr :
    (addr : RqAddr) → addr.ip < 2 ^ 32 → from_socket_addr (to_socket_addr addr) ≡ ok addr
unfolding from_socket_addr to_socket_addr
from_socket_addr-to_socket_addr addr h =
    ap (λ i. ok (record { ip = i; port = addr.port })) (omega arith)
