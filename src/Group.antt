-- ===== src/Group.antt =====
-- ricq-core/src/common.rs: the number of a group and the account that stands for it, and the
-- addresses of servers.
pub mod RoundTrip
use ricq.Base.{ℕ, ◌+◌, ◌*◌, ◌/◌, ◌%◌, ◌^◌, if◌then◌else◌}
use ricq.Base.Int.{ℤ, pos, negative, ◌+ℤ◌, ◌*ℤ◌, ◌/ℤ◌, ◌%ℤ◌, contains}
use ricq.Result.{Result, ok, panic}

pub uin_left : ℤ → ℤ
uin_left left =
    if contains 0 10 left
    then left +ℤ pos 202
    else if contains 11 19 left
    then left +ℤ pos 469
    else if contains 20 66 left
    then left +ℤ pos 2080
    else if contains 67 156 left
    then left +ℤ pos 1943
    else if contains 157 209 left
    then left +ℤ pos 1990
    else if contains 210 309 left
    then left +ℤ pos 3890
    else if contains 310 335 left
    then left +ℤ pos 3490
    else if contains 336 386 left
    then left +ℤ pos 2265
    else if contains 387 499 left
    then left +ℤ pos 3490
    else left

pub group_code2uin : ℤ → ℤ
group_code2uin code = uin_left (code /ℤ 1000000) *ℤ 1000000 +ℤ code %ℤ 1000000

pub code_left : ℤ → ℤ
code_left left =
    if contains 202 212 left
    then left +ℤ negative 202
    else if contains 480 488 left
    then left +ℤ negative 469
    else if contains 2100 2146 left
    then left +ℤ negative 2080
    else if contains 2010 2099 left
    then left +ℤ negative 1943
    else if contains 2147 2199 left
    then left +ℤ negative 1990
    else if contains 2600 2651 left
    then left +ℤ negative 2265
    else if contains 3800 3989 left
    then left +ℤ negative 3490
    else if contains 4100 4199 left
    then left +ℤ negative 3890
    else left

pub group_uin2code : ℤ → ℤ
group_uin2code uin = code_left (uin /ℤ 1000000) *ℤ 1000000 +ℤ uin %ℤ 1000000

-- An address and a port; the number holds the first byte of the address lowest.
pub record RqAddr : Type 0 where
  pub ip : ℕ
  pub port : ℕ

-- `SocketAddr`: four octets, or an address of the other kind.
pub data SocketAddr : Type 0 where
  v4 : ℕ → ℕ → ℕ → ℕ → ℕ → SocketAddr
  v6 : SocketAddr

-- `to_be_bytes` and `reverse`
pub to_socket_addr : RqAddr → SocketAddr
to_socket_addr addr =
    v4 (addr.ip % 2 ^ 8) (addr.ip / 2 ^ 8 % 2 ^ 8) (addr.ip / 2 ^ 16 % 2 ^ 8)
      (addr.ip / 2 ^ 24 % 2 ^ 8) addr.port

-- `from_le_bytes`
pub from_socket_addr : SocketAddr → Result RqAddr
from_socket_addr (v4 a b c d port) =
    ok (record { ip = a + b * 2 ^ 8 + c * 2 ^ 16 + d * 2 ^ 24; port = port })
from_socket_addr v6 = panic
