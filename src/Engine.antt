-- ===== src/Engine.antt =====
-- ricq-core/src/lib.rs: the engine's counters, and the token that saves a login. A counter is the bit
-- pattern of its integer, and counting returns the value before.
pub mod Token
pub mod Login
pub mod LoginKept
use ricq.Base.{ℕ, ◌+◌, ◌%◌, ◌^◌}
use ricq.Base.Int.{ℤ}
use ricq.Protocol.Transport.{Transport}

pub record Engine : Type 0 where
  pub uin : ℤ
  pub transport : Transport
  pub seq_id : ℕ
  pub request_packet_request_id : ℕ
  pub group_seq : ℕ
  pub friend_seq : ℕ
  pub group_data_trans_seq : ℕ
  pub highway_apply_up_seq : ℕ

unfoldable pub next_seq : Engine → ℕ × Engine
next_seq e = (e.seq_id, record e { seq_id = (e.seq_id + 1) % 2 ^ 16 })

unfoldable pub next_packet_seq : Engine → ℕ × Engine
next_packet_seq e = (
  e.request_packet_request_id,
  record e { request_packet_request_id = (e.request_packet_request_id + 2) % 2 ^ 32 },
)

unfoldable pub next_group_seq : Engine → ℕ × Engine
next_group_seq e = (e.group_seq, record e { group_seq = (e.group_seq + 2) % 2 ^ 32 })

unfoldable pub next_friend_seq : Engine → ℕ × Engine
next_friend_seq e = (e.friend_seq, record e { friend_seq = (e.friend_seq + 2) % 2 ^ 32 })

unfoldable pub next_group_data_trans_seq : Engine → ℕ × Engine
next_group_data_trans_seq e = (
  e.group_data_trans_seq,
  record e { group_data_trans_seq = (e.group_data_trans_seq + 2) % 2 ^ 32 },
)

unfoldable pub next_highway_apply_seq : Engine → ℕ × Engine
next_highway_apply_seq e = (
  e.highway_apply_up_seq,
  record e { highway_apply_up_seq = (e.highway_apply_up_seq + 2) % 2 ^ 32 },
)
