-- ===== src/Client.antt =====
-- ricq/src/client: the tasks of a client that share its state, and what each of their steps does.
pub mod Promises
pub mod Network
pub mod Pushes
pub mod Reconnect
pub mod Heartbeat
pub mod Lists
pub mod Login
pub mod Parts
pub mod Seen
pub mod Sync
