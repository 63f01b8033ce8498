-- ===== src/Runs.antt =====
-- Runs of the model: its theorems at concrete inputs, with big-endian integers on the wire.
mod Crypto
mod Binary
mod Codec
mod Login
mod Transport
mod Response
mod Client
mod Message
mod Notices
mod Lists
mod Elements
mod Pushes
mod Uploads
mod Logins
mod Parts
