-- ===== src/Crypto.antt =====
-- ricq-core/src/crypto: the block cipher, and its chaining with padding.
pub mod Tea
pub mod QqTea
