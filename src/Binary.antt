-- ===== src/Binary.antt =====
-- ricq-core/src/binary: reading from and writing to byte buffers.
pub mod Reader
pub mod ReadWrite
pub mod Writer
