-- ===== src/Io.antt =====
-- include/contract/io: cursors over memory that the caller owns.
pub mod Byte
pub mod Window
