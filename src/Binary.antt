-- ===== src/Binary.antt =====
-- include/contract/adapters/binary.hpp and binary/*.hpp: the binary adapter.
pub mod Codes
pub mod Cipher
pub mod Stream
pub mod Writer
pub mod Reader
pub mod Codec
pub mod Object
pub mod Limits
pub mod Refusals
