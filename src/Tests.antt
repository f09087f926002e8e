-- ===== src/Tests.antt =====
-- Concrete runs of the binary adapter, the protobuf wire layer and their parts:
-- include/contract/adapters/binary.hpp with binary/*.hpp, adapters/protobuf.hpp, include/contract/io.
pub mod Accounts
pub mod Codecs
pub mod Refusals
pub mod Parts
pub mod Wire
pub mod WireFields
pub mod Messages
pub mod Compact
