-- ===== src/Compact.antt =====
-- include/contract/adapters/compact.hpp and adapters/compact/*.hpp: the compact adapter, which puts a
-- header in front of each value and the number of a field in front of the field's value.
pub mod Codes
pub mod Headers
pub mod Writer
pub mod Reader
pub mod Steps
pub mod Wire
pub mod Count
pub mod Integers
pub mod Signed
pub mod Sizes
pub mod Skip
pub mod Codec
pub mod Object
pub mod Operators
