-- ===== src/Protobuf.antt =====
-- include/contract/adapters/protobuf.hpp: the wire layer of the protobuf adapter, with varints, tags,
-- fixed-size values over windows, and the codecs of bool and the integers.
pub mod Codes
pub mod Varint
pub mod Reader
pub mod Writer
pub mod Measure
pub mod RoundTrip
pub mod Sent
pub mod Unterminated
pub mod Scalar
pub mod Integers
pub mod Fields
pub mod Fixed
pub mod Overrun
pub mod Codec
pub mod Steps
pub mod Ends
pub mod Message
pub mod Operators
