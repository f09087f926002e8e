-- ===== src/Lib.antt =====
-- CONTRACT, a header-only C++ library that reads and writes the fields of C++ objects through
-- adapters, each for one format. This development models the parts below; what it proves of them is
-- listed at the end.
--
-- The parts, with their files (paths from the repository's root) and the module that models each:
--
--   * Prelude: shared helpers. Native numbers stand for std::size_t, std::uint64_t and the other
--     unsigned types; a sum or a product that can wrap has its `% 2 ^ 64` written out.
--   * Io.Byte, Io.Window: include/contract/io/byte.hpp and io/byte_window.hpp, the cursors over
--     memory. A pointer pair is the list of the bytes it bounds, split where the cursor stands; a
--     view is the bytes that the returned pointer shows, and none the null pointer.
--   * Error: include/contract/detail/error.hpp, the context that an adapter's error gathers.
--   * Binary: include/contract/adapters/binary.hpp and adapters/binary/*.hpp. Binary.Stream has the
--     outputs and inputs that a writer and a reader are built over, with `encrypting_output` and
--     `decrypting_input`, whose key Binary.Cipher applies; Binary.Writer and Binary.Reader the
--     state of `writer` and `reader` and the raw operations; Binary.Codec the interface `codec<T>`
--     and one module for each codec; Binary.Object the fields, the objects and the stream
--     operators; Binary.Limits and Binary.Refusals the guards and the errors they leave. A method
--     takes the writer or the reader and returns it with its status, so the order of the effects is
--     the order of the source. The std::length_error of a container that is asked to be longer than
--     its `max_size()` is an outcome of its own.
--   * Protobuf: include/contract/adapters/protobuf.hpp. Protobuf.Varint has the loops of varints,
--     Protobuf.Reader and Protobuf.Writer the state of `reader` and `writer`; the writer stores
--     into a window or counts. Protobuf.Scalar has the codecs that are one varint, which differ in
--     their casts, Protobuf.Codec the interface `codec<T>` with floating point, enumerators and
--     strings, Protobuf.Message the messages, with `read_message`, nested messages and
--     `dispatch_field_by_id` of include/contract/visit.hpp, and Protobuf.Operators the stream
--     operators. Protobuf.Codec.Laws says what a codec promises for a field.
--   * Base: include/contract/adapters/base.hpp, the zeros at the end of a buffer.
--   * Compact: include/contract/adapters/compact.hpp and adapters/compact/*.hpp. Compact.Headers
--     has the header bytes, Compact.Writer and Compact.Reader the state of `writer` and `reader`
--     over windows and the operations on integers, sizes and floating-point numbers, Compact.Skip
--     `skip_reader`. Compact.Wire says what a value of the format is and which bytes it has
--     (`encode`); it is the specification that the writer, the reader and the codecs are held
--     against. Compact.Codec has the interface `codec<T>` and one module for each codec,
--     Compact.Object the objects, with `dispatch_field_by_id` of include/contract/visit.hpp, and
--     Compact.Operators the stream operators.
--   * Tests: concrete runs, where the theorems are applied.
--
-- A codec is a record of its write, its read and its default value, and Binary.Codec.Laws says what
-- it promises: with room in the sink a fitting value is stored as certain bytes, and where those
-- bytes stand ahead the value is read back. A container's theorem takes the promise of its
-- elements, so codecs nest as the templates do.
--
-- Bounds: loops are structural on the list or the number of elements that are left, so no fuel is
-- used, but for the loops of protobuf.hpp: a varint is made with fuel 10, since a number of 64 bits
-- has at most 10 digits of 7 bits, and the window loop with the number of bytes, of which each
-- round takes one at least, the loop of `read_message` with one round more than there are bytes,
-- which Protobuf.Message.Terminates shows to be enough, and for those of compact.hpp: the bytes of
-- an integer are counted with fuel 8, a number of bytes is skipped with one round more than the
-- number, and `skip_value` nests with fuel one more than the bytes ahead, which
-- Compact.Skip.Terminates shows to be enough. The outcome `out_of_fuel` stands for a loop that ran
-- out. Scalars are stored in the little-endian order of the host.
--
-- Not modelled: what a failed read leaves in its destination, since the stream operator throws; the
-- source location and the text of an error's message; the std::bad_alloc of a container that finds
-- no memory; undefined behaviour (a cursor moved past its range, a byte other than 0 and 1 copied
-- to a bool); the compile-time selection of codecs and attributes, where a descriptor is instead a
-- record of the limits that the codecs read; the codecs of unordered_map, span and bitset; the
-- containers of the protobuf adapter and the options, which only they look at; the text and logging
-- adapters.
pub mod Prelude
pub mod Io
pub mod Error
pub mod Base
pub mod Binary
pub mod Protobuf
pub mod Compact
pub mod Tests
