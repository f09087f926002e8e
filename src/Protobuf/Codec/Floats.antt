-- ===== src/Protobuf/Codec/Floats.antt =====
-- The codecs of protobuf.hpp for `float` and `double`, which stand for the bits that memcpy moves, and for
-- the enumerators, which are moved as their underlying values.
use contract.Prelude.{
  ℕ, ◌^◌, ◌%◌, ◌+◌, length, ◌<◌, ◌≡◌, refl, ap, ◌∙◌, arith, to_bytes, length-to_bytes, of_bytes,
  of_bytes-to_bytes,
}
use contract.Error.{FieldInfo}
use contract.Protobuf.Codes.{WireType, wire_of, WriteStage, staged_error}
use contract.Protobuf.Writer.{Writer, Status, write_tag, write_bytes, write_fixed32, write_fixed64}
use contract.Protobuf.Reader.{ReadM, done, pure, ◌>>=◌, read_view, read_fixed32, read_fixed64}
use contract.Protobuf.Fixed.{low_bytes-eq-to_bytes}
use contract.Protobuf.Scalar.{Scalar, value_error}
use contract.Protobuf.Integers.{Survives}
use contract.Protobuf.Steps.{
  Writes, Writes-describing, Writes-bytes, Reads, Reads-map, Reads-view, at,
}
use contract.Protobuf.Codec.{Codec, ◌⟫◌, read_expected}
use contract.Protobuf.Codec.Laws.{IsCodec, Writes-tag_then, Reads-expected}

pub data Precision : Type 0 where
  float double : Precision

unfoldable pub fixed_wire : Precision → WireType
fixed_wire Precision.float = WireType.fixed32
fixed_wire Precision.double = WireType.fixed64

unfoldable pub write_float : Precision → ℕ → Writer → Writer × Status
write_float Precision.float bits = write_fixed32 bits
write_float Precision.double bits = write_fixed64 bits

unfoldable pub write_float_field : Precision → FieldInfo → ℕ → Writer → Writer × Status
write_float_field p info bits = write_tag (info.id % 2 ^ 32) (fixed_wire p) ⟫ write_float p bits

unfoldable pub read_float : Precision → ReadM ℕ
read_float Precision.float = read_fixed32
read_float Precision.double = read_fixed64

unfoldable pub read_float_field : Precision → FieldInfo → WireType → ReadM ℕ
read_float_field p info wire =
    read_expected (fixed_wire p) info wire (value_error info wire) (read_float p)

unfoldable pub float_codec : Precision → Codec ℕ
float_codec p = record {
  write = write_float p;
  write_with = write_float_field p;
  read = λ old. read_float p;
  read_with = λ info wire old. read_float_field p info wire;
  initial = 0;
}

-- An enumeration with a fixed underlying type has every value of that type.
pub record Enumerator (U : Type 0) : Type 0 where
  pub underlying : U

-- static_cast<underlying_type>(value), and static_cast<T>(raw)
unfoldable pub enum_scalar : {U : Type 0} → Scalar U → Scalar (Enumerator U)
enum_scalar c = record {
  to_raw = λ value. c.to_raw value.underlying;
  of_raw = λ raw. record { underlying = c.of_raw raw };
}

pub enum-Survives :
    {U : Type 0} (c : Scalar U) (value : Enumerator U)
    → Survives c value.underlying
    → Survives (enum_scalar c) value
unfolding enum_scalar
enum-Survives c value (fit, back) = (fit, ap (λ u. record { underlying = u }) back)

abbrev pub byte_size : Precision → ℕ
byte_size Precision.float = 4
byte_size Precision.double = 8

abbrev pub fixed_number : Precision → ℕ
fixed_number Precision.float = 5
fixed_number Precision.double = 1

Writes-float :
    (p : Precision) (bits : ℕ) → Writes (write_float p bits) (to_bytes (byte_size p) bits)
unfolding write_float write_fixed32 write_fixed64
Writes-float Precision.float bits = rw low_bytes-eq-to_bytes (
    Writes-describing (staged_error WriteStage.fixed32) (write_bytes (to_bytes 4 bits))
      (to_bytes 4 bits) (Writes-bytes (to_bytes 4 bits)))
Writes-float Precision.double bits = rw low_bytes-eq-to_bytes (
    Writes-describing (staged_error WriteStage.fixed64) (write_bytes (to_bytes 8 bits))
      (to_bytes 8 bits) (Writes-bytes (to_bytes 8 bits)))

Reads-fixed :
    (n v : ℕ)
    → v < 256 ^ n
    → Reads (read_view n >>= λ bytes. pure (of_bytes bytes)) (to_bytes n v) v
Reads-fixed n v h failure consumed more =
    Reads-map (read_view n) of_bytes (to_bytes n v) (to_bytes n v)
      (Reads-view n (to_bytes n v) (length-to_bytes n v)) failure consumed more
    ∙ ap (λ t. (at failure (consumed + length (to_bytes n v)) more, done t))
        (of_bytes-to_bytes n v h)

Reads-float :
    (p : Precision) (bits : ℕ)
    → bits < 256 ^ byte_size p
    → Reads (read_float p) (to_bytes (byte_size p) bits) bits
unfolding read_float read_fixed32 read_fixed64
Reads-float Precision.float bits h = Reads-fixed 4 bits h
Reads-float Precision.double bits h = Reads-fixed 8 bits h

fixed_wire-number :
    (p : Precision) → (fixed_wire p ≡ wire_of (fixed_number p)) × (fixed_number p < 8)
unfolding fixed_wire wire_of
fixed_wire-number Precision.float = (refl, omega arith)
fixed_wire-number Precision.double = (refl, omega arith)

pub float-IsCodec :
    (p : Precision)
    → IsCodec
        (float_codec p)
        (fixed_number p)
        (to_bytes (byte_size p))
        (to_bytes (byte_size p))
        (λ bits. bits < 256 ^ byte_size p)
unfolding float_codec write_float_field read_float_field
float-IsCodec p =
    let (same, small) = fixed_wire-number p in
    record {
      small = small;
      writes = λ bits h. Writes-float p bits;
      writes_with = λ info bits h fit. rw same (
          Writes-tag_then info.id (fixed_number p) (write_float p bits)
            (to_bytes (byte_size p) bits) h small (Writes-float p bits));
      reads_with = λ info bits old fit. rw same (
          Reads-expected (fixed_number p) info (value_error info (wire_of (fixed_number p)))
            (read_float p) (to_bytes (byte_size p) bits) bits (Reads-float p bits fit));
    }
