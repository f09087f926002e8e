-- ===== src/Protobuf/Codec.antt =====
-- `codec<T>` of protobuf.hpp: its write and its read, alone or as a field with a tag, and the check of the
-- wire type that every read of a field begins with.
pub mod Laws
pub mod Floats
pub mod Text
use contract.Prelude.{◌==◌, if◌then◌else◌}
use contract.Error.{FieldInfo}
use contract.Protobuf.Codes.{WireType, wire_value}
use contract.Protobuf.Writer.{Writer, Status, ok, WriteError, described_write}
use contract.Protobuf.Reader.{ReadM, ReadError, read_fails}
use contract.Protobuf.Scalar.{
  Scalar, write_scalar, write_scalar_field, read_scalar, read_scalar_field, next_write,
  described_read, mismatch_error,
}

-- `write_with` and `read_with` are the overloads with a field. The last argument of a read is what the
-- destination holds when it begins, and `initial` is `T{}`.
pub record Codec (A : Type 0) : Type 0 where
  pub write : A → Writer → Writer × Status
  pub write_with : FieldInfo → A → Writer → Writer × Status
  pub read : A → ReadM A
  pub read_with : FieldInfo → WireType → A → ReadM A
  pub initial : A

abbrev pub WriteStep : Type 0
WriteStep = Writer → Writer × Status

abbrev pub write_ok : WriteStep
write_ok w = (w, ok)

infixl 5 ◌⟫◌
abbrev pub ◌⟫◌ : WriteStep → WriteStep → WriteStep
◌⟫◌ m k w = next_write k (m w)

abbrev pub describing_write : (WriteError → WriteError) → WriteStep → WriteStep
describing_write describe m w = described_write describe (m w)

module _ {A : Type 0} where
  abbrev pub describing_read : (ReadError → ReadError) → ReadM A → ReadM A
  describing_read describe m r = described_read describe (m r)

  -- if (wire != expected) { return in.error().code(wire_type_mismatch)…; } and what follows
  unfoldable pub read_expected :
      WireType → FieldInfo → WireType → (ReadError → ReadError) → ReadM A → ReadM A
  read_expected expected info wire describe m r =
      if wire_value wire == wire_value expected
      then described_read describe (m r)
      else read_fails (mismatch_error expected info wire) r

-- The codecs of bool, the integers and the enumerators.
unfoldable pub scalar_codec : {A : Type 0} → Scalar A → A → Codec A
scalar_codec c initial = record {
  write = write_scalar c;
  write_with = write_scalar_field c;
  read = λ old. read_scalar c;
  read_with = λ info wire old. read_scalar_field c info wire;
  initial = initial;
}
