-- ===== src/Protobuf/Codec/Laws.antt =====
-- What a codec of the protobuf adapter promises for a field: it stores or counts a tag and the bytes of
-- the value, and where those bytes stand ahead it reads the value back. The scalar codecs keep it.
use native.Mathlib.Nat.{mod-eq_of_lt}
use contract.Prelude.{ℕ, ◌%◌, ◌+◌, length, ◌^◌, ◌<◌, ap, ◌∙◌, List, ◌++◌, arith, ==_refl}
use contract.Error.{FieldInfo}
use contract.Protobuf.Codes.{WireType, wire_of}
use contract.Protobuf.Varint.{varint_bytes}
use contract.Protobuf.Writer.{write_tag}
use contract.Protobuf.Reader.{ReadM, ReadError, done, pure, ◌>>=◌, read_varint}
use contract.Protobuf.Scalar.{
  Scalar, write_scalar, write_scalar_field, read_scalar, read_scalar_field, is_varint, value_error,
}
use contract.Protobuf.Integers.{Survives}
use contract.Protobuf.Steps.{
  Writes, Writes-then, Writes-varint, Writes-tag, tag_bytes, Reads, Reads-map, Reads-describing,
  Reads-varint, at,
}
use contract.Protobuf.Codec.{Codec, WriteStep, ◌⟫◌, read_expected, scalar_codec}

-- `framed` are the bytes behind the tag: those of the value, for a message with their number in front.
pub record IsCodec {A : Type 0} (c : Codec A) (wire : ℕ) (payload framed : A → List ℕ)
    (Fits : A → Type 0) : Type 0 where
  pub small : wire < 8
  pub writes : (a : A) → Fits a → Writes (c.write a) (payload a)
  pub writes_with :
      (info : FieldInfo) (a : A)
      → info.id < 2 ^ 32
      → Fits a
      → Writes (c.write_with info a) (tag_bytes info.id wire ++ framed a)
  pub reads_with :
      (info : FieldInfo) (a old : A)
      → Fits a
      → Reads (c.read_with info (wire_of wire) old) (framed a) a

-- The tag of a field with a number of 32 bits, and what follows it.
pub Writes-tag_then :
    (number n : ℕ) (k : WriteStep) (bytes : List ℕ)
    → number < 2 ^ 32
    → n < 8
    → Writes k bytes
    → Writes (write_tag (number % 2 ^ 32) (wire_of n) ⟫ k) (tag_bytes number n ++ bytes)
Writes-tag_then number n k bytes h small g = rw (mod-eq_of_lt h) (
    Writes-then (write_tag number (wire_of n)) k (tag_bytes number n) bytes
      (Writes-tag number n h small) g)

pub Reads-expected :
    {A : Type 0} (n : ℕ) (info : FieldInfo) (describe : ReadError → ReadError) (m : ReadM A)
    (bytes : List ℕ) (a : A)
    → Reads m bytes a
    → Reads (read_expected (wire_of n) info (wire_of n) describe m) bytes a
unfolding read_expected
Reads-expected n info describe m bytes a h = rw ==_refl (Reads-describing describe m bytes a h)

pub scalar-IsCodec :
    {A : Type 0} (c : Scalar A) (initial : A)
    → IsCodec
        (scalar_codec c initial)
        0
        (λ a. varint_bytes 10 (c.to_raw a))
        (λ a. varint_bytes 10 (c.to_raw a))
        (Survives c)
unfolding scalar_codec write_scalar write_scalar_field read_scalar read_scalar_field is_varint
    wire_of
scalar-IsCodec c initial = record {
  small = omega arith;
  writes = λ a (fit, back). Writes-varint (c.to_raw a) fit;
  writes_with = λ info a h (fit, back).
      Writes-tag_then info.id 0 (write_scalar c a) (varint_bytes 10 (c.to_raw a)) h (omega arith)
        (Writes-varint (c.to_raw a) fit);
  reads_with = λ info a old (fit, back) failure consumed more.
      let m = read_varint >>= λ raw. pure (c.of_raw raw) in
      Reads-describing (value_error info WireType.varint) m (varint_bytes 10 (c.to_raw a))
        (c.of_raw (c.to_raw a))
        (Reads-map read_varint c.of_raw (varint_bytes 10 (c.to_raw a)) (c.to_raw a)
          (Reads-varint (c.to_raw a) fit))
        failure consumed more
      ∙ ap (λ t. (at failure (consumed + length (varint_bytes 10 (c.to_raw a))) more, done t)) back;
}
