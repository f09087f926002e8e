-- ===== src/Protobuf/Codec/Text.antt =====
-- The codecs of protobuf.hpp for `std::string`, `std::string_view` and `const char*`, which is only
-- written: the number of bytes as a varint, and the bytes.
use mathlib.Core.List.{append-nil}
use contract.Prelude.{
  ℕ, ◌^◌, ◌%◌, ◌<◌, refl, Option, none, some, List, [], ◌∷◌, ◌++◌, arith, ◌==◌, suc-==-zero,
  if◌then◌else◌, length,
}
use contract.Error.{FieldInfo}
use contract.Protobuf.Codes.{WireType, wire_of, ReadStage, staged_error}
use contract.Protobuf.Varint.{varint_bytes}
use contract.Protobuf.Writer.{Writer, Status, write_tag, write_varint, write_bytes}
use contract.Protobuf.Reader.{ReadM, ReadError, ◌>>=◌, read_varint, read_view}
use contract.Protobuf.Scalar.{value_error}
use contract.Protobuf.Steps.{
  Writes, Writes-ok, Writes-then, Writes-bytes, Writes-varint, Reads, Reads-bind, Reads-describing,
  Reads-varint, Reads-view, tag_bytes,
}
use contract.Protobuf.Codec.{Codec, ◌⟫◌, write_ok, describing_read, read_expected}
use contract.Protobuf.Codec.Laws.{IsCodec, Writes-tag_then, Reads-expected}

-- if (!value.empty()) { return out.write(value.data(), value.size()); }
unfoldable pub write_text : List ℕ → Writer → Writer × Status
write_text value = if length value == 0 then write_ok else write_bytes value

unfoldable pub write_string : List ℕ → Writer → Writer × Status
write_string value = write_varint (length value) ⟫ write_text value

unfoldable pub write_string_field : FieldInfo → List ℕ → Writer → Writer × Status
write_string_field info value =
    write_tag (info.id % 2 ^ 32) WireType.length_delimited ⟫ write_string value

-- A string and a view are the bytes that they hold and show.
unfoldable pub read_string : ReadM (List ℕ)
read_string = describing_read (staged_error ReadStage.length) read_varint >>= λ size.
    describing_read (staged_error ReadStage.field_value) (read_view size)

unfoldable pub read_string_field : FieldInfo → WireType → ReadM (List ℕ)
read_string_field info wire =
    read_expected WireType.length_delimited info wire (value_error info wire) read_string

-- Every error of `read` has a stage by now.
unfoldable pub view_error : FieldInfo → WireType → ReadError → ReadError
view_error info wire e = staged_error ReadStage.length (value_error info wire e)

unfoldable pub read_view_field : FieldInfo → WireType → ReadM (List ℕ)
read_view_field info wire =
    read_expected WireType.length_delimited info wire (view_error info wire) read_string

unfoldable pub string_codec : Codec (List ℕ)
string_codec = record {
  write = write_string;
  write_with = write_string_field;
  read = λ old. read_string;
  read_with = λ info wire old. read_string_field info wire;
  initial = [];
}

unfoldable pub string_view_codec : Codec (List ℕ)
string_view_codec = record {
  write = write_string;
  write_with = write_string_field;
  read = λ old. read_string;
  read_with = λ info wire old. read_view_field info wire;
  initial = [];
}

-- `std::char_traits<char>::length`: the bytes before the first 0
unfoldable pub c_string : List ℕ → List ℕ
c_string [] = []
c_string (b ∷ bytes) = let rest = c_string bytes in if b == 0 then [] else (b ∷ rest)

-- The memory that the pointer points at, or none for a null pointer.
unfoldable pub write_c_string : Option (List ℕ) → Writer → Writer × Status
write_c_string none = write_varint 0
write_c_string (some memory) =
    write_varint (length (c_string memory)) ⟫ write_text (c_string memory)

unfoldable pub write_c_string_field : FieldInfo → Option (List ℕ) → Writer → Writer × Status
write_c_string_field info value =
    write_tag (info.id % 2 ^ 32) WireType.length_delimited ⟫ write_c_string value

abbrev pub text_bytes : List ℕ → List ℕ
text_bytes value = varint_bytes 10 (length value) ++ value

abbrev pub FitsText : List ℕ → Type 0
FitsText value = length value < 2 ^ 64

Writes-text : (value : List ℕ) → Writes (write_text value) value
unfolding write_text
Writes-text [] = Writes-ok
Writes-text (b ∷ value) = rw suc-==-zero (Writes-bytes (b ∷ value))

Writes-string : (value : List ℕ) → FitsText value → Writes (write_string value) (text_bytes value)
unfolding write_string
Writes-string value h =
    Writes-then (write_varint (length value)) (write_text value) (varint_bytes 10 (length value))
      value (Writes-varint (length value) h) (Writes-text value)

Writes-string_field :
    (info : FieldInfo) (value : List ℕ)
    → info.id < 2 ^ 32
    → FitsText value
    → Writes (write_string_field info value) (tag_bytes info.id 2 ++ text_bytes value)
unfolding write_string_field wire_of
Writes-string_field info value h fit =
    Writes-tag_then info.id 2 (write_string value) (text_bytes value) h (omega arith)
      (Writes-string value fit)

Reads-string : (value : List ℕ) → FitsText value → Reads read_string (text_bytes value) value
unfolding read_string
Reads-string value h =
    let size = length value in
    let m = describing_read (staged_error ReadStage.length) read_varint in
    Reads-bind m (λ n. describing_read (staged_error ReadStage.field_value) (read_view n))
      (varint_bytes 10 size) value size value
      (Reads-describing (staged_error ReadStage.length) read_varint (varint_bytes 10 size) size
        (Reads-varint size h))
      (Reads-describing (staged_error ReadStage.field_value) (read_view size) value value
        (Reads-view size value refl))

pub string-IsCodec : IsCodec string_codec 2 text_bytes text_bytes FitsText
unfolding string_codec read_string_field wire_of
string-IsCodec = record {
  small = omega arith;
  writes = Writes-string;
  writes_with = Writes-string_field;
  reads_with = λ info value old h.
      Reads-expected 2 info (value_error info WireType.length_delimited) read_string
        (text_bytes value) value (Reads-string value h);
}

pub string_view-IsCodec_by_tag : IsCodec string_view_codec 2 text_bytes text_bytes FitsText
unfolding string_view_codec read_view_field wire_of
string_view-IsCodec_by_tag = record {
  small = omega arith;
  writes = Writes-string;
  writes_with = Writes-string_field;
  reads_with = λ info value old h.
      Reads-expected 2 info (view_error info WireType.length_delimited) read_string
        (text_bytes value) value (Reads-string value h);
}

-- The bytes that a pointer shows: those before the first 0, and none for a null pointer.
abbrev pub shown : Option (List ℕ) → List ℕ
shown none = []
shown (some memory) = c_string memory

-- A field that is a `const char*` is stored, or measured, as the field with the same number that is the
-- std::string of the bytes before the first 0, and a null pointer as the empty string.
pub c_string-as_string :
    (info : FieldInfo) (value : Option (List ℕ))
    → info.id < 2 ^ 32
    → FitsText (shown value)
    → Writes (write_c_string_field info value) (tag_bytes info.id 2 ++ text_bytes (shown value))
      × Writes
          (write_string_field info (shown value))
          (tag_bytes info.id 2 ++ text_bytes (shown value))
unfolding write_c_string_field write_c_string write_string wire_of
c_string-as_string info value h fit = (
  Writes-tag_then info.id 2 (write_c_string value) (text_bytes (shown value)) h (omega arith)
      (Writes-c_string value fit),
  Writes-string_field info (shown value) h fit,
)
  where
    Writes-c_string :
        (value : Option (List ℕ))
        → FitsText (shown value)
        → Writes (write_c_string value) (text_bytes (shown value))
    Writes-c_string none fit = rw append-nil (Writes-varint 0 (omega arith))
    Writes-c_string (some memory) fit = Writes-string (c_string memory) fit
