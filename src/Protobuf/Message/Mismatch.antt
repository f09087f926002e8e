-- ===== src/Protobuf/Message/Mismatch.antt =====
-- A field of protobuf.hpp that is one varint and whose tag has another wire type, in a message.
use Prim.Native.String.{String}
use contract.Prelude.{
  ℕ, zero, suc, ℤ, ◌+◌, ◌*◌, ◌<◌, ◌≡◌, refl, ap, ◌∙◌, true, false, Option, none, some, List, ◌++◌,
  arith, ◌==◌, length, length-append,
}
use contract.Error.{FieldInfo, from, empty_field, set_type_name, keep_first}
use contract.Protobuf.Codes.{WireType, wire_of, ReadErrorCode}
use contract.Protobuf.Varint.{length-varint_bytes}
use contract.Protobuf.Reader.{
  Outcome, ReadError, read_fails, current_read_error, next_read, pure, read_tag,
}
use contract.Protobuf.Scalar.{Scalar, is_varint, described_read}
use contract.Protobuf.Fields.{mismatch-refused}
use contract.Protobuf.Steps.{at, tag_bytes, Reads-tag, Reads-describing}
use contract.Protobuf.Codec.{scalar_codec}
use contract.Protobuf.Message.{
  Field, key_error, typed_error, find_field, read_slot, read_field, read_found, read_numbered,
  read_round, read_rounds, read_message,
}
use contract.Protobuf.Message.Fields.{
  Entry, message_bytes, EntriesFit, HasNumber, number-bounds, message-rounds, rounds-more, stored,
}

not_varint : (n : ℕ) → 0 < n → n < 8 → is_varint (wire_of n) ≡ false
unfolding is_varint wire_of
not_varint zero pos small = absurd (omega arith)
not_varint (suc zero) pos small = refl
not_varint (suc (suc zero)) pos small = refl
not_varint (suc (suc (suc zero))) pos small = refl
not_varint (suc (suc (suc (suc zero)))) pos small = refl
not_varint (suc (suc (suc (suc (suc zero))))) pos small = refl
not_varint (suc (suc (suc (suc (suc (suc zero)))))) pos small = refl
not_varint (suc (suc (suc (suc (suc (suc (suc zero))))))) pos small = refl
not_varint (suc (suc (suc (suc (suc (suc (suc (suc n)))))))) pos small = absurd (omega arith)

-- A field with one varint that is read in place.
abbrev pub varint_field :
    {O A : Type 0} → Scalar A → A → FieldInfo → ℤ → (O → A) → (A → O → O) → Field O
varint_field {A = A} c initial info id get set = record {
  info = info;
  id = id;
  Value = A;
  get = get;
  set = set;
  direct = true;
  codec = scalar_codec c initial;
}

abbrev pub wrong_wire_error : String → FieldInfo → WireType → ℕ → ReadError
wrong_wire_error name info wire position = record {
  base = record {
    code = ReadErrorCode.wire_type_mismatch;
    type_name = some name;
    field = some (from empty_field info);
    stage = none;
    offset = some position;
    element_index = none;
    element_total = none;
    expected_size = none;
    actual_size = none;
  };
  wire_field_number = none;
  wire = some wire;
  expected_wire = some WireType.varint;
}

module _ {O A : Type 0} (name : String) (fs : List (Field O)) (c : Scalar A) (initial : A)
    (info : FieldInfo) (id : ℤ) (get : O → A) (set : A → O → O) where
  field-refused :
      (wire : WireType) (o : O) (consumed : ℕ) (more : List ℕ)
      → is_varint wire ≡ false
      → described_read
          (typed_error name)
          (read_field (varint_field c initial info id get set) wire o (at none consumed more))
        ≡ (at (some (wrong_wire_error name info wire consumed)) consumed more, Outcome.error)
  unfolding read_field read_slot scalar_codec
  field-refused wire o consumed more other =
      ap (λ t. described_read (typed_error name) (next_read (λ v. pure (set v o)) t))
        (mismatch-refused c info wire (at none consumed more) other refl)
      ∙ (unfold read_fails current_read_error typed_error set_type_name keep_first in refl)

  round-refused :
      (n consumed : ℕ) (o : O) (more : List ℕ)
      → HasNumber (varint_field c initial info id get set)
      → find_field fs info.id ≡ some (varint_field c initial info id get set)
      → 0 < n
      → n < 8
      → let position = consumed + length (tag_bytes info.id n) in
        read_round name fs o (at none consumed (tag_bytes info.id n ++ more))
        ≡ (at (some (wrong_wire_error name info (wire_of n) position)) position more, Outcome.error)
  unfolding read_round read_numbered read_found
  round-refused n consumed o more has_number found pos small =
      let f = varint_field c initial info id get set in
      let tag = tag_bytes info.id n in
      let (positive, below) = number-bounds f has_number in
      let some_number : (info.id == 0) ≡ false = ground arith in
      ap (next_read (read_numbered name fs o)) (
        Reads-describing (key_error name) read_tag tag (info.id, wire_of n)
          (Reads-tag info.id n below small) none consumed more)
      ∙ rw (some_number, found)
          (field-refused (wire_of n) o (consumed + length tag) more (not_varint n pos small))

  -- A message that begins with fields of it, behind which stands the tag of a field that is one varint
  -- and is read in place, with another of the wire types that 3 bits can give, is refused there, whatever
  -- follows: the fields are read and the tag is taken, nothing behind the tag is, and the error is
  -- wire_type_mismatch with the name of the type, the field, both wire types and the position behind
  -- the tag.
  pub wrong_wire-refused :
      (es : List (Entry O)) (n consumed : ℕ) (o : O) (failure : Option ReadError) (more : List ℕ)
      → EntriesFit fs es
      → HasNumber (varint_field c initial info id get set)
      → find_field fs info.id ≡ some (varint_field c initial info id get set)
      → 0 < n
      → n < 8
      → let position = consumed + length (message_bytes es) + length (tag_bytes info.id n) in
        read_message name fs o
          (at failure consumed (message_bytes es ++ (tag_bytes info.id n ++ more)))
        ≡ (at (some (wrong_wire_error name info (wire_of n) position)) position more, Outcome.error)
  wrong_wire-refused es n consumed o failure more fits has_number found pos small =
      let tag = tag_bytes info.id n in
      let (spare, enough, e) = message-rounds name fs es o failure consumed (tag ++ more) fits in
      let start = consumed + length (message_bytes es) in
      let some_left : 0 < length (tag ++ more) =
        omega (arith, length-append tag more, (length-varint_bytes 9 (info.id * 8 + n)).0) in
      e
      ∙ rounds-more name fs spare (stored es o) none start (tag ++ more) some_left
      ∙ ap (next_read (read_rounds name fs spare))
          (round-refused n start (stored es o) more has_number found pos small)
