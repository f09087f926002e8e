-- ===== src/Protobuf/Message/Refusals.antt =====
-- Errors of `read_message` of protobuf.hpp: a tag with the number 0 or with one that no field has, and an
-- error of a nested message, which the outer reader places in its own input.
use Prim.Native.String.{String}
use contract.Prelude.{
  ℕ, zero, suc, ◌+◌, ◌-◌, ◌*◌, ◌%◌, ◌^◌, ◌<◌, ◌≡◌, refl, ap, suc-==-zero, ◌∙◌, Option, none, some,
  List, ◌++◌, arith, length, length-append, word,
}
use contract.Error.{
  FieldInfo, from, empty_field, set_field, keep_first, set_type_name, set_code, set_stage,
  set_offset, position_correction, transfer_from,
}
use contract.Io.Window.{input_position}
use contract.Protobuf.Codes.{
  WireType, wire_of, wire_value, ReadErrorCode, ReadStage, new_error, coded_error, staged_error,
  fielded_error, set_field_number, set_wire,
}
use contract.Protobuf.Varint.{varint_bytes, length-varint_bytes}
use contract.Protobuf.Reader.{
  Outcome, ReadError, read_fails, current_read_error, next_read, read_tag, read_view, ◌>>=◌,
}
use contract.Protobuf.Scalar.{value_error, described_read}
use contract.Protobuf.Steps.{at, tag_bytes, Reads-tag, Reads-varint, Reads-view, Reads-describing}
use contract.Protobuf.Codec.{read_expected}
use contract.Protobuf.Message.{
  Field, key_error, typed_error, zero_error, unknown_error, find_field, read_found, read_numbered,
  read_round, read_rounds, read_message, nested_outcome, read_nested, read_message_field,
  corrected_error, transferred_error,
}
use contract.Protobuf.Message.Fields.{
  Entry, message_bytes, EntriesFit, message-rounds, rounds-more, stored,
}

-- The error of a tag: with the number 0, or with the number of no field.
abbrev pub stray_error : String → ℕ → WireType → ℕ → ReadError
stray_error name number wire position = record {
  base = record {
    code = elim number [
      | zero ↦ ReadErrorCode.field_number_zero
      | suc n ↦ ReadErrorCode.unknown_field
    ];
    type_name = some name;
    field = none;
    stage = some ReadStage.field_key;
    offset = some position;
    element_index = none;
    element_total = none;
    expected_size = none;
    actual_size = none;
  };
  wire_field_number = elim number [ zero ↦ none | suc n ↦ some (suc n) ];
  wire = some wire;
  expected_wire = none;
}

-- The error of a nested message, whose reader began at this position of the outer one.
abbrev pub located : ℕ → FieldInfo → ℕ → ReadError → ReadError
located start info offset e = record {
  base = record e.base {
    field = elim e.base.field [ none ↦ some (from empty_field info) | some f ↦ some (from f info) ];
    offset = some ((offset + start) % word);
  };
  wire_field_number = e.wire_field_number;
  wire = some WireType.length_delimited;
  expected_wire = e.expected_wire;
}

module _ {O : Type 0} where
  abbrev pub IsStray : List (Field O) → ℕ → Type 1
  IsStray fs zero = Unit
  IsStray fs (suc n) = find_field fs (suc n) ≡ none

  module _ (name : String) (fs : List (Field O)) where
    numbered-stray :
        (number consumed : ℕ) (wire : WireType) (o : O) (more : List ℕ)
        → IsStray fs number
        → read_numbered name fs o (number, wire) (at none consumed more)
          ≡ (at (some (stray_error name number wire consumed)) consumed more, Outcome.error)
    unfolding read_numbered read_found read_fails current_read_error new_error input_position
        zero_error unknown_error key_error typed_error coded_error staged_error set_field_number
        set_wire set_type_name set_code set_stage set_offset keep_first
    numbered-stray zero consumed wire o more stray = refl
    numbered-stray (suc n) consumed wire o more missing = rw (suc-==-zero, missing) refl

    round-stray :
        (number n consumed : ℕ) (o : O) (more : List ℕ)
        → IsStray fs number
        → number < 2 ^ 32
        → n < 8
        → let position = consumed + length (tag_bytes number n) in
          read_round name fs o (at none consumed (tag_bytes number n ++ more))
          ≡ (at (some (stray_error name number (wire_of n) position)) position more, Outcome.error)
    unfolding read_round
    round-stray number n consumed o more stray h small =
        let tag = tag_bytes number n in
        ap (next_read (read_numbered name fs o)) (
          Reads-describing (key_error name) read_tag tag (number, wire_of n)
            (Reads-tag number n h small) none consumed more)
        ∙ numbered-stray number (consumed + length tag) (wire_of n) o more stray

    -- A message that begins with fields of it, behind which stands a tag with the number 0 or with a number
    -- that no field of it has, is refused there, whatever follows: the fields are read and the tag is
    -- taken, and the error is field_number_zero or unknown_field with the name of the type, the stage
    -- field_key, the wire type, the number that is unknown and the position behind the tag.
    pub stray-refused :
        (es : List (Entry O)) (number n consumed : ℕ) (o : O) (failure : Option ReadError)
        (more : List ℕ)
        → EntriesFit fs es
        → IsStray fs number
        → number < 2 ^ 32
        → n < 8
        → let position = consumed + length (message_bytes es) + length (tag_bytes number n) in
          read_message name fs o
            (at failure consumed (message_bytes es ++ (tag_bytes number n ++ more)))
          ≡ (at (some (stray_error name number (wire_of n) position)) position more, Outcome.error)
    stray-refused es number n consumed o failure more fits stray h small =
        let tag = tag_bytes number n in
        let (spare, enough, e) = message-rounds name fs es o failure consumed (tag ++ more) fits in
        let start = consumed + length (message_bytes es) in
        let some_left : 0 < length (tag ++ more) =
          omega (arith, length-append tag more, (length-varint_bytes 9 (number * 8 + n)).0) in
        let p = stored es o in
        e
        ∙ rounds-more name fs spare p none start (tag ++ more) some_left
        ∙ ap (next_read (read_rounds name fs spare))
            (round-stray number n start p more stray h small)

    failed-nested :
        (info : FieldInfo) (consumed rest_at offset : ℕ) (bytes more rest : List ℕ) (o : O)
        (e : ReadError)
        → read_message name fs o (at none 0 bytes) ≡ (at (some e) rest_at rest, Outcome.error)
        → e.base.offset ≡ some offset
        → described_read
            (value_error info (wire_of 2))
            (read_nested name fs o bytes (at none (consumed + length bytes) more))
          ≡ (
            at (some (located consumed info offset e)) (consumed + length bytes) more,
            Outcome.error,
          )
    unfolding value_error fielded_error set_field set_wire wire_of read_nested nested_outcome
        read_fails current_read_error input_position corrected_error transferred_error
        position_correction transfer_from
    failed-nested info consumed rest_at offset bytes more rest o e fails placed =
        let start : consumed + length bytes - length bytes ≡ consumed = omega arith in
        rw (fails, placed, start) refl

    -- A field with a nested message whose own reader fails somewhere in its bytes is refused with that
    -- error, whatever follows: the bytes of the message are taken, and the error has the code of the
    -- nested one and all of its context, with the offset counted from the start of the outer input
    -- instead of the nested one, with the field of the message filling in what the field of the nested error
    -- left open, and with the wire type length_delimited, whichever the nested error had.
    pub nested-located :
        (info : FieldInfo) (consumed rest_at offset : ℕ) (bytes more rest : List ℕ) (o : O)
        (e : ReadError)
        → length bytes < 2 ^ 64
        → read_message name fs o (at none 0 bytes) ≡ (at (some e) rest_at rest, Outcome.error)
        → e.base.offset ≡ some offset
        → let start = consumed + length (varint_bytes 10 (length bytes)) in
          read_message_field name fs info
            (wire_of 2)
            o
            (at none consumed (varint_bytes 10 (length bytes) ++ (bytes ++ more)))
          ≡ (at (some (located start info offset e)) (start + length bytes) more, Outcome.error)
    unfolding read_message_field read_expected wire_value wire_of
    nested-located info consumed rest_at offset bytes more rest o e small fails placed =
        let size = length bytes in
        let start = consumed + length (varint_bytes 10 size) in
        let nested = read_nested name fs o in
        ap
          (λ t.
            described_read (value_error info (wire_of 2))
              (next_read (λ n. read_view n >>= nested) t))
          (Reads-varint size small none consumed (bytes ++ more))
        ∙ ap (λ t. described_read (value_error info (wire_of 2)) (next_read nested t))
            (Reads-view size bytes refl none start more)
        ∙ failed-nested info start rest_at offset bytes more rest o e fails placed
