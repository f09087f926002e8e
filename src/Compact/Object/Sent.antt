-- ===== src/Compact/Object/Sent.antt =====
-- `operator<<` and `operator>>` of compact.hpp on objects: what is received of what was sent, and what is
-- thrown where no byte is free and where none is left.
use Prim.Native.String.{String}
use contract.Prelude.{
  ℕ, ◌^◌, ◌≤◌, ◌<◌, ◌≡◌, refl, ap, ◌∙◌, Bool-cases, inl, inr, Option, none, some, List, [], ◌++◌,
  leb, length, ◌+◌,
}
use contract.Error.{
  AdapterError, set_type_name, set_code, set_stage, set_sizes, set_offset, keep_first,
}
use contract.Io.Window.{WindowOutput, prepare, peek, output_position, input_position}
use contract.Compact.Codes.{
  ValueKind, ReadErrorCode, WriteErrorCode, ReadStage, WriteStage, coded_error, sized_error,
}
use contract.Compact.Headers.{size_base, sized_inline_max, sized_extended}
use contract.Compact.Writer.{
  Status, WriteError, next_write, write_window, write, write_byte, write_uint, write_size_header,
  write_fails, current_write_error, described_write, describing_write,
}
use contract.Compact.Reader.{
  Outcome, ReadError, read_byte, peek_byte, byte_of_view, read_size_header, read_fails,
  current_read_error,
}
use contract.Compact.Wire.{object as object_value, encode}
use contract.Compact.Steps.{over, at}
use contract.Compact.Object.{Field, type_error, write_fields, write_object, read_object, object}
use contract.Compact.Object.Members.{LawfulField, fields, members_of, stored}
use contract.Compact.Object.Laws.{entries, FieldsFit, Numbered, object-IsCodec_by_id}
use contract.Compact.Operators.{
  writer_over, reader_over, shift_out, shift_in, thrown_write, thrown_read, Received,
  shift_out-stores, shift_in-finds,
}

abbrev pub full : List ℕ → WindowOutput
full written = record { written = written; free = [] }

-- The error of an object whose first byte finds no room, or is missing: 1 byte is expected and 0 are there.
abbrev pub first_byte_error :
    {Code Stage : Type 0} → Code → Stage → String → ℕ → AdapterError Code Stage
first_byte_error code stage name position = record {
  code = code;
  type_name = some name;
  field = none;
  stage = some stage;
  offset = some position;
  element_index = none;
  element_total = none;
  expected_size = some 1;
  actual_size = some 0;
}

abbrev pub no_room : String → ℕ → WriteError
no_room name position =
    first_byte_error WriteErrorCode.output_error WriteStage.raw_bytes name position

abbrev pub nothing_left : String → ℕ → ReadError
nothing_left name position = first_byte_error ReadErrorCode.truncated ReadStage.header name position

-- The error before the object names its type.
abbrev byte_error : ℕ → WriteError
byte_error position = record (no_room "" position) { type_name = none }

byte-refused :
    (b : ℕ) (written : List ℕ)
    → write_byte b (over none (full written))
      ≡ (over (some (byte_error (length written))) (full written), Status.error)
unfolding write_byte write write_window prepare write_fails current_write_error output_position
    sized_error coded_error set_code set_stage set_sizes set_offset keep_first
byte-refused b written = refl

header-refused :
    (size : ℕ) (written : List ℕ)
    → write_size_header ValueKind.object size (over none (full written))
      ≡ (over (some (byte_error (length written))) (full written), Status.error)
unfolding write_size_header size_base
header-refused size written = elim (Bool-cases (leb size sized_inline_max)) [
  | inl inline ↦ rw inline (byte-refused (0xa0 + size) written)
  | inr extended ↦
      rw extended (ap (next_write (write_uint size)) (byte-refused (0xa0 + sized_extended) written))
]

module _ {O : Type 0} (name : String) where
  write-refused :
      (fs : List (Field O)) (o : O) (written : List ℕ)
      → write_object name fs o (over none (full written))
        ≡ (over (some (no_room name (length written))) (full written), Status.error)
  unfolding write_object
  write-refused fs o written =
      ap
        (λ p.
          next_write (describing_write (set_type_name name) (write_fields fs o))
            (described_write (type_error name WriteStage.object) p))
        (header-refused (length fs) written)
      ∙ (unfold type_error write_fails current_write_error set_type_name set_stage keep_first in
          refl)

  read-refused :
      (fs : List (Field O)) (o : O) (consumed : ℕ)
      → read_object name fs o (at none consumed [])
        ≡ (at (some (nothing_left name consumed)) consumed [], Outcome.error)
  unfolding read_object read_size_header read_byte peek_byte byte_of_view peek read_fails
      current_read_error input_position sized_error coded_error type_error set_type_name set_code
      set_stage set_sizes set_offset keep_first
  read-refused fs o consumed = refl

  out-refused :
      (fs : List (Field O)) (initial o : O) (written : List ℕ) (earlier : Option WriteError)
      → shift_out (object name fs initial) o (over earlier (full written)) ≡ (
        over (some (no_room name (length written))) (full written),
        some (no_room name (length written)),
      )
  unfolding shift_out object thrown_write
  out-refused fs initial o written earlier = ap thrown_write (write-refused fs o written)

  in-refused :
      (fs : List (Field O)) (initial old : O) (consumed : ℕ) (earlier : Option ReadError)
      → shift_in (object name fs initial) old (at earlier consumed []) ≡ (
        at (some (nothing_left name consumed)) consumed [],
        Received.failed (nothing_left name consumed),
      )
  unfolding shift_in object thrown_read
  in-refused fs initial old consumed earlier = ap thrown_read (read-refused fs old consumed)

  -- An object whose fields fit their codecs, which keep their promise, are numbered and make up the object,
  -- is stored by `operator<<` in memory with room for it, as the bytes that the format has for its
  -- members, without an exception, and `operator>>` of a reader over the bytes stored, whatever follows
  -- them and whatever the destination held, gives it back without an exception, with just those bytes
  -- consumed. Where no byte is free, `operator<<` throws output_error, and where none is left, `operator>>`
  -- throws truncated, with the type, the position, the stage, and as sizes 1 and 0; the writer and the
  -- reader keep the error and stay where they stood. An error of an earlier operation is cleared in
  -- each of the four cases and leaves nothing.
  pub object-sent_received :
      (ls : List (LawfulField O)) (initial o old : O) (free more written : List ℕ) (consumed : ℕ)
      (earlier_write : Option WriteError) (earlier_read : Option ReadError)
      → Numbered (fields ls) ls
      → ((o p : O) → stored (entries ls) o p ≡ o)
      → length ls < 2 ^ 64
      → FieldsFit ls o
      → length (encode (object_value (members_of (entries ls) o))) ≤ length free
      → let c = object name (fields ls) initial in
        let (w, thrown) = shift_out c o (record (writer_over free) { failure = earlier_write }) in
        ((thrown ≡ none)
          × (w.failure ≡ none)
          × (w.out.written ≡ encode (object_value (members_of (entries ls) o)))
          × (shift_in c old
                (record (reader_over (w.out.written ++ more)) { failure = earlier_read })
              ≡ (at none (length w.out.written) more, Received.value o)))
        × (shift_out c o (over earlier_write (full written)) ≡ (
          over (some (no_room name (length written))) (full written),
          some (no_room name (length written)),
        ))
        × (shift_in c old (at earlier_read consumed []) ≡ (
          at (some (nothing_left name consumed)) consumed [],
          Received.failed (nothing_left name consumed),
        ))
  object-sent_received ls initial o old free more written consumed earlier_write earlier_read
        numbered whole small fits room =
      let c = object name (fields ls) initial in
      let value_of = λ (o : O). object_value (members_of (entries ls) o) in
      let law = object-IsCodec_by_id name ls initial numbered whole small in
      let (quiet, clear, bytes) =
        shift_out-stores c value_of (λ d o. FieldsFit ls o) law o free earlier_write fits room in
      let (w, thrown) = shift_out c o (record (writer_over free) { failure = earlier_write }) in
      (
        (
          quiet,
          clear,
          bytes,
          shift_in-finds c value_of (λ d o. FieldsFit ls o) law o old w.out.written more
              earlier_read fits bytes,
        ),
        out-refused (fields ls) initial o written earlier_write,
        in-refused (fields ls) initial old consumed earlier_read,
      )
