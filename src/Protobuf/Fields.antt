-- ===== src/Protobuf/Fields.antt =====
-- Fields of protobuf.hpp that are one varint: the tag and the value, from a writer over free memory to a
-- reader over what it stored, and the value that comes with another wire type.
use native.Mathlib.Nat.{mod-eq_of_lt}
use mathlib.Core.List.{append_assoc}
use contract.Prelude.{
  ℕ, ◌+◌, ◌*◌, ◌%◌, ◌^◌, ◌≤◌, ◌<◌, ◌≡◌, refl, ap, ◌∙◌, false, none, some, List, [], ◌++◌, arith,
  length, length-append, length-drop,
}
use contract.Error.{FieldInfo, from, empty_field, set_code, set_field, set_offset, keep_first}
use contract.Io.Window.{WindowOutput}
use contract.Protobuf.Codes.{
  WireType, wire_of, ReadErrorCode, WriteStage, staged_error, new_error, coded_error, fielded_error,
  set_wire, set_expected_wire,
}
use contract.Protobuf.Varint.{varint_bytes, length-varint_bytes}
use contract.Protobuf.Writer.{
  Writer, ok, window, write_varint, described_write, write_tag, tag_error,
}
use contract.Protobuf.Reader.{
  Reader, Outcome, done, ReadM, next_read, pure, ◌>>=◌, read_tag, parse_tag, read_fails,
  current_read_error,
}
use contract.Io.Window.Stored.{stored, input_of}
use contract.Protobuf.RoundTrip.{write_varint_payload-stored, read_varint-finds}
use contract.Protobuf.Sent.{key-value, parse_tag-key, writer_over, reader_over, target_bytes}
use contract.Protobuf.Scalar.{
  Scalar, write_scalar, write_scalar_field, read_scalar, read_scalar_field, next_write,
  described_read, value_error, mismatch_error, is_varint,
}
use contract.Protobuf.Integers.{Survives}

write_tag-stored :
    (field_number n : ℕ) (o : WindowOutput) (w : Writer)
    → n < 8
    → 10 ≤ length o.free
    → write_tag field_number (wire_of n) (record w { out = window o })
      ≡ (record w { out = window (stored o (varint_bytes 10 (field_number * 8 + n))) }, ok)
unfolding write_tag
write_tag-stored field_number n o w small room =
    let key = field_number * 8 + n in
    rw (key-value field_number n small) (
      ap (described_write (tag_error field_number (wire_of n)))
        (write_varint_payload-stored key o w (omega (arith, (length-varint_bytes 10 key).1))))

read_tag-finds :
    (field_number n consumed : ℕ) (more : List ℕ) (r : Reader)
    → field_number < 2 ^ 32
    → n < 8
    → read_tag
        (record r { input = input_of consumed (varint_bytes 10 (field_number * 8 + n) ++ more) })
      ≡ (
        record r {
          input = input_of (consumed + length (varint_bytes 10 (field_number * 8 + n))) more;
        },
        done (field_number, wire_of n),
      )
unfolding read_tag
read_tag-finds field_number n consumed more r h small =
    let key = field_number * 8 + n in
    ap (next_read (λ k. pure (parse_tag k))) (read_varint-finds key consumed more r (omega arith))
    ∙ ap
        (λ t.
          (record r { input = input_of (consumed + length (varint_bytes 10 key)) more }, done t))
        (parse_tag-key field_number n h small)

-- What a message reader does at a field: the tag, and then the value by the wire type of the tag.
abbrev pub read_tagged : {A : Type 0} → Scalar A → FieldInfo → ReadM (ℕ × A)
read_tagged c info =
    read_tag >>= λ tag. read_scalar_field c info tag.1 >>= λ value. pure (tag.0, value)

module _ {A : Type 0} (c : Scalar A) (info : FieldInfo) where
  write_scalar-stored :
      (v : A) (o : WindowOutput) (w : Writer)
      → 10 ≤ length o.free
      → write_scalar c v (record w { out = window o })
        ≡ (record w { out = window (stored o (varint_bytes 10 (c.to_raw v))) }, ok)
  unfolding write_scalar write_varint
  write_scalar-stored v o w room = ap (described_write (staged_error WriteStage.varint)) (
      write_varint_payload-stored (c.to_raw v) o w
        (omega (arith, (length-varint_bytes 10 (c.to_raw v)).1)))

  read_scalar_field-finds :
      (v : A) (consumed : ℕ) (more : List ℕ) (r : Reader)
      → Survives c v
      → read_scalar_field c info
          (wire_of 0)
          (record r { input = input_of consumed (varint_bytes 10 (c.to_raw v) ++ more) })
        ≡ (
          record r { input = input_of (consumed + length (varint_bytes 10 (c.to_raw v))) more },
          done v,
        )
  unfolding read_scalar_field read_scalar is_varint wire_of
  read_scalar_field-finds v consumed more r (fit, back) =
      ap
        (λ x.
          described_read (value_error info WireType.varint)
            (next_read (λ raw. pure (c.of_raw raw)) x))
        (read_varint-finds (c.to_raw v) consumed more r fit)
      ∙ ap
          (λ t. (
            record r { input = input_of (consumed + length (varint_bytes 10 (c.to_raw v))) more },
            done t,
          ))
          back

  -- The bytes of the field: its tag, and the value.
  abbrev tag_bytes : List ℕ
  tag_bytes = varint_bytes 10 (info.id * 8 + 0)

  abbrev value_bytes : A → List ℕ
  value_bytes v = varint_bytes 10 (c.to_raw v)

  abbrev nothing_written : List ℕ → WindowOutput
  nothing_written free = record { written = []; free = free }

  field-stored :
      (v : A) (free : List ℕ)
      → info.id < 2 ^ 32
      → 20 ≤ length free
      → write_scalar_field c info v (writer_over free) ≡ (
        record (writer_over free) {
          out = window (stored (stored (nothing_written free) tag_bytes) (value_bytes v));
        },
        ok,
      )
  unfolding write_scalar_field wire_of writer_over
  field-stored v free h room =
      let whole : info.id % 2 ^ 32 ≡ info.id = mod-eq_of_lt h in
      rw whole (
        ap (next_write (write_scalar c v)) (
          write_tag-stored info.id 0 (nothing_written free) (writer_over free) (omega arith)
            (omega arith))
        ∙ write_scalar-stored v (stored (nothing_written free) tag_bytes) (writer_over free) (
            omega (
              arith,
              length-drop (length tag_bytes) free,
              (length-varint_bytes 10 (info.id * 8 + 0)).1,
            )))

  field-found :
      (v : A) (consumed : ℕ) (more : List ℕ) (r : Reader)
      → info.id < 2 ^ 32
      → Survives c v
      → read_tagged c info
          (record r { input = input_of consumed (tag_bytes ++ (value_bytes v ++ more)) })
        ≡ (
          record r { input = input_of (consumed + length tag_bytes + length (value_bytes v)) more },
          done (info.id, v),
        )
  field-found v consumed more r h good =
      ap (next_read (λ tag. read_scalar_field c info tag.1 >>= λ value. pure (tag.0, value)))
        (read_tag-finds info.id 0 consumed (value_bytes v ++ more) r h (omega arith))
      ∙ ap (next_read (λ value. pure (info.id, value)))
          (read_scalar_field-finds v (consumed + length tag_bytes) more r good)

  -- A field with a number of 32 bits, whose value survives the casts to the wire, that is written to a
  -- window with 20 bytes free is stored without an error; a reader over the bytes stored, whatever
  -- follows them, finds the number in the tag and then the value, and has taken just those bytes.
  pub field-sent_received :
      (v : A) (free more : List ℕ)
      → info.id < 2 ^ 32
      → Survives c v
      → 20 ≤ length free
      → let (w, status) = write_scalar_field c info v (writer_over free) in
        (status ≡ ok)
        × (read_tagged c info (reader_over (target_bytes w.out ++ more)) ≡ (
          record (reader_over (target_bytes w.out ++ more)) {
            input = input_of (length (target_bytes w.out)) more;
          },
          done (info.id, v),
        ))
  unfolding reader_over
  field-sent_received v free more h good room =
      let joined = append_assoc tag_bytes (value_bytes v) more in
      rw (field-stored v free h room, joined)
        (
          refl,
          field-found v 0 more (reader_over (tag_bytes ++ (value_bytes v ++ more))) h good
              ∙ ap
                  (λ n. (
                    record (reader_over (tag_bytes ++ (value_bytes v ++ more))) {
                      input = input_of n more;
                    },
                    done (info.id, v),
                  ))
                  (omega (arith, length-append tag_bytes (value_bytes v))),
        )

  -- A field with one varint that comes with another wire type is refused with wire_type_mismatch before
  -- anything is taken: the error of a reader that had none has the field, both wire types and the position.
  pub mismatch-refused :
      (wire : WireType) (r : Reader)
      → is_varint wire ≡ false
      → r.failure ≡ none
      → read_scalar_field c info wire r ≡ (
        record r {
          failure = some (record {
            base = record {
              code = ReadErrorCode.wire_type_mismatch;
              type_name = none;
              field = some (from empty_field info);
              stage = none;
              offset = some r.input.consumed;
              element_index = none;
              element_total = none;
              expected_size = none;
              actual_size = none;
            };
            wire_field_number = none;
            wire = some wire;
            expected_wire = some WireType.varint;
          });
        },
        Outcome.error,
      )
  unfolding read_scalar_field mismatch_error read_fails current_read_error new_error coded_error
      fielded_error set_wire set_expected_wire set_code set_field set_offset keep_first
  mismatch-refused wire r other clear = rw (other, clear) refl
