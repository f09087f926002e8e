-- ===== src/Protobuf/Message/Nested.antt =====
-- Nested messages of protobuf.hpp: what the counting output measures, and the codec of a message, which
-- keeps the promise of a codec.
use Prim.Native.String.{String}
use mathlib.Core.Path.{subst}
use mathlib.Core.List.{append_assoc}
use contract.Prelude.{
  ℕ, ◌+◌, ◌%◌, ◌^◌, ◌<◌, ◌≡◌, refl, ap, ◌∙◌, Option, none, some, List, [], ◌∷◌, ◌++◌, arith, length,
}
use contract.Error.{FieldInfo}
use contract.Protobuf.Codes.{WireType, wire_of}
use contract.Protobuf.Varint.{varint_bytes}
use contract.Protobuf.Writer.{counting, target_position, write_tag, write_varint}
use contract.Protobuf.Reader.{ReadError, done, ◌>>=◌, next_read, read_varint, read_view}
use contract.Protobuf.Scalar.{value_error}
use contract.Protobuf.Steps.{
  at, tag_bytes, Writes, Writes-ok, Writes-then, Writes-describing, Writes-varint, Reads,
  Reads-bind, Reads-varint, Reads-view,
}
use contract.Protobuf.Codec.{WriteStep, ◌⟫◌}
use contract.Protobuf.Codec.Laws.{IsCodec, Writes-tag_then, Reads-expected}
use contract.Protobuf.Message.{
  Field, write_field_error, measured, measure_encoded_size, find_field, write_field, write_fields,
  nested_outcome, read_nested, read_message_field, write_measured, message,
}
use contract.Protobuf.Message.Fields.{
  LawfulField, Entry, fields, number_of, HasNumber, message_bytes, stored, EntriesFit,
  number-bounds, message-accepts,
}

-- What a step that would store some bytes in a window is measured at is the number of those bytes, if that
-- is a number of 64 bits.
pub measure-exact :
    {A : Type 0} (write : A → WriteStep) (bytes : List ℕ) (a : A)
    → Writes (write a) bytes
    → length bytes < 2 ^ 64
    → measure_encoded_size write a ≡ some (length bytes)
unfolding measure_encoded_size measured target_position
measure-exact write bytes a h small =
    ap measured (h none (counting 0) (omega arith)) ∙ ap some (omega arith)

module _ {O : Type 0} where
  -- All of the fields in their order, with the values of an object.
  abbrev pub entries : List (LawfulField O) → O → List (Entry O)
  entries [] o = []
  entries (l ∷ ls) o = record { lawful = l; value = l.field.get o } ∷ entries ls o

  abbrev pub FieldsFit : List (LawfulField O) → O → Type 0
  FieldsFit [] o = Unit {0}
  FieldsFit (l ∷ ls) o = l.Fits (l.field.get o) × FieldsFit ls o

  -- Each field has a positive number, and is the first among `fs` that has it.
  abbrev pub Numbered : List (Field O) → List (LawfulField O) → Type 1
  Numbered fs [] = Unit
  Numbered fs (l ∷ ls) =
      (HasNumber l.field × (find_field fs (number_of l.field) ≡ some l.field)) × Numbered fs ls

  abbrev pub payload : List (LawfulField O) → O → List ℕ
  payload ls o = message_bytes (entries ls o)

  -- The number of bytes in front of a nested message.
  abbrev pub framed : List (LawfulField O) → O → List ℕ
  framed ls o = varint_bytes 10 (length (payload ls o)) ++ payload ls o

  abbrev pub MessageFits : List (LawfulField O) → O → Type 0
  MessageFits ls o = FieldsFit ls o × (length (payload ls o) < 2 ^ 64)

  pub entries-Fit :
      (fs : List (Field O)) (ls : List (LawfulField O)) (o : O)
      → Numbered fs ls
      → FieldsFit ls o
      → EntriesFit fs (entries ls o)
  entries-Fit fs [] o numbered fits = tt
  entries-Fit fs (l ∷ ls) o ((has_number, found), numbered) (f, fits) =
      ((has_number, found, f), entries-Fit fs ls o numbered fits)

  pub Writes-fields :
      (fs : List (Field O)) (ls : List (LawfulField O)) (o : O)
      → Numbered fs ls
      → FieldsFit ls o
      → Writes (write_fields (fields ls) o) (payload ls o)
  unfolding write_fields write_field
  Writes-fields fs [] o numbered fits = Writes-ok
  Writes-fields fs (l ∷ ls) o ((has_number, found), numbered) (f, fits) =
      let v = l.field.get o in
      let (positive, small) = number-bounds l.field has_number in
      let bytes = tag_bytes (number_of l.field) l.wire ++ l.framed v in
      Writes-then (write_field l.field o) (write_fields (fields ls) o) bytes (payload ls o)
        (Writes-describing (write_field_error l.field.info)
          (l.field.codec.write_with l.field.info v) bytes
          (l.law.writes_with l.field.info v small f))
        (Writes-fields fs ls o numbered fits)

  module _ (name : String) (ls : List (LawfulField O)) (numbered : Numbered (fields ls) ls)
      (whole : (o p : O) → stored (entries ls o) p ≡ o) where
    Reads-nested :
        (o old : O) (failure : Option ReadError) (consumed : ℕ) (more : List ℕ)
        → MessageFits ls o
        → read_nested name (fields ls) old (payload ls o) (at failure consumed more)
          ≡ (at failure consumed more, done o)
    unfolding read_nested
    Reads-nested o old failure consumed more (fits, small) =
        let outer = at failure consumed more in
        ap (nested_outcome (length (payload ls o)) outer) (
          message-accepts name (fields ls) (entries ls o) old none 0
            (entries-Fit (fields ls) ls o numbered fits))
        ∙ (unfold nested_outcome in ap (λ t. (outer, done t)) (whole o old))

    Reads-body :
        (o old : O)
        → MessageFits ls o
        → Reads
            (read_varint >>= λ size. read_view size >>= read_nested name (fields ls) old)
            (framed ls o)
            o
    Reads-body o old (fits, small) =
        let bytes = payload ls o in
        let nested = read_nested name (fields ls) old in
        Reads-bind read_varint (λ size. read_view size >>= nested) (varint_bytes 10 (length bytes))
          bytes (length bytes) o (Reads-varint (length bytes) small)
          (λ failure consumed more.
            ap (next_read nested) (Reads-view (length bytes) bytes refl failure consumed more)
            ∙ Reads-nested o old failure (consumed + length bytes) more (fits, small))

    Writes-body :
        (info : FieldInfo) (o : O)
        → info.id < 2 ^ 32
        → MessageFits ls o
        → Writes
            (write_measured (fields ls) info o (measure_encoded_size (write_fields (fields ls)) o))
            (tag_bytes info.id 2 ++ framed ls o)
    Writes-body info o h (fits, small) =
        let fs = fields ls in
        let bytes = payload ls o in
        let size = length bytes in
        let stores = Writes-fields fs ls o numbered fits in
        let exact = measure-exact (write_fields fs) bytes o stores small in
        let tag = write_tag (info.id % 2 ^ 32) (wire_of 2) in
        rw exact (
          unfold write_measured wire_of in
          subst (λ t. Writes (tag ⟫ write_varint size ⟫ write_fields fs o) t)
            (append_assoc (tag_bytes info.id 2) (varint_bytes 10 size) bytes)
            (Writes-then (tag ⟫ write_varint size) (write_fields fs o)
              (tag_bytes info.id 2 ++ varint_bytes 10 size) bytes
              (Writes-tag_then info.id 2 (write_varint size) (varint_bytes 10 size) h (omega arith)
                (Writes-varint size small))
              stores))

    -- The codec of a message keeps the promise of a codec, so that messages nest: as a field it is stored,
    -- or counted, as its tag, the number of bytes that its fields take, which the counting writer has
    -- found, and just those bytes; there a nested reader gives the same message back, whatever the
    -- destination held. The fields' codecs keep their promise, their numbers are positive and
    -- differ, the fields make up the object, and its bytes are fewer than 2 ^ 64.
    pub message-IsCodec_by_size :
        (initial : O)
        → IsCodec (message name (fields ls) initial) 2 (payload ls) (framed ls) (MessageFits ls)
    unfolding message read_message_field wire_of
    message-IsCodec_by_size initial = record {
      small = omega arith;
      writes = λ o (fits, small). Writes-fields (fields ls) ls o numbered fits;
      writes_with = λ info o h fit. Writes-body info o h fit;
      reads_with = λ info o old fit.
          Reads-expected 2 info (value_error info WireType.length_delimited)
            (read_varint >>= λ size. read_view size >>= read_nested name (fields ls) old)
            (framed ls o) o (Reads-body o old fit);
    }
