-- ===== src/Protobuf/Operators.antt =====
-- `operator<<` and `operator>>` of protobuf.hpp over windows, and the message that is received of one that
-- was sent.
use Prim.Native.String.{String}
use native.Mathlib.Nat.{zero-add}
use contract.Prelude.{ℕ, ◌≤◌, ◌≡◌, refl, ap, ap₂, ◌∙◌, Option, none, some, List, [], length}
use contract.Protobuf.Codes.{WriteStage, staged_error}
use contract.Protobuf.Writer.{Writer, Status, ok, error, WriteError, window, current_write_error}
use contract.Protobuf.Reader.{Reader, Outcome, done, out_of_fuel, ReadError}
use contract.Protobuf.Sent.{writer_over, reader_over, target_bytes}
use contract.Protobuf.Steps.{at}
use contract.Protobuf.Message.{typed_error, write_fields, read_message, Field}
use contract.Protobuf.Message.Fields.{LawfulField, fields, stored, message-accepts}
use contract.Protobuf.Message.Nested.{
  entries, FieldsFit, Numbered, payload, entries-Fit, Writes-fields,
}

-- error().type_name(type_name).stage(message_root)
unfoldable pub root_error : String → WriteError → WriteError
unfolding staged_error
root_error name e = staged_error WriteStage.message_root (typed_error name e)

-- What is thrown is given by the error whose message it has.
unfoldable pub thrown_write : String → Writer × Status → Writer × Option WriteError
thrown_write name (w, ok) = (w, none)
thrown_write name (w, error) =
    let e = root_error name (current_write_error w) in (record w { failure = some e }, some e)

-- `unfinished` stands for a loop of the model without fuel.
pub data Received (A : Type 0) : Type 0 where
  value : A → Received A
  failed : Option ReadError → Received A
  unfinished : Received A

unfoldable pub thrown_read : {A : Type 0} → Reader × Outcome A → Reader × Received A
thrown_read (r, done a) = (r, Received.value a)
thrown_read (r, Outcome.error) = (r, Received.failed r.failure)
thrown_read (r, out_of_fuel) = (r, Received.unfinished)

module _ {O : Type 0} (name : String) where
  unfoldable pub shift_out : List (Field O) → O → Writer → Writer × Option WriteError
  shift_out fs o w = thrown_write name (write_fields fs o (record w { failure = none }))

  unfoldable pub shift_in : List (Field O) → O → Reader → Reader × Received O
  shift_in fs o r = thrown_read (read_message name fs o r)

  module _ (ls : List (LawfulField O)) (numbered : Numbered (fields ls) ls)
      (whole : (o p : O) → stored (entries ls o) p ≡ o) where
    shift_out-stores :
        (o : O) (free : List ℕ)
        → FieldsFit ls o
        → length (payload ls o) ≤ length free
        → let (w, thrown) = shift_out (fields ls) o (writer_over free) in
          (thrown ≡ none) × (target_bytes w.out ≡ payload ls o)
    unfolding shift_out writer_over
    shift_out-stores o free fits room =
        rw
          (Writes-fields (fields ls) ls o numbered fits none
            (window (record { written = []; free = free })) room)
          (unfold thrown_write in (refl, refl))

    shift_in-finds :
        (o old : O) (bytes : List ℕ)
        → FieldsFit ls o
        → bytes ≡ payload ls o
        → shift_in (fields ls) old (reader_over bytes)
          ≡ (at none (length bytes) [], Received.value o)
    unfolding shift_in reader_over thrown_read
    shift_in-finds o old bytes fits e = rw e (
        ap thrown_read (
          message-accepts name (fields ls) (entries ls o) old none 0
            (entries-Fit (fields ls) ls o numbered fits))
        ∙ ap₂ (λ n t. (at none n [], Received.value t)) (zero-add (length (payload ls o)))
            (whole o old))

    -- A message whose fields fit their codecs, which keep their promise, and that is written by `operator<<`
    -- to memory with room for it is stored, as the tags and values of its fields in their order, without
    -- an exception. Then `operator>>` of a reader over just the bytes stored gives it back without an
    -- exception, whatever the destination held, with all of them consumed.
    pub message-sent_received :
        (o old : O) (free : List ℕ)
        → FieldsFit ls o
        → length (payload ls o) ≤ length free
        → let (w, thrown) = shift_out (fields ls) o (writer_over free) in
          (thrown ≡ none)
          × (target_bytes w.out ≡ payload ls o)
          × (shift_in (fields ls) old (reader_over (target_bytes w.out))
              ≡ (at none (length (target_bytes w.out)) [], Received.value o))
    message-sent_received o old free fits room =
        let (quiet, bytes) = shift_out-stores o free fits room in
        let (w, thrown) = shift_out (fields ls) o (writer_over free) in
        (quiet, bytes, shift_in-finds o old (target_bytes w.out) fits bytes)
