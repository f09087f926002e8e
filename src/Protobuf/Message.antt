-- ===== src/Protobuf/Message.antt =====
-- Messages of protobuf.hpp: `read_message` with its loop over tags, `read_field`, the writing of the fields
-- in their order, the codec of a nested message, which is measured before it is written and read by a
-- reader of its own, and `operator<<` and `operator>>`; `dispatch_field_by_id` of contract/visit.hpp.
pub mod Fields
pub mod Nested
pub mod Terminates
pub mod Refusals
pub mod Mismatch
use Prim.Native.String.{String}
use contract.Prelude.{
  ℕ, zero, suc, ◌-◌, ◌%◌, ◌^◌, Bool, true, false, Option, none, some, List, [], ◌∷◌, ◌==◌,
  if◌then◌else◌, length, ℤ,
}
use contract.Error.{FieldInfo, set_type_name, position_correction, transfer_from}
use contract.Io.Window.{peek, input_position}
use contract.Protobuf.Codes.{
  WireType, WireError, ReadErrorCode, WriteErrorCode, ReadStage, WriteStage, coded_error,
  fielded_error, staged_error, set_field_number, set_wire,
}
use contract.Protobuf.Writer.{
  Writer, Status, ok, error, WriteError, Target, target_position, write_fails, write_tag,
  write_varint,
}
use contract.Protobuf.Reader.{
  Reader, Outcome, done, out_of_fuel, ReadM, ReadError, ◌>>=◌, pure, read_fails, current_read_error,
  read_tag, read_varint, read_view,
}
use contract.Protobuf.Scalar.{extend, value_error}
use contract.Protobuf.Codec.{
  Codec, ◌⟫◌, WriteStep, write_ok, describing_write, describing_read, read_expected,
}

-- A descriptor with its `get` and `set`. `id` is the effective id, an int, and `info.id` the same as a
-- std::uint32_t. `direct` is `can_direct_ref`: the value is read in place.
pub record Field (O : Type 0) : Type 1 where
  pub info : FieldInfo
  pub id : ℤ
  pub Value : Type 0
  pub get : O → Value
  pub set : Value → O → O
  pub direct : Bool
  pub codec : Codec Value

module _ {Code Stage : Type 0} where
  unfoldable pub typed_error : String → WireError Code Stage → WireError Code Stage
  unfolding set_type_name
  typed_error name e = record e { base = set_type_name name e.base }

  -- in.error(value): the error of another, which takes the place of this one
  unfoldable pub transferred_error :
      WireError Code Stage → WireError Code Stage → WireError Code Stage
  unfolding transfer_from
  transferred_error value e = record value { base = transfer_from value.base e.base }

  unfoldable pub corrected_error : ℕ → WireError Code Stage → WireError Code Stage
  unfolding position_correction
  corrected_error base e = record e { base = position_correction base e.base }

-- error().field(field).stage(field_value)
unfoldable pub read_field_error : FieldInfo → ReadError → ReadError
unfolding staged_error fielded_error
read_field_error info e = staged_error ReadStage.field_value (fielded_error info e)

unfoldable pub write_field_error : FieldInfo → WriteError → WriteError
unfolding staged_error fielded_error
write_field_error info e = staged_error WriteStage.field_value (fielded_error info e)

-- error().type_name(type_name).stage(field_key)
unfoldable pub key_error : String → ReadError → ReadError
unfolding staged_error
key_error name e = staged_error ReadStage.field_key (typed_error name e)

unfoldable pub zero_error : String → WireType → ReadError → ReadError
unfolding set_wire coded_error
zero_error name wire e =
    set_wire wire (key_error name (coded_error ReadErrorCode.field_number_zero e))

unfoldable pub unknown_error : String → ℕ → WireType → ReadError → ReadError
unfolding set_wire staged_error set_field_number coded_error
unknown_error name number wire e = set_wire wire (
    staged_error ReadStage.field_key
      (set_field_number number (typed_error name (coded_error ReadErrorCode.unknown_field e))))

-- out.error().code(output_error).field(field).stage(length)
unfoldable pub measure_error : FieldInfo → WriteError → WriteError
unfolding staged_error fielded_error coded_error
measure_error info e =
    staged_error WriteStage.length (fielded_error info (coded_error WriteErrorCode.output_error e))

unfoldable pub measured : Writer × Status → Option ℕ
measured (w, ok) = some (target_position w.out)
measured (w, error) = none

-- A writer over a new counting output writes the value.
unfoldable pub measure_encoded_size : {A : Type 0} → (A → WriteStep) → A → Option ℕ
measure_encoded_size write value =
    measured (write value (record { out = Target.counting 0; failure = none }))

module _ {O : Type 0} where
  -- try_field of each field in turn: the first whose effective id is the number on the wire
  unfoldable pub find_field : List (Field O) → ℕ → Option (Field O)
  find_field [] number = none
  find_field (f ∷ fs) number = if extend f.id == number then some f else find_field fs number

  -- The value is read in place, or into a new one, and only then is the field named by `read_field`.
  unfoldable pub read_slot : Bool → (f : Field O) → WireType → O → ReadM f.Value
  read_slot true f wire o = f.codec.read_with f.info wire (f.get o)
  read_slot false f wire o =
      describing_read (read_field_error f.info) (f.codec.read_with f.info wire f.codec.initial)

  unfoldable pub read_field : Field O → WireType → O → ReadM O
  read_field f wire o = read_slot f.direct f wire o >>= λ v. pure (f.set v o)

  -- What follows the dispatch.
  unfoldable pub read_found : String → ℕ → WireType → Option (Field O) → O → ReadM O
  read_found name number wire none o = read_fails (unknown_error name number wire)
  read_found name number wire (some f) o = describing_read (typed_error name) (read_field f wire o)

  unfoldable pub read_numbered : String → List (Field O) → O → ℕ × WireType → ReadM O
  read_numbered name fs o (number, wire) =
      if number == 0
      then read_fails (zero_error name wire)
      else read_found name number wire (find_field fs number) o

  unfoldable pub read_round : String → List (Field O) → O → ReadM O
  read_round name fs o = describing_read (key_error name) read_tag >>= read_numbered name fs o

  -- while (!in_.peek(1).empty()) {…}
  unfoldable pub read_rounds : String → List (Field O) → ℕ → O → ReadM O
  read_rounds name fs zero o r = (r, out_of_fuel)
  read_rounds name fs (suc fuel) o r =
      let later = (read_round name fs o >>= read_rounds name fs fuel) r in
      if length (peek r.input 1) == 0 then (r, done o) else later

  -- Each round takes a byte at least, so that one more round than there are bytes is enough.
  unfoldable pub read_message : String → List (Field O) → O → ReadM O
  read_message name fs o r =
      read_rounds name fs (suc (length r.input.rest)) o (record r { failure = none })

  unfoldable pub write_field : Field O → O → Writer → Writer × Status
  write_field f o =
      describing_write (write_field_error f.info) (f.codec.write_with f.info (f.get o))

  -- write_message_by_index from an index on
  unfoldable pub write_fields : List (Field O) → O → Writer → Writer × Status
  write_fields [] o = write_ok
  write_fields (f ∷ fs) o = write_field f o ⟫ write_fields fs o

-- in.error(nested.error(), length): the nested reader counts from the start of its window. The position is
-- not below `length`, since that many bytes have just been consumed.
unfoldable pub nested_outcome : {A : Type 0} → ℕ → Reader → Reader × Outcome A → Reader × Outcome A
nested_outcome length r (nested, done a) = (r, done a)
nested_outcome length r (nested, Outcome.error) =
    read_fails
      (λ e.
        corrected_error (input_position r.input - length)
          (transferred_error (current_read_error nested) e))
      r
nested_outcome length r (nested, out_of_fuel) = (r, out_of_fuel)

module _ {O : Type 0} where
  unfoldable pub read_nested : String → List (Field O) → O → List ℕ → ReadM O
  read_nested name fs o bytes r = nested_outcome (length bytes) r (
      read_message name fs o
        (record { input = record { consumed = 0; rest = bytes }; failure = none }))

  unfoldable pub read_message_field : String → List (Field O) → FieldInfo → WireType → O → ReadM O
  read_message_field name fs info wire o =
      read_expected WireType.length_delimited info wire (value_error info wire)
        (read_varint >>= λ size. read_view size >>= read_nested name fs o)

  unfoldable pub write_measured :
      List (Field O) → FieldInfo → O → Option ℕ → Writer → Writer × Status
  write_measured fs info o none = write_fails (measure_error info)
  write_measured fs info o (some size) =
      write_tag (info.id % 2 ^ 32) WireType.length_delimited ⟫ write_varint size ⟫ write_fields fs o

  -- codec<T> of a type with a definition; `name` is type_name<T>().
  unfoldable pub message : String → List (Field O) → O → Codec O
  message name fs initial = record {
    write = write_fields fs;
    write_with = λ info o. write_measured fs info o (measure_encoded_size (write_fields fs) o);
    read = read_message name fs;
    read_with = read_message_field name fs;
    initial = initial;
  }
