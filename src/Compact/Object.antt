-- ===== src/Compact/Object.antt =====
-- The fields of an object in compact.hpp: `write_field`, `read_field` and the codec of an object, whose
-- fields are found by the number in front of each, and `dispatch_field_by_id` of contract/visit.hpp.
pub mod Members
pub mod Laws
pub mod Sent
use Prim.Native.String.{String}
use contract.Prelude.{
  ℕ, zero, suc, ◌-◌, ◌^◌, Bool, Option, none, some, List, [], ◌∷◌, ◌==◌, if◌then◌else◌, length, ℤ,
}
use contract.Error.{set_type_name, set_stage, set_field, set_code, AdapterError}
use contract.Compact.Codes.{ValueKind, ReadErrorCode, WriteErrorCode, ReadStage, WriteStage}
use contract.Compact.Writer.{
  Writer, Status, WriteError, ◌⟫◌, write_ok, write_fails, describing_write, write_uint,
  write_size_header,
}
use contract.Compact.Reader.{
  Reader, ReadM, ReadError, pure, ◌>>=◌, read_fails, describing_read, read_uint, read_size_header,
}
use contract.Compact.Skip.{skip_value}
use contract.Compact.Codec.{Descriptor, Codec}

-- A descriptor with its `get` and `set`. `direct` is `can_direct_ref`: the value is read in place,
-- through `ref`, and not into a fresh `value_type value{}` that `set` then stores.
pub record Field (O : Type 0) : Type 1 where
  pub descriptor : Descriptor
  pub Value : Type 0
  pub get : O → Value
  pub set : Value → O → O
  pub direct : Bool
  pub codec : Codec Value

-- `static_cast<std::uint64_t>(id)`
unfoldable pub wire_id : ℤ → ℕ
wire_id (ℤ.pos n) = n
wire_id (ℤ.negsuc n) = 2 ^ 64 - 1 - n

-- error().field(descriptor).stage(stage)
unfoldable pub field_error :
    {Code Stage : Type 0} → Descriptor → Stage → AdapterError Code Stage → AdapterError Code Stage
unfolding set_field set_stage
field_error d stage e = set_stage stage (set_field d.info e)

-- error().type_name(type_name).stage(stage)
unfoldable pub type_error :
    {Code Stage : Type 0} → String → Stage → AdapterError Code Stage → AdapterError Code Stage
unfolding set_type_name set_stage
type_error name stage e = set_stage stage (set_type_name name e)

-- error().code(invalid_field_id).field(descriptor).stage(field_id)
unfoldable pub write_id_error : Descriptor → WriteError → WriteError
unfolding set_code
write_id_error d e = field_error d WriteStage.field_id (set_code WriteErrorCode.invalid_field_id e)

-- error().code(invalid_field_id).type_name(type_name).stage(field_id)
unfoldable pub read_id_error : String → ReadError → ReadError
unfolding set_code
read_id_error name e =
    type_error name ReadStage.field_id (set_code ReadErrorCode.invalid_field_id e)

module _ {O : Type 0} where
  unfoldable pub write_numbered : Field O → ℕ → O → Writer → Writer × Status
  write_numbered f id o =
      describing_write (field_error f.descriptor WriteStage.field_id) (write_uint id)
      ⟫ describing_write (field_error f.descriptor WriteStage.field_value)
          (f.codec.write (some f.descriptor) (f.get o))

  -- Field::id <= 0
  unfoldable pub write_by_id : Field O → ℤ → O → Writer → Writer × Status
  write_by_id f (ℤ.pos zero) o = write_fails (write_id_error f.descriptor)
  write_by_id f (ℤ.pos (suc n)) o = write_numbered f (suc n) o
  write_by_id f (ℤ.negsuc n) o = write_fails (write_id_error f.descriptor)

  unfoldable pub write_field : Field O → O → Writer → Writer × Status
  write_field f o = write_by_id f f.descriptor.id o

  -- ((status == write_status::ok ? status = write_field(out, descriptors, obj) : status), ...)
  unfoldable pub write_fields : List (Field O) → O → Writer → Writer × Status
  write_fields [] o = write_ok
  write_fields (f ∷ fs) o = write_field f o ⟫ write_fields fs o

  -- try_field of each field in turn: the first whose effective id is the one on the wire
  unfoldable pub find_field : List (Field O) → ℕ → Option (Field O)
  find_field [] id = none
  find_field (f ∷ fs) id = if wire_id f.descriptor.id == id then some f else find_field fs id

  unfoldable pub read_field : Field O → O → ReadM O
  read_field f o =
      describing_read (field_error f.descriptor ReadStage.field_value)
        (f.codec.read (some f.descriptor) (if f.direct then f.get o else f.codec.initial))
      >>= λ v. pure (f.set v o)

  -- What follows the dispatch: the field's value is read, or the value of no field is skipped.
  unfoldable pub read_matched : String → Option (Field O) → O → ReadM O
  unfolding set_type_name
  read_matched name none o =
      describing_read (type_error name ReadStage.skip) skip_value >>= λ _. pure o
  read_matched name (some f) o = describing_read (set_type_name name) (read_field f o)

  unfoldable pub read_by_id : String → List (Field O) → O → ℕ → ReadM O
  read_by_id name fs o id =
      if id == 0 then read_fails (read_id_error name) else read_matched name (find_field fs id) o

  unfoldable pub read_member : String → List (Field O) → O → ReadM O
  read_member name fs o =
      describing_read (type_error name ReadStage.field_id) read_uint >>= read_by_id name fs o

  -- for (i = …; i < wire_field_count; ++i) {…} with `left` fields still to come
  unfoldable pub read_members : String → List (Field O) → ℕ → O → ReadM O
  read_members name fs zero o = pure o
  read_members name fs (suc left) o = read_member name fs o >>= read_members name fs left

  unfoldable pub write_object : String → List (Field O) → O → Writer → Writer × Status
  unfolding set_type_name
  write_object name fs o =
      describing_write (type_error name WriteStage.object)
        (write_size_header ValueKind.object (length fs))
      ⟫ describing_write (set_type_name name) (write_fields fs o)

  unfoldable pub read_object : String → List (Field O) → O → ReadM O
  read_object name fs o =
      describing_read (type_error name ReadStage.object) (read_size_header ValueKind.object)
      >>= λ count. read_members name fs count o

  -- A nested object is written and read as one that stands alone.
  unfoldable pub object : String → List (Field O) → O → Codec O
  object name fs initial = record {
    write = λ d. write_object name fs;
    read = λ d. read_object name fs;
    initial = initial;
  }
