-- ===== src/Protobuf/Codes.antt =====
-- The codes and stages of protobuf.hpp, its wire types, and its two errors, which add what the wire
-- said to the error of detail/error.hpp. Only the reader's has an expected wire type.
use contract.Prelude.{ℕ, Option, some, ◌==◌, if◌then◌else◌}
use contract.Error.{
  FieldInfo, set_field, AdapterError, fresh, keep_first, set_code, set_stage, set_sizes, set_offset,
}

-- The values 3, 4, 6 and 7, which a cast of 3 bits can give as well, have no enumerator.
pub data WireType : Type 0 where
  varint fixed64 length_delimited fixed32 : WireType
  unnamed : ℕ → WireType

pub data ReadStage : Type 0 where
  none message_root field_key field_value varint fixed32 fixed64 length : ReadStage

pub data WriteStage : Type 0 where
  none message_root field_value tag length varint fixed32 fixed64 : WriteStage

pub data ReadErrorCode : Type 0 where
  unknown truncated invalid_varint field_number_zero unknown_field duplicate_field
        wire_type_mismatch invalid_size nested_error :
      ReadErrorCode

pub data WriteErrorCode : Type 0 where
  unknown output_error : WriteErrorCode

-- `static_cast<wire_type>` of 3 bits, and its value
unfoldable pub wire_of : ℕ → WireType
wire_of n =
    if n == 0
    then WireType.varint
    else if n == 1
    then WireType.fixed64
    else if n == 2
    then WireType.length_delimited
    else if n == 5
    then WireType.fixed32
    else WireType.unnamed n

unfoldable pub wire_value : WireType → ℕ
wire_value WireType.varint = 0
wire_value WireType.fixed64 = 1
wire_value WireType.length_delimited = 2
wire_value WireType.fixed32 = 5
wire_value (WireType.unnamed n) = n

pub record WireError (Code Stage : Type 0) : Type 0 where
  pub base : AdapterError Code Stage
  pub wire_field_number : Option ℕ
  pub wire : Option WireType
  pub expected_wire : Option WireType

module _ {Code Stage : Type 0} where
  -- `error_.emplace(location); error_->offset(position())`
  unfoldable pub new_error : Code → ℕ → WireError Code Stage
  unfolding set_offset
  new_error code position = record {
    base = set_offset position (fresh code);
    wire_field_number = Option.none;
    wire = Option.none;
    expected_wire = Option.none;
  }

  unfoldable pub set_field_number : ℕ → WireError Code Stage → WireError Code Stage
  unfolding keep_first
  set_field_number value e = record e { wire_field_number = keep_first e.wire_field_number value }

  -- `wire` of a read_error, which puts the value in place of the one there is
  unfoldable pub set_wire : WireType → WireError Code Stage → WireError Code Stage
  set_wire value e = record e { wire = some value }

  -- `wire` of a write_error, which keeps the first
  unfoldable pub keep_wire : WireType → WireError Code Stage → WireError Code Stage
  unfolding keep_first
  keep_wire value e = record e { wire = keep_first e.wire value }

  unfoldable pub set_expected_wire : WireType → WireError Code Stage → WireError Code Stage
  unfolding keep_first
  set_expected_wire value e = record e { expected_wire = keep_first e.expected_wire value }

  unfoldable pub fielded_error : FieldInfo → WireError Code Stage → WireError Code Stage
  unfolding set_field
  fielded_error info e = record e { base = set_field info e.base }

  unfoldable pub coded_error : Code → WireError Code Stage → WireError Code Stage
  unfolding set_code
  coded_error code e = record e { base = set_code code e.base }

  unfoldable pub sized_error : Code → ℕ → ℕ → WireError Code Stage → WireError Code Stage
  unfolding set_code set_sizes
  sized_error code expected actual e = record e {
    base = set_sizes expected actual (set_code code e.base);
  }

  unfoldable pub staged_error : Stage → WireError Code Stage → WireError Code Stage
  unfolding set_stage
  staged_error stage e = record e { base = set_stage stage e.base }
