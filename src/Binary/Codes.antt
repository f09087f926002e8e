-- ===== src/Binary/Codes.antt =====
-- The error codes and stages of include/contract/adapters/binary.hpp, with their texts.
use Prim.Native.String.{String}

pub data ReadErrorCode : Type 0 where
  unknown input_error truncated invalid_size max_length_exceeded max_bytes_exceeded : ReadErrorCode
  max_items_exceeded duplicate_key variant_index_out_of_range : ReadErrorCode
  span_size_mismatch unsupported_operation : ReadErrorCode

pub data WriteErrorCode : Type 0 where
  unknown output_error invalid_size max_length_exceeded max_bytes_exceeded : WriteErrorCode
  max_items_exceeded unsupported_operation : WriteErrorCode

pub data ReadStage : Type 0 where
  none raw view size field_value attribute_guard container variant span : ReadStage

pub data WriteStage : Type 0 where
  none raw size field_value attribute_guard container : WriteStage

unfoldable pub read_error_code_to_string : ReadErrorCode → String
read_error_code_to_string ReadErrorCode.unknown = "unknown"
read_error_code_to_string ReadErrorCode.input_error = "input error"
read_error_code_to_string ReadErrorCode.truncated = "truncated"
read_error_code_to_string ReadErrorCode.invalid_size = "invalid size"
read_error_code_to_string ReadErrorCode.max_length_exceeded = "max length exceeded"
read_error_code_to_string ReadErrorCode.max_bytes_exceeded = "max bytes exceeded"
read_error_code_to_string ReadErrorCode.max_items_exceeded = "max items exceeded"
read_error_code_to_string ReadErrorCode.duplicate_key = "duplicate key"
read_error_code_to_string ReadErrorCode.variant_index_out_of_range = "variant index out of range"
read_error_code_to_string ReadErrorCode.span_size_mismatch = "span size mismatch"
read_error_code_to_string ReadErrorCode.unsupported_operation = "unsupported operation"

unfoldable pub write_error_code_to_string : WriteErrorCode → String
write_error_code_to_string WriteErrorCode.unknown = "unknown"
write_error_code_to_string WriteErrorCode.output_error = "output error"
write_error_code_to_string WriteErrorCode.invalid_size = "invalid size"
write_error_code_to_string WriteErrorCode.max_length_exceeded = "max length exceeded"
write_error_code_to_string WriteErrorCode.max_bytes_exceeded = "max bytes exceeded"
write_error_code_to_string WriteErrorCode.max_items_exceeded = "max items exceeded"
write_error_code_to_string WriteErrorCode.unsupported_operation = "unsupported operation"

unfoldable pub read_stage_to_string : ReadStage → String
read_stage_to_string ReadStage.none = "input"
read_stage_to_string ReadStage.raw = "raw bytes"
read_stage_to_string ReadStage.view = "read view"
read_stage_to_string ReadStage.size = "size"
read_stage_to_string ReadStage.field_value = "field value"
read_stage_to_string ReadStage.attribute_guard = "attribute guard"
read_stage_to_string ReadStage.container = "container"
read_stage_to_string ReadStage.variant = "variant"
read_stage_to_string ReadStage.span = "span"

unfoldable pub write_stage_to_string : WriteStage → String
write_stage_to_string WriteStage.none = "output"
write_stage_to_string WriteStage.raw = "raw bytes"
write_stage_to_string WriteStage.size = "size"
write_stage_to_string WriteStage.field_value = "field value"
write_stage_to_string WriteStage.attribute_guard = "attribute guard"
write_stage_to_string WriteStage.container = "container"
