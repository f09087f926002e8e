-- ===== src/Compact/Codes.antt =====
-- The kinds, codes and stages of compact.hpp, and what its methods put into an error.
use contract.Prelude.{ℕ}
use contract.Error.{AdapterError, set_code, set_stage, set_sizes}

pub data ValueKind : Type 0 where
  zero small_uint small_neg int_payload bytes string array map object bool_false bool_true null
        float32 float64 :
      ValueKind

pub data ReadErrorCode : Type 0 where
  unknown input_error truncated invalid_header invalid_size invalid_integer invalid_field_id
        duplicate_key max_items_exceeded span_size_mismatch variant_index_out_of_range
        unsupported_operation :
      ReadErrorCode

pub data WriteErrorCode : Type 0 where
  unknown output_error invalid_size invalid_field_id max_items_exceeded unsupported_operation :
      WriteErrorCode

pub data ReadStage : Type 0 where
  none header integer size raw_bytes array map variant span object field_id field_value skip float32
        float64 :
      ReadStage

pub data WriteStage : Type 0 where
  none header integer size raw_bytes array map variant span object field_id field_value float32
        float64 :
      WriteStage

module _ {Code Stage : Type 0} where
  -- error().code(code).stage(stage)
  unfoldable pub coded_error : Code → Stage → AdapterError Code Stage → AdapterError Code Stage
  unfolding set_code set_stage
  coded_error code stage e = set_stage stage (set_code code e)

  -- error().code(code).stage(stage).sizes(expected, actual)
  unfoldable pub sized_error :
      Code → Stage → ℕ → ℕ → AdapterError Code Stage → AdapterError Code Stage
  unfolding coded_error set_sizes
  sized_error code stage expected actual e = set_sizes expected actual (coded_error code stage e)
