-- ===== src/Compact/Codec.antt =====
-- `codec<T>` of compact.hpp: its write and its read, without a field or with one, and `T{}`; and what
-- the container codecs of compact/*.hpp share: limits and the context of their errors.
pub mod Laws
pub mod Scalar
pub mod Text
pub mod Vector
pub mod Map
pub mod Array
pub mod Optional
pub mod Tuple
pub mod Variant
use contract.Prelude.{ℕ, Option, none, some, ltb, if◌then◌else◌, ℤ, word, ◌-◌}
use contract.Error.{FieldInfo, set_field, set_stage, set_element, AdapterError}
use contract.Compact.Codes.{
  ReadErrorCode, WriteErrorCode, ReadStage, WriteStage, coded_error, sized_error,
}
use contract.Compact.Writer.{Writer, Status, ok, WriteError, write_fails}
use contract.Compact.Reader.{ReadM, ReadError, pure, read_fails}

-- What the codecs read of a field: its effective id, which is an int, and max_items of the check
-- vocabulary.
pub record Descriptor : Type 0 where
  pub info : FieldInfo
  pub id : ℤ
  pub max_items : Option ℕ

-- `old` is what the destination holds when the read begins.
pub record Codec (A : Type 0) : Type 0 where
  pub write : Option Descriptor → A → Writer → Writer × Status
  pub read : Option Descriptor → A → ReadM A
  pub initial : A

module _ {Code Stage : Type 0} where
  -- `.field(field)` in the overload with a field
  unfoldable pub fielded_error :
      Option Descriptor → AdapterError Code Stage → AdapterError Code Stage
  unfolding set_field
  fielded_error none e = e
  fielded_error (some d) e = set_field d.info e

  -- out.error().field(field).stage(stage)
  unfoldable pub staged_error :
      Option Descriptor → Stage → AdapterError Code Stage → AdapterError Code Stage
  unfolding set_stage
  staged_error d stage e = set_stage stage (fielded_error d e)

  -- What the overload with a field adds to the error of a helper that knows none.
  unfoldable pub outer_error :
      Option Descriptor → Stage → AdapterError Code Stage → AdapterError Code Stage
  unfolding set_stage set_field
  outer_error none stage e = e
  outer_error (some d) stage e = set_stage stage (set_field d.info e)

  -- out.error().field(field).element_index(index, total).stage(stage)
  unfoldable pub element_error :
      Option Descriptor → Stage → ℕ → ℕ → AdapterError Code Stage → AdapterError Code Stage
  unfolding set_stage set_element
  element_error d stage index total e =
      set_stage stage (set_element index total (fielded_error d e))

-- if (limit && size > *limit) { return out.error()…; }
unfoldable pub within_write_limit :
    WriteStage → Descriptor → Option ℕ → ℕ → Writer → Writer × Status
within_write_limit stage d none size w = (w, ok)
within_write_limit stage d (some limit) size w =
    if ltb limit size
    then write_fails
        (λ e.
          fielded_error (some d) (sized_error WriteErrorCode.max_items_exceeded stage limit size e))
        w
    else (w, ok)

-- limit = attributes::max_items_limit(field), which only the overload with a field asks for
unfoldable pub check_write_limit : WriteStage → Option Descriptor → ℕ → Writer → Writer × Status
check_write_limit stage none size w = (w, ok)
check_write_limit stage (some d) size w = within_write_limit stage d d.max_items size w

unfoldable pub within_read_limit : ReadStage → Descriptor → Option ℕ → ℕ → ReadM (Unit {0})
within_read_limit stage d none size = pure tt
within_read_limit stage d (some limit) size =
    if ltb limit size
    then read_fails (λ e.
      fielded_error (some d) (sized_error ReadErrorCode.max_items_exceeded stage limit size e))
    else pure tt

unfoldable pub check_read_limit : ReadStage → Option Descriptor → ℕ → ReadM (Unit {0})
check_read_limit stage none size = pure tt
check_read_limit stage (some d) size = within_read_limit stage d d.max_items size

-- size > std::numeric_limits<std::size_t>::max(), on a host whose std::size_t has 64 bits
unfoldable pub check_size : Option Descriptor → ReadStage → ℕ → ReadM (Unit {0})
unfolding coded_error
check_size d stage size =
    if ltb (word - 1) size
    then read_fails (λ e. fielded_error d (coded_error ReadErrorCode.invalid_size stage e))
    else pure tt
