-- ===== src/Binary/Writer.antt =====
-- `writer` of include/contract/adapters/binary.hpp: the state and the raw writes. A method returns
-- the writer after it and its status. The error is described in the writer.
use contract.Prelude.{ℕ, Bool, Option, none, some, List, ltb, ◌==◌, if◌then◌else◌, to_bytes}
use contract.Error.{
  FieldInfo, AdapterError, fresh, set_code, set_stage, set_sizes, set_field, set_element,
}
use contract.Binary.Codes.{WriteErrorCode, WriteStage}
use contract.Binary.Cipher.{Key}
use contract.Binary.Stream.{Sink, sink_write}

pub data Status : Type 0 where
  ok error : Status

abbrev pub WriteError : Type 0
WriteError = AdapterError WriteErrorCode WriteStage

-- `out_`, `opt_.encrypt_key`, `state_.encrypt_active` and `error_`
pub record Writer : Type 0 where
  pub out : Sink
  pub encrypt_key : Key
  pub encrypt_active : Bool
  pub failure : Option WriteError

-- What the codecs read of a field's descriptor: the three limits of the check vocabulary, and
-- whether it has security::encrypt.
pub record Descriptor : Type 0 where
  pub info : FieldInfo
  pub max_length : Option ℕ
  pub max_bytes : Option ℕ
  pub max_items : Option ℕ
  pub encrypt : Bool

-- The private `error()`: the error there is, or else a new one.
unfoldable pub current_write_error : Option WriteError → WriteError
current_write_error none = fresh WriteErrorCode.unknown
current_write_error (some e) = e

-- return error().…;
unfoldable pub write_fails : (WriteError → WriteError) → Writer → Writer × Status
unfolding current_write_error
write_fails describe w =
    (record w { failure = some (describe (current_write_error w.failure)) }, error)

-- if (step == write_status::error) { return …; } rest
abbrev pub next_write : (Writer → Writer × Status) → Writer × Status → Writer × Status
next_write k (w, ok) = k w
next_write k (w, error) = (w, error)

infixr 5 ◌⟫◌
abbrev pub ◌⟫◌ : (Writer → Writer × Status) → (Writer → Writer × Status) → Writer → Writer × Status
◌⟫◌ m k w = next_write k (m w)

-- if (step == write_status::error) { return out.error().…; }
abbrev pub described_write : (WriteError → WriteError) → Writer × Status → Writer × Status
described_write describe (w, ok) = (w, ok)
described_write describe (w, error) = write_fails describe w

abbrev pub describing_write :
    (WriteError → WriteError) → (Writer → Writer × Status) → Writer → Writer × Status
describing_write describe m w = described_write describe (m w)

unfoldable pub raw_size_error : WriteErrorCode → ℕ → WriteError → WriteError
unfolding set_code set_stage set_sizes
raw_size_error code size e = set_sizes size 0 (set_stage WriteStage.raw (set_code code e))

-- Whether the output took all of the bytes.
unfoldable pub written_all : ℕ → Writer → Sink × ℕ → Writer × Status
written_all size w (out, n) =
    if n == size
    then (record w { out = out }, ok)
    else write_fails (raw_size_error WriteErrorCode.output_error size) (record w { out = out })

unfoldable pub write_raw : Option (List ℕ) → ℕ → Writer → Writer × Status
write_raw source size w = if size == 0 then (w, ok) else elim source [
  | none ↦ write_fails (raw_size_error WriteErrorCode.invalid_size size) w
  | some bytes ↦ written_all size w (sink_write w.out (some bytes) size)
]

-- `write(&value, sizeof(value))`
unfoldable pub write_scalar : ℕ → ℕ → Writer → Writer × Status
write_scalar size value = write_raw (some (to_bytes size value)) size

-- `write_value(size)` for a `std::size_t`
unfoldable pub write_size : ℕ → Writer → Writer × Status
write_size size = write_scalar 8 size

unfoldable pub write_limit_error : WriteErrorCode → Descriptor → ℕ → ℕ → WriteError → WriteError
unfolding set_code set_stage set_sizes set_field
write_limit_error code d limit size e =
    set_sizes limit size (set_stage WriteStage.attribute_guard (set_field d.info (set_code code e)))

-- if (limit && size > *limit) { return out.error()…; }
unfoldable pub within_limit : WriteErrorCode → Descriptor → Option ℕ → ℕ → Writer → Writer × Status
within_limit code d none size w = (w, ok)
within_limit code d (some limit) size w =
    if ltb limit size then write_fails (write_limit_error code d limit size) w else (w, ok)

-- Without a field there is no limit; with one, `limit_of` reads it.
unfoldable pub check_write_limit :
    WriteErrorCode → (Descriptor → Option ℕ) → Option Descriptor → ℕ → Writer → Writer × Status
unfolding within_limit
check_write_limit code limit_of none size w = (w, ok)
check_write_limit code limit_of (some d) size w = within_limit code d (limit_of d) size w

unfoldable pub container_write_error : ℕ → ℕ → WriteError → WriteError
unfolding set_element set_stage
container_write_error index total e = set_stage WriteStage.container (set_element index total e)

-- return write_status::ok;
abbrev pub write_ok : Writer → Writer × Status
write_ok w = (w, ok)
