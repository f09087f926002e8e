-- ===== src/Binary/Reader.antt =====
-- `reader` of include/contract/adapters/binary.hpp: the state and the raw reads. A method returns
-- the reader after it and its outcome. What a failed read leaves in the destination is not
-- modelled: the stream operator throws, and the object is not used.
use contract.Prelude.{
  ℕ, ◌-◌, ◌/◌, ◌^◌, Bool, false, Option, none, some, List, [], ltb, ◌==◌, if◌then◌else◌, of_bytes,
}
use contract.Error.{AdapterError, fresh, set_code, set_stage, set_sizes, set_field, set_element}
use contract.Binary.Codes.{ReadErrorCode, ReadStage}
use contract.Binary.Cipher.{Key}
use contract.Binary.Stream.{Source, source_read, source_read_view}
use contract.Binary.Writer.{Descriptor}

-- read_status::ok with what the destination holds then, read_status::error, and the
-- std::length_error of a container that is asked to be longer than `max_size()`.
pub data Outcome {ℓ} (A : Type ℓ) : Type ℓ where
  done : A → Outcome A
  error : Outcome A
  length_error : Outcome A

abbrev pub ReadError : Type 0
ReadError = AdapterError ReadErrorCode ReadStage

-- `in_`, `opt_.encrypt_key`, `state_.encrypt_active` and `error_`
pub record Reader : Type 0 where
  pub input : Source
  pub encrypt_key : Key
  pub encrypt_active : Bool
  pub failure : Option ReadError

abbrev pub ReadM {ℓ} : Type ℓ → Type ℓ
ReadM A = Reader → Reader × Outcome A

module _ {ℓ κ} {A : Type ℓ} {B : Type κ} where
  abbrev pub next_read : (A → ReadM B) → Reader × Outcome A → Reader × Outcome B
  next_read k (r, done a) = k a r
  next_read k (r, error) = (r, error)
  next_read k (r, length_error) = (r, length_error)

  infixl 5 ◌>>=◌
  abbrev pub ◌>>=◌ : ReadM A → (A → ReadM B) → ReadM B
  ◌>>=◌ m k r = next_read k (m r)

module _ {ℓ} {A : Type ℓ} where
  abbrev pub pure : A → ReadM A
  pure a r = (r, done a)

  -- if (step == read_status::error) { return …; } rest
  infixl 5 ◌>>◌
  abbrev pub ◌>>◌ : ReadM (Unit {0}) → ReadM A → ReadM A
  m >> k = m >>= λ _. k

unfoldable pub current_read_error : Option ReadError → ReadError
current_read_error none = fresh ReadErrorCode.unknown
current_read_error (some e) = e

module _ {ℓ} {A : Type ℓ} where
  -- return error().…;
  unfoldable pub read_fails : (ReadError → ReadError) → ReadM A
  unfolding current_read_error
  read_fails describe r =
      (record r { failure = some (describe (current_read_error r.failure)) }, error)

  -- if (step == read_status::error) { return in.error().…; }
  abbrev pub described_read : (ReadError → ReadError) → Reader × Outcome A → Reader × Outcome A
  described_read describe (r, done a) = (r, done a)
  described_read describe (r, error) = read_fails describe r
  described_read describe (r, length_error) = (r, length_error)

  abbrev pub describing_read : (ReadError → ReadError) → ReadM A → ReadM A
  describing_read describe m r = described_read describe (m r)

unfoldable pub raw_read_error : ReadErrorCode → ReadStage → ℕ → ReadError → ReadError
unfolding set_code set_stage set_sizes
raw_read_error code stage size e = set_sizes size 0 (set_stage stage (set_code code e))

unfoldable pub read_whole : ℕ → Reader → Source × List ℕ × ℕ → Reader × Outcome (List ℕ)
read_whole size r (input, bytes, n) =
    if n == size
    then (record r { input = input }, done bytes)
    else read_fails (raw_read_error ReadErrorCode.truncated ReadStage.raw size)
        (record r { input = input })

-- `read(out, size)`: the bytes that are copied to `out`, which `is_null` says to be null.
unfoldable pub read_raw : Bool → ℕ → ReadM (List ℕ)
read_raw is_null size r =
    if size == 0
    then (r, done [])
    else if is_null
    then read_fails (raw_read_error ReadErrorCode.invalid_size ReadStage.raw size) r
    else read_whole size r (source_read r.input is_null size)

unfoldable pub seen : ℕ → Reader → Source × Option (List ℕ) → Reader × Outcome (List ℕ)
seen size r (input, some bytes) = (record r { input = input }, done bytes)
seen size r (input, none) =
    if size == 0
    then (record r { input = input }, done [])
    else read_fails (raw_read_error ReadErrorCode.truncated ReadStage.view size)
        (record r { input = input })

-- `read_view(size, data)`: the bytes that `data` shows.
unfoldable pub read_view : ℕ → ReadM (List ℕ)
read_view size r = seen size r (source_read_view r.input size)

-- `read(&value, sizeof(value))`
unfoldable pub read_scalar : ℕ → ReadM ℕ
read_scalar size = read_raw false size >>= λ bytes. pure (of_bytes bytes)

-- `read_value(size)` for a `std::size_t`
unfoldable pub read_size : ReadM ℕ
read_size = read_scalar 8

unfoldable pub read_limit_error : ReadErrorCode → Descriptor → ℕ → ℕ → ReadError → ReadError
unfolding set_code set_stage set_sizes set_field
read_limit_error code d limit size e =
    set_sizes limit size (set_stage ReadStage.attribute_guard (set_field d.info (set_code code e)))

-- if (limit && size > *limit) { return in.error()…; }
unfoldable pub within_read_limit : ReadErrorCode → Descriptor → Option ℕ → ℕ → ReadM (Unit {0})
within_read_limit code d none size r = (r, done tt)
within_read_limit code d (some limit) size r =
    if ltb limit size then read_fails (read_limit_error code d limit size) r else (r, done tt)

-- Without a field there is no limit; with one, `limit_of` reads it.
unfoldable pub check_read_limit :
    ReadErrorCode → (Descriptor → Option ℕ) → Option Descriptor → ℕ → ReadM (Unit {0})
unfolding within_read_limit
check_read_limit code limit_of none size r = (r, done tt)
check_read_limit code limit_of (some d) size r = within_read_limit code d (limit_of d) size r

unfoldable pub element_read_error : ReadStage → ℕ → ℕ → ReadError → ReadError
unfolding set_element set_stage
element_read_error stage index total e = set_stage stage (set_element index total e)

-- `max_size()` of a container of elements with the given size, and of a `std::string`, whose buffer
-- has one byte more: the largest difference of two pointers, 2 ^ 63 - 1, bounds both.
abbrev pub max_size : ℕ → ℕ
max_size element_size = (2 ^ 63 - 1) / element_size

abbrev pub string_max_size : ℕ
string_max_size = 2 ^ 63 - 2

-- `resize(size)` and `reserve(size)` of such a container.
unfoldable pub check_max_size : ℕ → ℕ → ReadM (Unit {0})
check_max_size limit size r = if ltb limit size then (r, length_error) else (r, done tt)
