-- ===== src/Compact/Reader.antt =====
-- `reader` of compact.hpp over a `window_input`: `error`, the bytes, the integers, the headers and the
-- floating-point numbers, which are given by their bits. A method returns the reader after it and its
-- outcome.
use Prim.Native.Nat.{bit_and}
use contract.Prelude.{
  ℕ, ◌+◌, ◌-◌, ◌%◌, ◌^◌, Bool, true, false, Option, none, some, List, [], ◌∷◌, ltb, leb, ◌==◌,
  if◌then◌else◌, length, take, of_bytes, ℤ,
}
use contract.Error.{AdapterError, fresh, set_offset, set_stage}
use contract.Io.Window.{WindowInput, peek, consume, input_position}
use contract.Compact.Codes.{ValueKind, ReadErrorCode, ReadStage, coded_error, sized_error}
use contract.Compact.Headers.{
  small_uint_max, small_neg_min, small_neg_max, int_payload_min, int_payload_max, int_payload_sign,
  sized_extended, bool_false_header, bool_true_header, null_header, float32_header, float64_header,
  size_base, is_sized_header,
}

-- read_status::ok with what the destination holds then, read_status::error, and the
-- std::length_error of a container that is asked to be longer than `max_size()`. `out_of_fuel` stands
-- for a loop of the model that was given too little fuel, and for nothing that the code can return.
pub data Outcome {ℓ} (A : Type ℓ) : Type ℓ where
  done : A → Outcome A
  error : Outcome A
  length_error : Outcome A
  out_of_fuel : Outcome A

abbrev pub ReadError : Type 0
ReadError = AdapterError ReadErrorCode ReadStage

pub record Reader : Type 0 where
  pub input : WindowInput
  pub failure : Option ReadError

abbrev pub ReadM {ℓ} : Type ℓ → Type ℓ
ReadM A = Reader → Reader × Outcome A

module _ {ℓ κ} {A : Type ℓ} {B : Type κ} where
  -- if (step == read_status::error) { return read_status::error; } rest
  abbrev pub next_read : (A → ReadM B) → Reader × Outcome A → Reader × Outcome B
  next_read k (r, done a) = k a r
  next_read k (r, error) = (r, error)
  next_read k (r, length_error) = (r, length_error)
  next_read k (r, out_of_fuel) = (r, out_of_fuel)

  infixl 5 ◌>>=◌
  abbrev pub ◌>>=◌ : ReadM A → (A → ReadM B) → ReadM B
  ◌>>=◌ m k r = next_read k (m r)

abbrev pub pure {ℓ} : {A : Type ℓ} → A → ReadM A
pure a r = (r, done a)

-- The private `error()`: a new error has the position as its offset.
unfoldable pub current_read_error : Reader → ReadError
unfolding set_offset input_position
current_read_error r = elim r.failure [
  | none ↦ set_offset (input_position r.input) (fresh ReadErrorCode.unknown)
  | some e ↦ e
]

-- return error().…;
unfoldable pub read_fails {ℓ} : {A : Type ℓ} → (ReadError → ReadError) → ReadM A
unfolding current_read_error
read_fails describe r = (record r { failure = some (describe (current_read_error r)) }, error)

module _ {ℓ} {A : Type ℓ} where
  -- if (step == read_status::error) { return in.error().…; }
  abbrev pub described_read : (ReadError → ReadError) → Reader × Outcome A → Reader × Outcome A
  described_read describe (r, done a) = (r, done a)
  described_read describe (r, error) = read_fails describe r
  described_read describe (r, length_error) = (r, length_error)
  described_read describe (r, out_of_fuel) = (r, out_of_fuel)

  abbrev pub describing_read : (ReadError → ReadError) → ReadM A → ReadM A
  describing_read describe m r = described_read describe (m r)

-- value = view[0] without consume(1)
unfoldable pub byte_of_view : List ℕ → ReadM ℕ
byte_of_view [] = read_fails (sized_error ReadErrorCode.truncated ReadStage.header 1 0)
byte_of_view (b ∷ _) = pure b

unfoldable pub peek_byte : ReadM ℕ
peek_byte r = byte_of_view (peek r.input 1) r

unfoldable pub consume_byte : ReadM (Unit {0})
consume_byte r = (record r { input = consume r.input 1 }, done tt)

unfoldable pub read_byte : ReadM ℕ
read_byte = peek_byte >>= λ value. consume_byte >>= λ _. pure value

-- The bytes of a window of exactly `size` bytes, which are consumed.
unfoldable pub read_window : ℕ → ReadM (List ℕ)
read_window size r =
    let view = peek r.input size in
    if length view == size
    then (record r { input = consume r.input size }, done view)
    else read_fails (sized_error ReadErrorCode.truncated ReadStage.raw_bytes size (length view)) r

-- The bytes that are copied to a destination, which may be null.
unfoldable pub read : Bool → ℕ → ReadM (List ℕ)
read is_null size r =
    if size == 0
    then (r, done [])
    else if is_null
    then read_fails (sized_error ReadErrorCode.invalid_size ReadStage.raw_bytes size 0) r
    else read_window size r

-- (header & 0x07u) + 1u
unfoldable pub payload_count : ℕ → ℕ
payload_count header = bit_and header 0x07 + 1

-- value = load_little_uint(payload.data(), byte_count); consume(1 + byte_count);
unfoldable pub read_payload : ℕ → List ℕ → ReadM ℕ
read_payload byte_count payload r =
    if ltb (length payload) byte_count
    then read_fails
        (sized_error ReadErrorCode.truncated ReadStage.raw_bytes byte_count (length payload)) r
    else (
      record r { input = consume r.input (1 + byte_count) },
      done (of_bytes (take byte_count payload)),
    )

-- A value that its header holds: consume(1)
abbrev pub read_small {ℓ} : {A : Type ℓ} → A → ReadM A
read_small value r = (record r { input = consume r.input 1 }, done value)

unfoldable pub read_uint_header : ℕ → List ℕ → ReadM ℕ
read_uint_header header payload =
    if leb header small_uint_max
    then read_small header
    else if bit_and header 0xf8 == int_payload_min
    then read_payload (payload_count header) payload
    else if leb header small_neg_max
    then read_fails (coded_error ReadErrorCode.invalid_integer ReadStage.integer)
    else if ltb int_payload_max header
    then read_fails (coded_error ReadErrorCode.invalid_header ReadStage.header)
    else read_fails (coded_error ReadErrorCode.invalid_integer ReadStage.integer)

unfoldable pub uint_of_view : List ℕ → ReadM ℕ
uint_of_view [] = read_fails (sized_error ReadErrorCode.truncated ReadStage.header 1 0)
uint_of_view (header ∷ payload) = read_uint_header header payload

unfoldable pub read_uint : ReadM ℕ
read_uint r = uint_of_view (peek r.input 9) r

-- `-static_cast<std::int64_t>(magnitude)`, and the minimum where the magnitude is 2 ^ 63
unfoldable pub negated : ℕ → ℤ
negated magnitude = if magnitude == 0 then ℤ.pos 0 else ℤ.negsuc (magnitude - 1)

-- A magnitude that a std::int64_t has no room for is refused before it is consumed.
unfoldable pub read_signed : ℕ → ℕ → List ℕ → ReadM ℤ
read_signed header byte_count payload r =
    let magnitude = of_bytes (take byte_count payload) in
    if ltb (length payload) byte_count
    then read_fails
        (sized_error ReadErrorCode.truncated ReadStage.raw_bytes byte_count (length payload)) r
    else if bit_and header int_payload_sign == 0
    then if ltb (2 ^ 63 - 1) magnitude
      then read_fails (coded_error ReadErrorCode.invalid_integer ReadStage.integer) r
      else (record r { input = consume r.input (1 + byte_count) }, done (ℤ.pos magnitude))
    else if ltb (2 ^ 63) magnitude
    then read_fails (coded_error ReadErrorCode.invalid_integer ReadStage.integer) r
    else (record r { input = consume r.input (1 + byte_count) }, done (negated magnitude))

unfoldable pub read_int_header : ℕ → List ℕ → ReadM ℤ
read_int_header header payload =
    if leb header small_uint_max
    then read_small (ℤ.pos header)
    else if leb header small_neg_max
    then read_small (ℤ.negsuc (header - small_neg_min))
    else if ltb int_payload_max header
    then read_fails (coded_error ReadErrorCode.invalid_header ReadStage.header)
    else read_signed header (payload_count header) payload

unfoldable pub int_of_view : List ℕ → ReadM ℤ
int_of_view [] = read_fails (sized_error ReadErrorCode.truncated ReadStage.header 1 0)
int_of_view (header ∷ payload) = read_int_header header payload

unfoldable pub read_int : ReadM ℤ
read_int r = int_of_view (peek r.input 9) r

unfoldable pub bool_of : ℕ → ReadM Bool
bool_of header =
    if header == bool_false_header
    then pure false
    else if header == bool_true_header
    then pure true
    else read_fails (coded_error ReadErrorCode.invalid_header ReadStage.header)

unfoldable pub read_bool : ReadM Bool
read_bool = read_byte >>= bool_of

-- A header that must be the one given.
unfoldable pub expect_header : ℕ → ℕ → ReadM (Unit {0})
expect_header expected header =
    if header == expected
    then pure tt
    else read_fails (coded_error ReadErrorCode.invalid_header ReadStage.header)

unfoldable pub read_null : ReadM (Unit {0})
read_null = read_byte >>= expect_header null_header

-- `static_cast<unsigned char>(header - size_base(expected))`
unfoldable pub read_size_tail : ℕ → ValueKind → ReadM ℕ
read_size_tail header expected =
    let low = (header + 256 - size_base expected) % 256 in
    if ltb low sized_extended then pure low else read_uint

unfoldable pub size_of_header : ValueKind → ℕ → ReadM ℕ
size_of_header expected header =
    if is_sized_header header expected
    then read_size_tail header expected
    else read_fails (coded_error ReadErrorCode.invalid_header ReadStage.header)

unfoldable pub read_size_header : ValueKind → ReadM ℕ
read_size_header expected = read_byte >>= size_of_header expected

unfoldable pub read_little_uint : ℕ → ReadM ℕ
read_little_uint byte_count = read_window byte_count >>= λ bytes. pure (of_bytes bytes)

unfoldable pub read_float : ℕ → ReadStage → ℕ → ReadM ℕ
unfolding set_stage
read_float header stage byte_count = read_byte >>= expect_header header >>= λ _.
    describing_read (set_stage stage) (read_little_uint byte_count)

unfoldable pub read_float32 : ReadM ℕ
read_float32 = read_float float32_header ReadStage.float32 4

unfoldable pub read_float64 : ReadM ℕ
read_float64 = read_float float64_header ReadStage.float64 8

-- `resize(size)` and `reserve(size)` of a container with that `max_size()`
unfoldable pub check_max_size : ℕ → ℕ → ReadM (Unit {0})
check_max_size limit size r = if ltb limit size then (r, length_error) else (r, done tt)
