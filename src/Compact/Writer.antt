-- ===== src/Compact/Writer.antt =====
-- `writer` of compact.hpp over a `window_output`: `error`, the bytes, the integers, the headers and the
-- floating-point numbers, which are given by their bits.
use Prim.Native.Nat.{bit_or}
use contract.Prelude.{
  ℕ, ◌+◌, ◌-◌, Bool, true, false, Option, none, some, List, [], ◌∷◌, leb, ◌==◌, if◌then◌else◌,
  length, take, to_bytes, ℤ,
}
use contract.Error.{AdapterError, fresh, set_offset}
use contract.Io.Window.{WindowOutput, prepare, fill, commit, output_position}
use contract.Compact.Codes.{ValueKind, WriteErrorCode, WriteStage, coded_error, sized_error}
use contract.Compact.Headers.{
  small_uint_max, small_neg_min, int_payload_min, int_payload_sign, sized_inline_max,
  sized_extended, bool_false_header, bool_true_header, null_header, float32_header, float64_header,
  size_base, compact_byte_count,
}

pub data Status : Type 0 where
  ok error : Status

abbrev pub WriteError : Type 0
WriteError = AdapterError WriteErrorCode WriteStage

pub record Writer : Type 0 where
  pub out : WindowOutput
  pub failure : Option WriteError

-- The private `error()`: a new error has the position as its offset.
unfoldable pub current_write_error : Writer → WriteError
unfolding set_offset output_position
current_write_error w = elim w.failure [
  | none ↦ set_offset (output_position w.out) (fresh WriteErrorCode.unknown)
  | some e ↦ e
]

-- return error().…;
unfoldable pub write_fails : (WriteError → WriteError) → Writer → Writer × Status
unfolding current_write_error
write_fails describe w = (record w { failure = some (describe (current_write_error w)) }, error)

-- if (step == write_status::error) { return write_status::error; } rest
abbrev pub next_write : (Writer → Writer × Status) → Writer × Status → Writer × Status
next_write k (w, ok) = k w
next_write k (w, error) = (w, error)

infixr 5 ◌⟫◌
abbrev pub ◌⟫◌ : (Writer → Writer × Status) → (Writer → Writer × Status) → Writer → Writer × Status
◌⟫◌ m k w = next_write k (m w)

-- if (step == write_status::error) { return out.error().…; }
abbrev pub described_write : (WriteError → WriteError) → Writer × Status → Writer × Status
described_write describe (w, ok) = (w, ok)
described_write describe (w, error) = write_fails describe w

abbrev pub describing_write :
    (WriteError → WriteError) → (Writer → Writer × Status) → Writer → Writer × Status
describing_write describe m w = described_write describe (m w)

abbrev pub write_ok : Writer → Writer × Status
write_ok w = (w, ok)

-- Bytes into a window that holds just as many.
unfoldable pub write_window : WriteStage → List ℕ → Writer → Writer × Status
write_window stage bytes w =
    let size = length bytes in
    if prepare w.out size == size
    then (record w { out = commit (fill w.out bytes) size }, ok)
    else write_fails (sized_error WriteErrorCode.output_error stage size (prepare w.out size)) w

-- A `const void*` is none if it is null, and else the bytes that stand there.
unfoldable pub write : Option (List ℕ) → ℕ → Writer → Writer × Status
write source size w = if size == 0 then (w, ok) else elim source [
  | none ↦ write_fails (sized_error WriteErrorCode.invalid_size WriteStage.raw_bytes size 0) w
  | some bytes ↦ write_window WriteStage.raw_bytes (take size bytes) w
]

unfoldable pub write_byte : ℕ → Writer → Writer × Status
write_byte value = write (some (value ∷ [])) 1

-- The stage of a header whose value finds no room.
unfoldable pub header_stage : ℕ → WriteStage
header_stage header =
    if header == float32_header
    then WriteStage.float32
    else if header == float64_header
    then WriteStage.float64
    else WriteStage.raw_bytes

-- A header and the `byte_count` low bytes of a number, in one window.
unfoldable pub write_little_uint : ℕ → ℕ → ℕ → Writer → Writer × Status
write_little_uint header value byte_count =
    write_window (header_stage header) (header ∷ to_bytes byte_count value)

-- int_payload_min | (negative ? int_payload_sign : 0u) | (byte_count - 1u)
unfoldable pub payload_header : Bool → ℕ → ℕ
payload_header negative byte_count =
    bit_or (bit_or int_payload_min (if negative then int_payload_sign else 0)) (byte_count - 1)

unfoldable pub write_integer_payload : Bool → ℕ → Writer → Writer × Status
write_integer_payload negative magnitude =
    let byte_count = compact_byte_count magnitude in
    write_little_uint (payload_header negative byte_count) magnitude byte_count

unfoldable pub write_uint : ℕ → Writer → Writer × Status
write_uint value =
    if leb value small_uint_max then write_byte value else write_integer_payload false value

-- The magnitude of -1 - n is n + 1.
unfoldable pub write_int : ℤ → Writer → Writer × Status
write_int (ℤ.pos n) = write_uint n
write_int (ℤ.negsuc n) =
    let magnitude = n + 1 in
    if leb magnitude 16
    then write_byte (small_neg_min + (magnitude - 1))
    else write_integer_payload true magnitude

unfoldable pub write_bool : Bool → Writer → Writer × Status
write_bool value = write_byte (if value then bool_true_header else bool_false_header)

unfoldable pub write_null : Writer → Writer × Status
write_null = write_byte null_header

unfoldable pub write_size_header : ValueKind → ℕ → Writer → Writer × Status
write_size_header kind size =
    let base = size_base kind in
    if base == 0
    then write_fails (coded_error WriteErrorCode.unsupported_operation WriteStage.header)
    else if leb size sized_inline_max
    then write_byte (base + size)
    else (write_byte (base + sized_extended) ⟫ write_uint size)

unfoldable pub write_float32 : ℕ → Writer → Writer × Status
write_float32 bits = write_little_uint float32_header bits 4

unfoldable pub write_float64 : ℕ → Writer → Writer × Status
write_float64 bits = write_little_uint float64_header bits 8
