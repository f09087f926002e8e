-- ===== src/Protobuf/Reader.antt =====
-- `reader` of protobuf.hpp: `error`, `read_varint`, `read_tag`, `read_view` and the fixed-size values,
-- over a `window_input`. A method returns the reader after it and its outcome.
use Prim.Native.Nat.{bit_and}
use contract.Prelude.{
  ℕ, ◌/◌, ◌%◌, ◌^◌, Option, none, some, List, [], ◌==◌, ltb, if◌then◌else◌, length, of_bytes,
}
use contract.Io.Window.{WindowInput, peek, consume, input_position}
use contract.Protobuf.Codes.{
  WireType, wire_of, WireError, ReadErrorCode, ReadStage, new_error, sized_error,
}
use contract.Protobuf.Varint.{scan_varint}

-- `out_of_fuel` is no outcome of the code: Message.Terminates shows that it never comes.
pub data Outcome (A : Type 0) : Type 0 where
  done : A → Outcome A
  error : Outcome A
  out_of_fuel : Outcome A

abbrev pub ReadError : Type 0
ReadError = WireError ReadErrorCode ReadStage

pub record Reader : Type 0 where
  pub input : WindowInput
  pub failure : Option ReadError

abbrev pub ReadM : Type 0 → Type 0
ReadM A = Reader → Reader × Outcome A

module _ {A B : Type 0} where
  abbrev pub next_read : (A → ReadM B) → Reader × Outcome A → Reader × Outcome B
  next_read k (r, done a) = k a r
  next_read k (r, error) = (r, error)
  next_read k (r, out_of_fuel) = (r, out_of_fuel)

  infixl 5 ◌>>=◌
  abbrev pub ◌>>=◌ : ReadM A → (A → ReadM B) → ReadM B
  ◌>>=◌ m k r = next_read k (m r)

abbrev pub pure : {A : Type 0} → A → ReadM A
pure a r = (r, done a)

-- The private `error()`: a new error has the position as its offset.
unfoldable pub current_read_error : Reader → ReadError
unfolding new_error input_position
current_read_error r = elim r.failure [
  | none ↦ new_error ReadErrorCode.unknown (input_position r.input)
  | some e ↦ e
]

unfoldable pub read_fails : {A : Type 0} → (ReadError → ReadError) → ReadM A
unfolding current_read_error
read_fails describe r = (record r { failure = some (describe (current_read_error r)) }, error)

-- What follows the loop of `read_varint`.
unfoldable pub scanned : ℕ → Reader → Option (ℕ × ℕ) → Reader × Outcome ℕ
scanned size r (some (value, count)) = (record r { input = consume r.input count }, done value)
scanned size r none =
    if ltb size 10
    then read_fails (sized_error ReadErrorCode.truncated 10 size) r
    else read_fails (sized_error ReadErrorCode.invalid_varint 10 10) r

unfoldable pub read_varint : ReadM ℕ
read_varint r =
    let window = peek r.input 10 in
    if length window == 0
    then read_fails (sized_error ReadErrorCode.truncated 10 0) r
    else scanned (length window) r (scan_varint window 0 0 0)

-- The field number is cut to 32 bits.
unfoldable pub parse_tag : ℕ → ℕ × WireType
unfolding wire_of
parse_tag key = (key / 8 % 2 ^ 32, wire_of (bit_and key 0x7))

unfoldable pub read_tag : ReadM (ℕ × WireType)
read_tag = read_varint >>= λ key. pure (parse_tag key)

-- The bytes of a window of exactly `size` bytes.
unfoldable pub view_whole : ℕ → Reader → List ℕ → Reader × Outcome (List ℕ)
view_whole size r window =
    if length window == size
    then (record r { input = consume r.input size }, done window)
    else read_fails (sized_error ReadErrorCode.truncated size (length window)) r

unfoldable pub read_view : ℕ → ReadM (List ℕ)
read_view size r = if size == 0 then (r, done []) else view_whole size r (peek r.input size)

-- `memcpy` to a std::uint32_t and a std::uint64_t
unfoldable pub read_fixed32 : ReadM ℕ
read_fixed32 = read_view 4 >>= λ bytes. pure (of_bytes bytes)

unfoldable pub read_fixed64 : ReadM ℕ
read_fixed64 = read_view 8 >>= λ bytes. pure (of_bytes bytes)
