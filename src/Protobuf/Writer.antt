-- ===== src/Protobuf/Writer.antt =====
-- `writer` of protobuf.hpp: `error`, `write_bytes`, `write_varint`, `write_tag` and the fixed-size
-- values, over a `window_output` or the `counting_output` that measures.
use Prim.Native.Nat.{bit_and, bit_or}
use contract.Prelude.{
  ℕ, zero, suc, ◌+◌, ◌-◌, ◌*◌, ◌/◌, ◌%◌, ◌^◌, Option, none, some, List, [], ◌∷◌, ◌==◌, ltb,
  if◌then◌else◌, length, take, drop, word,
}
use contract.Io.Window.{WindowOutput, prepare, fill, commit, output_position}
use contract.Protobuf.Codes.{
  WireType, wire_value, WireError, WriteErrorCode, WriteStage, new_error, sized_error, staged_error,
  set_field_number, keep_wire,
}
use contract.Protobuf.Varint.{varint_bytes}

pub data Status : Type 0 where
  ok error : Status

abbrev pub WriteError : Type 0
WriteError = WireError WriteErrorCode WriteStage

-- `counting_output` has only its `position_`.
pub data Target : Type 0 where
  window : WindowOutput → Target
  counting : ℕ → Target

pub record Writer : Type 0 where
  pub out : Target
  pub failure : Option WriteError

unfoldable pub target_position : Target → ℕ
unfolding output_position
target_position (Target.window o) = output_position o
target_position (Target.counting n) = n

unfoldable pub current_write_error : Writer → WriteError
unfolding new_error target_position
current_write_error w = elim w.failure [
  | none ↦ new_error WriteErrorCode.unknown (target_position w.out)
  | some e ↦ e
]

unfoldable pub write_fails : (WriteError → WriteError) → Writer → Writer × Status
unfolding current_write_error
write_fails describe w = (record w { failure = some (describe (current_write_error w)) }, error)

-- The value of bit_width(value | 1) where a std::uint64_t has 64 bits: `64 - countl_zero(value | 1)`.
unfoldable pub bit_width : ℕ → ℕ → ℕ
bit_width zero v = 0
bit_width (suc bits) v = let rest = bit_width bits (v / 2) in if v == 0 then 0 else suc rest

unfoldable pub varint_byte_count : ℕ → ℕ
unfolding bit_width
varint_byte_count value = (bit_width 64 (bit_or value 1) + 6) / 7

-- memcpy(window.data(), bytes + written, window.size()); out_.commit(window.size());
unfoldable pub store_window : WindowOutput → List ℕ → ℕ → WindowOutput
store_window o rest n = commit (fill o (take n rest)) n

-- while (written != size) {…} with `rest` still to write: each window that is lent holds a byte at
-- least, so `length rest` rounds are enough.
unfoldable pub write_windows : ℕ → ℕ → WindowOutput → List ℕ → WindowOutput × Option ℕ
write_windows zero size o rest = (o, none)
write_windows (suc fuel) size o [] = (o, none)
write_windows (suc fuel) size o (b ∷ rest) =
    let n = prepare o (length (b ∷ rest)) in
    let later = write_windows fuel size (store_window o (b ∷ rest) n) (drop n (b ∷ rest)) in
    if n == 0 then (o, some (size - length (b ∷ rest))) else later

-- The loop's result: none, or the number of bytes written when no window was lent.
unfoldable pub windows_written : ℕ → Writer → WindowOutput × Option ℕ → Writer × Status
unfolding sized_error
windows_written size w (o, none) = (record w { out = Target.window o }, ok)
windows_written size w (o, some written) =
    write_fails (sized_error WriteErrorCode.output_error size written)
      (record w { out = Target.window o })

unfoldable pub write_bytes : List ℕ → Writer → Writer × Status
write_bytes bytes w = if length bytes == 0 then (w, ok) else elim w.out [
  | window o ↦
      windows_written (length bytes) w (write_windows (length bytes) (length bytes) o bytes)
  | counting n ↦ (record w { out = Target.counting ((n + length bytes) % word) }, ok)
]

-- Straight into the window when 10 bytes are free, which fit any varint; else through a buffer.
unfoldable pub write_varint_payload : ℕ → Writer → Writer × Status
write_varint_payload value w = elim w.out [
  | window o ↦ if ltb (prepare o 10) 10 then write_bytes (varint_bytes 10 value) w else (
    record w {
      out =
          Target.window (commit (fill o (varint_bytes 10 value)) (length (varint_bytes 10 value)));
    },
    ok,
  )
  | counting n ↦ (record w { out = Target.counting ((n + varint_byte_count value) % word) }, ok)
]

abbrev pub described_write : (WriteError → WriteError) → Writer × Status → Writer × Status
described_write describe (w, ok) = (w, ok)
described_write describe (w, error) = write_fails describe w

unfoldable pub write_varint : ℕ → Writer → Writer × Status
write_varint value w =
    described_write (staged_error WriteStage.varint) (write_varint_payload value w)

unfoldable pub tag_error : ℕ → WireType → WriteError → WriteError
unfolding staged_error set_field_number keep_wire
tag_error field_number type e =
    keep_wire type (set_field_number field_number (staged_error WriteStage.tag e))

-- (field_number << 3) | type
unfoldable pub tag_key : ℕ → WireType → ℕ
unfolding wire_value
tag_key field_number type = bit_or (field_number * 2 ^ 3) (wire_value type)

unfoldable pub write_tag : ℕ → WireType → Writer → Writer × Status
write_tag field_number type w =
    described_write (tag_error field_number type)
      (write_varint_payload (tag_key field_number type) w)

-- The bytes `(value >> 8 * i) & 0xff`, the lowest first.
unfoldable pub low_bytes : ℕ → ℕ → List ℕ
low_bytes zero value = []
low_bytes (suc n) value = bit_and value 0xff ∷ low_bytes n (value / 256)

unfoldable pub write_fixed32 : ℕ → Writer → Writer × Status
write_fixed32 value w =
    described_write (staged_error WriteStage.fixed32) (write_bytes (low_bytes 4 value) w)

unfoldable pub write_fixed64 : ℕ → Writer → Writer × Status
write_fixed64 value w =
    described_write (staged_error WriteStage.fixed64) (write_bytes (low_bytes 8 value) w)
