-- ===== src/Compact/Skip.antt =====
-- `skip_reader` of compact.hpp and `skip_value`: a value is passed over by its headers alone.
pub mod Headers
pub mod Laws
pub mod Ends
pub mod Terminates
use Prim.Native.Nat.{bit_and}
use contract.Prelude.{
  ℕ, zero, suc, ◌+◌, ◌-◌, ◌/◌, ◌%◌, Bool, true, false, ◌||◌, ltb, ◌==◌, if◌then◌else◌, length,
}
use contract.Error.{set_stage}
use contract.Compact.Codes.{ValueKind, ReadErrorCode, ReadStage, coded_error}
use contract.Compact.Headers.{
  sized_extended, bool_false_header, bool_true_header, null_header, float32_header, float64_header,
  size_base,
}
use contract.Compact.Reader.{
  Reader, Outcome, out_of_fuel, ReadM, pure, ◌>>=◌, read_fails, describing_read, read_byte, read,
  read_uint, payload_count,
}

abbrev pub exhausted : ReadM (Unit {0})
exhausted r = (r, out_of_fuel)

-- in_.read(scratch, chunk)
unfoldable pub skip_chunk : ℕ → ReadM (Unit {0})
unfolding set_stage
skip_chunk chunk = describing_read (set_stage ReadStage.skip) (read false chunk) >>= λ _. pure tt

-- while (size != 0) {…}: each round takes a byte at least, so `size + 1` rounds are enough.
unfoldable pub skip_chunks : ℕ → ℕ → ReadM (Unit {0})
skip_chunks zero size = exhausted
skip_chunks (suc fuel) size =
    let chunk = if ltb 64 size then 64 else size in
    let later = skip_chunk chunk >>= λ _. skip_chunks fuel (size - chunk) in
    if size == 0 then pure tt else later

unfoldable pub raw : ℕ → ReadM (Unit {0})
raw size = skip_chunks (suc size) size

unfoldable pub size_tail : ℕ → ValueKind → ReadM ℕ
size_tail header expected =
    let low = (header + 256 - size_base expected) % 256 in
    if ltb low sized_extended then pure low else read_uint

unfoldable pub sized_payload : ℕ → ValueKind → ReadM (Unit {0})
sized_payload header kind = size_tail header kind >>= raw

-- `read_one` is `read`, which these loops call.
module _ (read_one : ReadM (Unit {0})) where
  unfoldable pub item_values : ℕ → ReadM (Unit {0})
  item_values zero = pure tt
  item_values (suc n) = read_one >>= λ _. item_values n

  unfoldable pub items : ℕ → ℕ → ReadM (Unit {0})
  items values_per_item zero = pure tt
  items values_per_item (suc n) = item_values values_per_item >>= λ _. items values_per_item n

  unfoldable pub repeated : ℕ → ValueKind → ℕ → ReadM (Unit {0})
  repeated header kind values_per_item = size_tail header kind >>= items values_per_item

  unfoldable pub fields : ℕ → ReadM (Unit {0})
  fields zero = pure tt
  fields (suc n) = read_uint >>= λ _. read_one >>= λ _. fields n

  unfoldable pub object : ℕ → ReadM (Unit {0})
  object header = size_tail header ValueKind.object >>= fields

  -- The cases of the high nibble.
  unfoldable pub read_nibble : ℕ → ℕ → ReadM (Unit {0})
  unfolding coded_error
  read_nibble nibble header =
      if ltb nibble 5
      then pure tt
      else if nibble == 0x5
      then raw (payload_count header)
      else if nibble == 0x6
      then sized_payload header ValueKind.bytes
      else if nibble == 0x7
      then sized_payload header ValueKind.string
      else if nibble == 0x8
      then repeated header ValueKind.array 1
      else if nibble == 0x9
      then repeated header ValueKind.map 2
      else if nibble == 0xa
      then object header
      else if header == bool_false_header || header == bool_true_header || header == null_header
      then pure tt
      else if header == float32_header
      then raw 4
      else if header == float64_header
      then raw 8
      else read_fails (coded_error ReadErrorCode.invalid_header ReadStage.skip)

  -- switch (header >> 4): the nibbles 0xb and 0xc hold the exact headers that follow, and no other
  -- nibble has one of those.
  unfoldable pub read_from_header : ℕ → ReadM (Unit {0})
  read_from_header header = read_nibble (header / 16) header

-- read(): nested as deep as the fuel allows.
unfoldable pub read_skipping : ℕ → ReadM (Unit {0})
read_skipping zero = exhausted
read_skipping (suc fuel) = read_byte >>= read_from_header (read_skipping fuel)

-- A value takes a byte at least, so the bytes ahead bound how deep values can nest.
unfoldable pub skip_value : ReadM (Unit {0})
skip_value r = read_skipping (suc (length r.input.rest)) r
