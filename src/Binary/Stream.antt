-- ===== src/Binary/Stream.antt =====
-- The outputs and inputs that the binary writer and reader are built over: the cursors of io/byte.hpp
-- and the `encrypting_output` and `decrypting_input` of binary.hpp, which wrap another.
pub mod Sinks
pub mod Sources
use contract.Prelude.{
  ℕ, ◌+◌, ◌%◌, Bool, Option, none, some, List, [], ◌==◌, if◌then◌else◌, take, word,
}
use contract.Io.Byte.{
  Output, CheckedOutput, Input, CheckedInput, output_write, checked_write, input_read_view,
  checked_read_view, input_read, checked_read,
}
use contract.Binary.Cipher.{Key, scramble}

-- `encrypting out key offset` has the members `out_`, `key_` and `offset_`; `scratch_` is only a
-- buffer for one call.
pub data Sink : Type 0 where
  plain : Output → Sink
  checked : CheckedOutput → Sink
  encrypting : Sink → Key → ℕ → Sink

pub data Source : Type 0 where
  plain : Input → Source
  checked : CheckedInput → Source
  decrypting : Source → Key → ℕ → Source

-- `out_->write(scratch_.data(), size)`, after which `offset_` has moved on.
unfoldable pub sink_write : Sink → Option (List ℕ) → ℕ → Sink × ℕ
unfolding output_write checked_write
sink_write (plain o) source size = let (o', n) = output_write o source size in (plain o', n)
sink_write (checked o) source size = let (o', n) = checked_write o source size in (checked o', n)
sink_write (encrypting s key offset) none size = (encrypting s key offset, 0)
sink_write (encrypting s key offset) (some bytes) size =
    let (s', n) = sink_write s (some (scramble key offset 0 (take size bytes))) size in
    if size == 0
    then (encrypting s key offset, 0)
    else (encrypting s' key ((offset + size) % word), n)

-- What `read_view` of a `decrypting_input` makes of the view that it was given.
unfoldable pub decrypted_view : Key → ℕ → ℕ → Source × Option (List ℕ) → Source × Option (List ℕ)
decrypted_view key offset size (s, none) = (decrypting s key offset, none)
decrypted_view key offset size (s, some bytes) =
    (decrypting s key ((offset + size) % word), some (scramble key offset 0 bytes))

unfoldable pub source_read_view : Source → ℕ → Source × Option (List ℕ)
unfolding input_read_view checked_read_view decrypted_view
source_read_view (plain i) size = let (i', v) = input_read_view i size in (plain i', v)
source_read_view (checked i) size = let (i', v) = checked_read_view i size in (checked i', v)
source_read_view (decrypting s key offset) size =
    let (s', v) = source_read_view s size in
    if size == 0 then (decrypting s' key offset, v) else decrypted_view key offset size (s', v)

-- The bytes left in `out`, and the count that is returned.
unfoldable pub viewed : Source × Option (List ℕ) → ℕ → Source × List ℕ × ℕ
viewed (s, none) size = (s, [], 0)
viewed (s, some bytes) size = (s, bytes, size)

unfoldable pub source_read : Source → Bool → ℕ → Source × List ℕ × ℕ
unfolding input_read checked_read source_read_view viewed
source_read (plain i) is_null size =
    let (i', bytes, n) = input_read i is_null size in (plain i', bytes, n)
source_read (checked i) is_null size =
    let (i', bytes, n) = checked_read i is_null size in (checked i', bytes, n)
source_read (decrypting s key offset) is_null size =
    if size == 0
    then (decrypting s key offset, [], 0)
    else if is_null
    then (decrypting s key offset, [], 0)
    else viewed (source_read_view (decrypting s key offset) size) size
