-- ===== src/Io/Byte.antt =====
-- include/contract/io/byte.hpp: `output`, `checked_output`, `input` and `checked_input`.
-- A pointer into a range is the split of the range that it makes: the bytes behind it and those up
-- to the end. An unchecked cursor knows no end: its memory has none. A `const void*` is `none` if
-- it is null, and else the bytes that stand there. The asserts are those of a release build.
pub mod Laws
use contract.Prelude.{
  ℕ, zero, suc, ◌+◌, Bool, true, false, Option, none, some, List, [], ◌∷◌, ◌++◌, ltb, ◌==◌,
  if◌then◌else◌, length, take, drop,
}

-- `current_` stands at the end of `written`.
pub record Output : Type 0 where
  pub written : List ℕ

-- `current_` stands between `written` and `free`, and `end_` behind `free`. Null pointers are an
-- empty range.
pub record CheckedOutput : Type 0 where
  pub written : List ℕ
  pub free : List ℕ

-- Every address can be read.
pub record Input : Type 0 where
  pub memory : ℕ → ℕ
  pub current : ℕ

-- `current_` has moved by `consumed`, and `rest` is what stands from there to `end_`.
pub record CheckedInput : Type 0 where
  pub consumed : ℕ
  pub rest : List ℕ

-- memcpy(current_, data, size); current_ += size; return size;
copy_out : Output → List ℕ → ℕ → Output × ℕ
copy_out o bytes size = (record { written = o.written ++ take size bytes }, size)

unfoldable pub output_write : Output → Option (List ℕ) → ℕ → Output × ℕ
unfolding copy_out
output_write o source size =
    if size == 0 then (o, 0) else elim source [ none ↦ (o, 0) | some bytes ↦ copy_out o bytes size ]

unfoldable pub available_size : CheckedOutput → ℕ
available_size o = length o.free

copy_checked : CheckedOutput → List ℕ → ℕ → CheckedOutput × ℕ
copy_checked o bytes size =
    (record { written = o.written ++ take size bytes; free = drop size o.free }, size)

unfoldable pub checked_write : CheckedOutput → Option (List ℕ) → ℕ → CheckedOutput × ℕ
unfolding copy_checked available_size
checked_write o source size = if size == 0 then (o, 0) else elim source [
  | none ↦ (o, 0)
  | some bytes ↦ if ltb (available_size o) size then (o, 0) else copy_checked o bytes size
]

-- The bytes at `size` addresses from `at` on.
unfoldable pub bytes_at : (ℕ → ℕ) → ℕ → ℕ → List ℕ
bytes_at memory at zero = []
bytes_at memory at (suc size) = memory at ∷ bytes_at memory (at + 1) size

-- A view is the bytes that the returned pointer shows; `none` is the null pointer.
unfoldable pub input_read_view : Input → ℕ → Input × Option (List ℕ)
unfolding bytes_at
input_read_view i size =
    if size == 0
    then (i, some [])
    else (record i { current = i.current + size }, some (bytes_at i.memory i.current size))

unfoldable pub checked_read_view : CheckedInput → ℕ → CheckedInput × Option (List ℕ)
checked_read_view i size =
    if size == 0
    then (i, some [])
    else if ltb (length i.rest) size
    then (i, none)
    else (record { consumed = i.consumed + size; rest = drop size i.rest }, some (take size i.rest))

-- What `read` leaves in `out`: the bytes copied, and `size`, or nothing, and 0.
unfoldable pub copied {ℓ} : {I : Type ℓ} → I × Option (List ℕ) → ℕ → I × List ℕ × ℕ
copied (i, none) size = (i, [], 0)
copied (i, some bytes) size = (i, bytes, size)

-- `is_null` says that `out` is the null pointer.
unfoldable pub input_read : Input → Bool → ℕ → Input × List ℕ × ℕ
unfolding input_read_view copied
input_read i is_null size =
    if size == 0
    then (i, [], 0)
    else if is_null
    then (i, [], 0)
    else copied (input_read_view i size) size

unfoldable pub checked_read : CheckedInput → Bool → ℕ → CheckedInput × List ℕ × ℕ
unfolding checked_read_view copied
checked_read i is_null size =
    if size == 0
    then (i, [], 0)
    else if is_null
    then (i, [], 0)
    else copied (checked_read_view i size) size
