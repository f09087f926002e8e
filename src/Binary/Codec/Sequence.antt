-- ===== src/Binary/Codec/Sequence.antt =====
-- The element loops of binary/vector.hpp and binary/array.hpp, and the bulk copy of raw elements.
pub mod Laws
use contract.Prelude.{
  ℕ, zero, suc, ◌+◌, ◌*◌, ◌%◌, List, [], ◌∷◌, ◌++◌, Option, none, some, length, take, drop,
  to_bytes, of_bytes, word,
}
use contract.Binary.Codes.{ReadStage}
use contract.Binary.Writer.{Writer, Status, ◌⟫◌, describing_write, container_write_error, write_ok}
use contract.Binary.Reader.{ReadM, pure, ◌>>=◌, describing_read, element_read_error}
use contract.Binary.Codec.{Codec}

module _ {A : Type 0} (c : Codec A) (total : ℕ) where
  -- The element at `index`, whose error is told its place.
  unfoldable pub write_item : ℕ → A → Writer → Writer × Status
  write_item index item = describing_write (container_write_error index total) (c.write none item)

  -- for (i = index; …; ++i) { if (out.write_value(value[i]) == write_status::error) {…} }
  unfoldable pub write_items : ℕ → List A → Writer → Writer × Status
  unfolding write_item
  write_items index [] = write_ok
  write_items index (item ∷ items) = write_item index item ⟫ write_items (index + 1) items

  unfoldable pub read_item : ℕ → A → ReadM A
  read_item index old =
      describing_read (element_read_error ReadStage.container index total) (c.read none old)

  -- for (i = index; i < size; ++i) { T item{}; … value.push_back(std::move(item)); }
  unfoldable pub read_items : ℕ → ℕ → ReadM (List A)
  unfolding read_item
  read_items index zero = pure []
  read_items index (suc left) = read_item index c.initial >>= λ item.
      read_items (index + 1) left >>= λ items. pure (item ∷ items)

-- The memory of `count` elements of `element_size` bytes each, and the elements that bytes make up.
unfoldable pub raw_bytes : ℕ → List ℕ → List ℕ
raw_bytes element_size [] = []
raw_bytes element_size (x ∷ xs) = to_bytes element_size x ++ raw_bytes element_size xs

unfoldable pub raw_items : ℕ → ℕ → List ℕ → List ℕ
raw_items element_size zero bytes = []
raw_items element_size (suc count) bytes =
    of_bytes (take element_size bytes) ∷ raw_items element_size count (drop element_size bytes)

-- `count * sizeof(T)` as a `std::size_t`
unfoldable pub byte_count : ℕ → ℕ → ℕ
byte_count count element_size = count * element_size % word
