-- ===== src/Binary/Codec/Array.antt =====
-- binary/array.hpp: `codec<std::array<T, N>>` and `codec<T[Size]>`, which are the same code. There
-- is no size on the wire.
pub mod Laws
use contract.Prelude.{
  ℕ, zero, suc, ◌+◌, Bool, false, Option, none, some, List, [], ◌∷◌, ◌==◌, if◌then◌else◌, take,
  drop, of_bytes,
}
use contract.Binary.Codes.{WriteErrorCode, ReadErrorCode}
use contract.Binary.Writer.{Writer, Status, Descriptor, ◌⟫◌, write_ok, write_raw, check_write_limit}
use contract.Binary.Reader.{ReadM, pure, ◌>>=◌, ◌>>◌, read_raw, check_read_limit}
use contract.Binary.Codec.{Codec}
use contract.Binary.Codec.Sequence.{write_items, read_item, raw_bytes, byte_count}

-- The N elements, nested pairs.
abbrev pub Array : Type 0 → ℕ → Type 0
Array A zero = Unit
Array A (suc n) = A × Array A n

abbrev pub items_of : {A : Type 0} (n : ℕ) → Array A n → List A
items_of zero v = []
items_of (suc n) (x, xs) = x ∷ items_of n xs

abbrev pub filled : {A : Type 0} (n : ℕ) → A → Array A n
filled zero x = tt
filled (suc n) x = (x, filled n x)

-- The elements that bytes make up.
unfoldable pub array_of_bytes : ℕ → (n : ℕ) → List ℕ → Array ℕ n
array_of_bytes element_size zero bytes = tt
array_of_bytes element_size (suc n) bytes =
    (of_bytes (take element_size bytes), array_of_bytes element_size n (drop element_size bytes))

module _ (element_size n : ℕ) where
  -- if constexpr (N != 0) { return out.write(std::data(value), N * sizeof(T)); }
  unfoldable pub write_memory : Array ℕ n → Writer → Writer × Status
  unfolding byte_count
  write_memory value =
      if n == 0
      then write_ok
      else write_raw (some (raw_bytes element_size (items_of n value))) (byte_count n element_size)

  unfoldable pub read_memory : Array ℕ n → ReadM (Array ℕ n)
  unfolding byte_count
  read_memory old =
      if n == 0
      then pure old
      else (read_raw false (byte_count n element_size) >>= λ bytes.
          pure (array_of_bytes element_size n bytes))

  unfoldable pub read_array_max_bytes : Option Descriptor → Array ℕ n → ReadM (Array ℕ n)
  unfolding read_memory byte_count
  read_array_max_bytes d old =
      check_read_limit ReadErrorCode.max_bytes_exceeded (λ f. f.max_bytes) d
        (byte_count n element_size)
      >> read_memory old

  unfoldable pub raw_array : Codec (Array ℕ n)
  unfolding write_memory read_array_max_bytes byte_count
  raw_array = record {
    write = λ d value.
        check_write_limit WriteErrorCode.max_items_exceeded (λ f. f.max_items) d n
        ⟫ check_write_limit WriteErrorCode.max_bytes_exceeded (λ f. f.max_bytes) d
            (byte_count n element_size)
        ⟫ write_memory value;
    read = λ d old.
        check_read_limit ReadErrorCode.max_items_exceeded (λ f. f.max_items) d n
        >> read_array_max_bytes d old;
    initial = filled n 0;
  }

module _ {A : Type 0} (c : Codec A) (total : ℕ) where
  -- for (std::size_t i = 0; i < N; ++i) { if (in.read_value(value[i]) == read_status::error) {…} }
  unfoldable pub read_into : ℕ → (n : ℕ) → Array A n → ReadM (Array A n)
  read_into index zero old = pure tt
  read_into index (suc n) (old, olds) = read_item c total index old >>= λ item.
      read_into (index + 1) n olds >>= λ items. pure (item, items)

unfoldable pub array : {A : Type 0} → Codec A → (n : ℕ) → Codec (Array A n)
array c n = record {
  write = λ d value.
      check_write_limit WriteErrorCode.max_items_exceeded (λ f. f.max_items) d n
      ⟫ write_items c n 0 (items_of n value);
  read = λ d old.
      check_read_limit ReadErrorCode.max_items_exceeded (λ f. f.max_items) d n
      >> read_into c n 0 n old;
  initial = filled n c.initial;
}
