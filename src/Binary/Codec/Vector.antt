-- ===== src/Binary/Codec/Vector.antt =====
-- binary/vector.hpp: `codec<std::vector<T>>`, for raw elements of `element_size` bytes and for
-- elements with a codec of their own, of `sizeof(T) == element_size`.
pub mod Laws
use contract.Prelude.{
  ℕ, zero, suc, ◌+◌, ◌*◌, ◌/◌, ◌%◌, ◌^◌, ◌≤◌, ◌<◌, ◌≡◌, refl, sym, ap, ◌∙◌, Bool, false, Option,
  none, List, [], ◌∷◌, ◌++◌, arith, ◌==◌, suc-==-zero, if◌then◌else◌, length, some, All, All-append,
  IsByte, to_bytes, to_bytes-IsByte,
}
use contract.Binary.Codes.{WriteErrorCode, ReadErrorCode}
use contract.Binary.Cipher.{Key, IsKey}
use contract.Binary.Stream.Sinks.{HasRoom, push}
use contract.Binary.Stream.Sources.{Holds, advance}
use contract.Binary.Writer.{
  Writer, Status, Descriptor, ◌⟫◌, write_ok, write_raw, write_size, check_write_limit,
}
use contract.Binary.Reader.{
  Reader, ReadM, pure, ◌>>=◌, ◌>>◌, max_size, check_max_size, read_raw, read_size, check_read_limit,
}
use contract.Binary.Codec.{Codec}
use contract.Binary.Codec.Laws.{
  IsCodec, Writes, Reads, Within, Writes-limit_then, Reads-limit_then, Writes-size_then,
  Reads-size_then, Reads-max_size_then, Writes-raw, Reads-raw, wrote, took,
}
use contract.Binary.Codec.Sequence.{write_items, read_items, raw_bytes, raw_items, byte_count}
use contract.Binary.Codec.Sequence.Laws.{
  encode_items, Writes-items, Reads-items, Reads-map, items-IsByte, length-raw_bytes,
  raw_bytes-IsByte, raw_items-raw_bytes,
}

module _ (element_size : ℕ) where
  -- if (!value.empty()) { return out.write(value.data(), value.size() * sizeof(T)); }
  unfoldable pub write_raw_body : List ℕ → Writer → Writer × Status
  unfolding byte_count raw_bytes
  write_raw_body value =
      if length value == 0
      then write_ok
      else write_raw (some (raw_bytes element_size value)) (byte_count (length value) element_size)

  unfoldable pub write_raw_vector : Option Descriptor → List ℕ → Writer → Writer × Status
  unfolding write_raw_body
  write_raw_vector d value =
      check_write_limit WriteErrorCode.max_items_exceeded (λ f. f.max_items) d (length value)
      ⟫ check_write_limit WriteErrorCode.max_bytes_exceeded (λ f. f.max_bytes) d
          (byte_count (length value) element_size)
      ⟫ write_size (length value)
      ⟫ write_raw_body value

  -- The elements that `resize` made, overwritten.
  unfoldable pub read_raw_elements : ℕ → ReadM (List ℕ)
  unfolding byte_count raw_items
  read_raw_elements size =
      if size == 0
      then pure []
      else (read_raw false (byte_count size element_size) >>= λ bytes.
          pure (raw_items element_size size bytes))

  unfoldable pub read_raw_body : ℕ → ReadM (List ℕ)
  unfolding read_raw_elements
  read_raw_body size = check_max_size (max_size element_size) size >> read_raw_elements size

  unfoldable pub read_raw_max_bytes : Option Descriptor → ℕ → ReadM (List ℕ)
  unfolding read_raw_body byte_count
  read_raw_max_bytes d size =
      check_read_limit ReadErrorCode.max_bytes_exceeded (λ f. f.max_bytes) d
        (byte_count size element_size)
      >> read_raw_body size

  unfoldable pub read_raw_max_items : Option Descriptor → ℕ → ReadM (List ℕ)
  unfolding read_raw_max_bytes
  read_raw_max_items d size =
      check_read_limit ReadErrorCode.max_items_exceeded (λ f. f.max_items) d size
      >> read_raw_max_bytes d size

  unfoldable pub raw_vector : Codec (List ℕ)
  unfolding write_raw_vector read_raw_max_items
  raw_vector = record {
    write = write_raw_vector;
    read = λ d old. read_size >>= read_raw_max_items d;
    initial = [];
  }

module _ {A : Type 0} (c : Codec A) (element_size : ℕ) where
  unfoldable pub write_vector : Option Descriptor → List A → Writer → Writer × Status
  write_vector d value =
      check_write_limit WriteErrorCode.max_items_exceeded (λ f. f.max_items) d (length value)
      ⟫ write_size (length value)
      ⟫ write_items c (length value) 0 value

  -- `value.reserve(size)` and the loop.
  unfoldable pub read_vector_body : ℕ → ReadM (List A)
  read_vector_body size = check_max_size (max_size element_size) size >> read_items c size 0 size

  unfoldable pub read_vector_max_items : Option Descriptor → ℕ → ReadM (List A)
  unfolding read_vector_body
  read_vector_max_items d size =
      check_read_limit ReadErrorCode.max_items_exceeded (λ f. f.max_items) d size
      >> read_vector_body size

  unfoldable pub vector : Codec (List A)
  unfolding write_vector read_vector_max_items
  vector = record {
    write = write_vector;
    read = λ d old. read_size >>= read_vector_max_items d;
    initial = [];
  }
