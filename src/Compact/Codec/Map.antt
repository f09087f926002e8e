-- ===== src/Compact/Codec/Map.antt =====
-- compact/map.hpp: `codec<std::map<K, V, Compare, Allocator>>`: a header with the number of entries, then
-- the key and the mapped value of each, in the order of the keys.
pub mod Laws
use contract.Prelude.{ℕ, zero, suc, ◌+◌, Bool, Option, none, some, List, [], ◌∷◌, length}
use contract.Compact.Codes.{ValueKind, ReadErrorCode, ReadStage, WriteStage}
use contract.Error.{set_code}
use contract.Compact.Writer.{Writer, Status, ◌⟫◌, write_ok, describing_write, write_size_header}
use contract.Compact.Reader.{
  ReadError, ReadM, pure, ◌>>=◌, read_fails, describing_read, read_size_header,
}
use contract.Compact.Codec.{
  Codec, Descriptor, outer_error, staged_error, element_error, check_write_limit, check_read_limit,
  check_size,
}
use contract.Binary.Codec.Map.{emplace}

module _ {K V : Type 0} (key_codec : Codec K) (mapped_codec : Codec V) (d : Option Descriptor)
    (total : ℕ) where
  -- out.write_value(item.first) == error || out.write_value(item.second) == error
  unfoldable pub write_entry : ℕ → K × V → Writer → Writer × Status
  write_entry index (key, mapped) =
      describing_write (element_error d WriteStage.map index total)
        (key_codec.write none key ⟫ mapped_codec.write none mapped)

  unfoldable pub write_entries : ℕ → List (K × V) → Writer → Writer × Status
  write_entries index [] = write_ok
  write_entries index (e ∷ es) = write_entry index e ⟫ write_entries (index + 1) es

  -- K key{}; V mapped{};
  unfoldable pub read_pair : ReadM (K × V)
  read_pair = key_codec.read none key_codec.initial >>= λ key.
      mapped_codec.read none mapped_codec.initial >>= λ mapped. pure (key, mapped)

  unfoldable pub read_entry : ℕ → ReadM (K × V)
  read_entry index = describing_read (element_error d ReadStage.map index total) read_pair

  unfoldable pub duplicate_error : ℕ → ReadError → ReadError
  unfolding set_code
  duplicate_error index e =
      element_error d ReadStage.map index total (set_code ReadErrorCode.duplicate_key e)

  -- `none` is `inserted == false`.
  unfoldable pub emplaced :
      ℕ → (List (K × V) → ReadM (List (K × V))) → Option (List (K × V)) → ReadM (List (K × V))
  emplaced index loop none = read_fails (duplicate_error index)
  emplaced index loop (some m) = loop m

  module _ (less : K → K → Bool) where
    -- for (i = index; i < count; ++i) {…} with `left` entries still to come, `m` being `value`
    unfoldable pub read_entries : ℕ → ℕ → List (K × V) → ReadM (List (K × V))
    read_entries index zero m = pure m
    read_entries index (suc left) m =
        read_entry index >>= λ e. emplaced index (read_entries (index + 1) left) (emplace less e m)

module _ {K V : Type 0} (less : K → K → Bool) (key_codec : Codec K) (mapped_codec : Codec V) where
  unfoldable pub write_map : Option Descriptor → List (K × V) → Writer → Writer × Status
  write_map d value =
      check_write_limit WriteStage.map d (length value)
      ⟫ describing_write (staged_error d WriteStage.map)
          (write_size_header ValueKind.map (length value))
      ⟫ write_entries key_codec mapped_codec d (length value) 0 value

  unfoldable pub read_count : ReadM ℕ
  read_count =
      describing_read (staged_error none ReadStage.map) (read_size_header ValueKind.map) >>= λ size.
      check_size none ReadStage.map size >>= λ _. pure size

  unfoldable pub read_counted : Option Descriptor → ℕ → ReadM (List (K × V))
  read_counted d count = check_read_limit ReadStage.map d count >>= λ _.
      read_entries key_codec mapped_codec d count less 0 count []

  unfoldable pub read_map : Option Descriptor → ReadM (List (K × V))
  read_map d = describing_read (outer_error d ReadStage.map) read_count >>= read_counted d

  unfoldable pub map : Codec (List (K × V))
  map = record { write = write_map; read = λ d old. read_map d; initial = [] }
