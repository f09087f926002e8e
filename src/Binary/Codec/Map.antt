-- ===== src/Binary/Codec/Map.antt =====
-- binary/map.hpp: `codec<std::map<K, V, Compare, Allocator>>`: the number of entries as a
-- `std::size_t`, then key and mapped value of each, in the order of the keys.
pub mod Entries
pub mod Loop
pub mod Laws
use contract.Prelude.{
  ℕ, zero, suc, ◌+◌, ◌≡◌, Bool, true, false, Option, none, some, List, [], ◌∷◌, if◌then◌else◌,
  length, All,
}
use mathlib.Core.Option as Option
use contract.Error.{set_code, set_stage, set_element}
use contract.Binary.Codes.{WriteErrorCode, ReadErrorCode, ReadStage}
use contract.Binary.Writer.{Writer, Status, Descriptor, ◌⟫◌, write_size, check_write_limit}
use contract.Binary.Reader.{
  ReadM, ReadError, pure, ◌>>=◌, ◌>>◌, read_fails, read_size, check_read_limit,
}
use contract.Binary.Codec.{Codec}
use contract.Binary.Codec.Sequence.{write_items, read_item}

-- An entry is written and read as its key and its mapped value: `K key{}; V mapped{};`.
unfoldable pub entry : {K V : Type 0} → Codec K → Codec V → Codec (K × V)
entry key_codec mapped_codec = record {
  write = λ d e. key_codec.write none e.0 ⟫ mapped_codec.write none e.1;
  read = λ d old. key_codec.read none key_codec.initial >>= λ key.
      mapped_codec.read none mapped_codec.initial >>= λ mapped. pure (key, mapped);
  initial = (key_codec.initial, mapped_codec.initial);
}

unfoldable pub duplicate_key_error : ℕ → ℕ → ReadError → ReadError
unfolding set_code set_stage set_element
duplicate_key_error index total e =
    set_stage ReadStage.container (set_element index total (set_code ReadErrorCode.duplicate_key e))

module _ {K V : Type 0} (less : K → K → Bool) where
  -- `std::map::emplace` of a map kept as its entries in the order of `Compare`: `none` is
  -- `inserted == false`.
  unfoldable pub emplace : K × V → List (K × V) → Option (List (K × V))
  emplace e [] = some (e ∷ [])
  emplace e (f ∷ m) =
      let later = emplace e m in
      if less e.0 f.0
      then some (e ∷ f ∷ m)
      else if less f.0 e.0
      then Option.map (λ m'. f ∷ m') later
      else none

  -- The entries of a std::map are in strictly ascending order of the keys.
  abbrev pub Before : K × V → K × V → Type 0
  Before e f = (less e.0 f.0 ≡ true) × (less f.0 e.0 ≡ false)

  abbrev pub Sorted : List (K × V) → Type 0
  Sorted [] = Unit
  Sorted (e ∷ m) = All (Before e) m × Sorted m

module _ {K V : Type 0} (less : K → K → Bool) (key_codec : Codec K) (mapped_codec : Codec V) where
  -- What follows `emplace` in the loop.
  unfoldable pub emplaced :
      ℕ → ℕ → (List (K × V) → ReadM (List (K × V))) → Option (List (K × V)) → ReadM (List (K × V))
  emplaced index total loop none = read_fails (duplicate_key_error index total)
  emplaced index total loop (some m) = loop m

  -- for (i = index; i < size; ++i) {…} with `left` entries still to come, `m` being `value`.
  unfoldable pub read_entries : ℕ → ℕ → ℕ → List (K × V) → ReadM (List (K × V))
  unfolding entry emplace emplaced
  read_entries total index zero m = pure m
  read_entries total index (suc left) m =
      read_item (entry key_codec mapped_codec) total index (key_codec.initial, mapped_codec.initial)
      >>= λ e. emplaced index total (read_entries total (index + 1) left) (emplace less e m)

  unfoldable pub write_map : Option Descriptor → List (K × V) → Writer → Writer × Status
  unfolding entry
  write_map d value =
      check_write_limit WriteErrorCode.max_items_exceeded (λ f. f.max_items) d (length value)
      ⟫ write_size (length value)
      ⟫ write_items (entry key_codec mapped_codec) (length value) 0 value

  unfoldable pub read_map_entries : Option Descriptor → ℕ → ReadM (List (K × V))
  unfolding read_entries
  read_map_entries d size =
      check_read_limit ReadErrorCode.max_items_exceeded (λ f. f.max_items) d size
      >> read_entries size 0 size []

  unfoldable pub map : Codec (List (K × V))
  unfolding write_map read_map_entries
  map = record { write = write_map; read = λ d old. read_size >>= read_map_entries d; initial = [] }
