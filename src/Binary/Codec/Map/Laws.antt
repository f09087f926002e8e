-- ===== src/Binary/Codec/Map/Laws.antt =====
-- Maps that are written and read back, and the key that comes twice.
use native.Mathlib.Nat.{zero-add, add-zero}
use contract.Prelude.{
  ℕ, suc, ◌+◌, ◌^◌, ◌<◌, ◌≡◌, sym, ap, ◌∙◌, Bool, false, Option, none, List, [], ◌∷◌, ◌++◌, length,
  length-append, All, All-append, IsByte, to_bytes, to_bytes-IsByte,
}
use contract.Binary.Codes.{WriteErrorCode, ReadErrorCode}
use contract.Binary.Cipher.{Key}
use contract.Binary.Stream.Sinks.{HasRoom}
use contract.Binary.Stream.Sources.{Holds, Holds-append, advance, advance-add}
use contract.Binary.Writer.{Writer, Descriptor, ◌⟫◌, write_size}
use contract.Binary.Reader.{Reader, ReadM, ◌>>=◌, read_fails, read_size}
use contract.Binary.Codec.{Codec}
use contract.Binary.Codec.Laws.{
  IsCodec, Writes, Reads, Within, Writes-limit_then, Reads-limit_then, Writes-size_then,
  Reads-size_then, wrote, took,
}
use contract.Binary.Codec.Sequence.{write_items}
use contract.Binary.Codec.Sequence.Laws.{encode_items, Writes-items, items-IsByte}
use contract.Binary.Codec.Map.{
  entry, emplaced, Sorted, duplicate_key_error, read_entries, read_map_entries, write_map, map,
}
use contract.Binary.Codec.Map.Entries.{emplace-known}
use contract.Binary.Codec.Map.Loop.{
  read_entries-step, read_entries-Sorted, read_entries-done, emplaced-none,
}

abbrev pub encode_map :
    {K V : Type 0} → (Key → Bool → K × V → List ℕ) → Key → Bool → List (K × V) → List ℕ
encode_map encode key active m = to_bytes 8 (length m) ++ encode_items encode key active m

pub record FitsMap {K V : Type 0} (less : K → K → Bool) (Fits : Option Descriptor → K × V → Type 0)
    (d : Option Descriptor) (m : List (K × V)) : Type 0 where
  pub sorted : Sorted less m
  pub items : All (Fits none) m
  pub size : length m < 2 ^ 64
  pub max_items : Within (λ f. f.max_items) d (length m)

module _ {K V : Type 0} (less : K → K → Bool) (key_codec : Codec K) (mapped_codec : Codec V)
    (encode : Key → Bool → K × V → List ℕ) (Fits : Option Descriptor → K × V → Type 0)
    (law : IsCodec (entry key_codec mapped_codec) encode Fits) where
  abbrev bytes_of : Reader → List (K × V) → List ℕ
  bytes_of r m = encode_items encode r.encrypt_key r.encrypt_active m

  abbrev entries_from : ℕ → ℕ → ℕ → List (K × V) → ReadM (List (K × V))
  entries_from = read_entries less key_codec mapped_codec

  Reads-entries :
      (m : List (K × V)) (r : Reader)
      → Sorted less m
      → All (Fits none) m
      → Holds r.input (bytes_of r m)
      → Reads (entries_from (length m) 0 (length m) []) r (bytes_of r m) m
  Reads-entries m r sorted fits h =
      rw add-zero at (
        read_entries-Sorted less key_codec mapped_codec encode Fits law (length m) 0 0 [] m r sorted
          fits h)
      ∙ read_entries-done less key_codec mapped_codec encode Fits law (length m) (0 + length m) m
          (took r (length (bytes_of r m)))

  Writes-map :
      (d : Option Descriptor) (m : List (K × V)) (w : Writer)
      → FitsMap less Fits d m
      → HasRoom w.out (length (encode_map encode w.encrypt_key w.encrypt_active m))
      → Writes
          (write_map less key_codec mapped_codec d m)
          w
          (encode_map encode w.encrypt_key w.encrypt_active m)
  unfolding write_map
  Writes-map d m w fits room =
      let items = encode_items encode w.encrypt_key w.encrypt_active m in
      let loop = write_items (entry key_codec mapped_codec) (length m) 0 m in
      Writes-limit_then WriteErrorCode.max_items_exceeded (λ f. f.max_items) d (length m)
        (write_size (length m) ⟫ loop) w (to_bytes 8 (length m) ++ items) fits.max_items
        (Writes-size_then (length m) loop w items room (
          Writes-items (entry key_codec mapped_codec) encode Fits law (length m) 0 m
            (wrote w (to_bytes 8 (length m))) fits.items))

  Reads-map_entries :
      (d : Option Descriptor) (m : List (K × V)) (r : Reader)
      → FitsMap less Fits d m
      → Holds r.input (encode_map encode r.encrypt_key r.encrypt_active m)
      → Reads
          (read_size >>= read_map_entries less key_codec mapped_codec d)
          r
          (encode_map encode r.encrypt_key r.encrypt_active m)
          m
  unfolding read_map_entries
  Reads-map_entries d m r fits h =
      let r' = took r (length (to_bytes 8 (length m))) in
      let items = bytes_of r m in
      Reads-size_then (length m) (read_map_entries less key_codec mapped_codec d) r items m
        fits.size h
        λ ahead.
          Reads-limit_then ReadErrorCode.max_items_exceeded (λ f. f.max_items) d (length m)
            (entries_from (length m) 0 (length m) []) r' items m fits.max_items
            (Reads-entries m r' fits.sorted fits.items ahead)

  -- A map is stored as the number of its entries and the entries in the order of their keys; read
  -- back, every `emplace` succeeds and the map is the one that was written.
  pub map-IsCodec :
      IsCodec (map less key_codec mapped_codec) (encode_map encode) (FitsMap less Fits)
  map-IsCodec = record {
    writes = λ d m w fits room. unfold map in Writes-map d m w fits room;
    reads = λ d m old r fits h. unfold map in Reads-map_entries d m r fits h;
    bytes = λ key active d m k fits.
        All-append IsByte (to_bytes 8 (length m)) (encode_items encode key active m)
          (to_bytes-IsByte 8 (length m))
          (items-IsByte (entry key_codec mapped_codec) encode Fits law (length m) key active m k
            fits.items);
  }

  -- After the entries `front`, `f` and `back` of a map, an entry with the key of `f` makes the loop
  -- fail with duplicate_key and the place of that entry, however many were still to come.
  pub map-refuses_duplicate :
      (total left : ℕ) (front back : List (K × V)) (f e : K × V) (r : Reader)
      → let m = front ++ (f ∷ back) in
        Sorted less m
        → All (Fits none) m
        → Fits none e
        → e.0 ≡ f.0
        → less f.0 f.0 ≡ false
        → Holds r.input (bytes_of r m ++ encode r.encrypt_key r.encrypt_active e)
        → entries_from total 0 (length m + suc left) [] r
          ≡ read_fails
              (duplicate_key_error (length m) total)
              (took r (length (bytes_of r m ++ encode r.encrypt_key r.encrypt_active e)))
  map-refuses_duplicate total left front back f e r sorted fits fits_e same irrefl h =
      let m = front ++ (f ∷ back) in
      let bytes = bytes_of r m in
      let last = encode r.encrypt_key r.encrypt_active e in
      let (before, ahead) = Holds-append r.input bytes last h in
      let r' = took r (length bytes) in
      read_entries-Sorted less key_codec mapped_codec encode Fits law total 0 (suc left) [] m r
        sorted fits before
      ∙ rw zero-add (
          read_entries-step less key_codec mapped_codec encode Fits law total (length m) left m e r'
            fits_e ahead)
      ∙ ap
          (λ o.
            emplaced less key_codec mapped_codec (length m) total
              (entries_from total (length m + 1) left) o (took r' (length last)))
          (emplace-known less e f front back same irrefl sorted)
      ∙ emplaced-none less key_codec mapped_codec encode Fits law (length m) total
          (entries_from total (length m + 1) left) (took r' (length last))
      ∙ ap (λ s. read_fails (duplicate_key_error (length m) total) (record r { input = s }))
          (advance-add r.input (length bytes) (length last)
            ∙ ap (advance r.input) (sym (length-append bytes last)))
