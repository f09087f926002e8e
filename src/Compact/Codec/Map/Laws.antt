-- ===== src/Compact/Codec/Map/Laws.antt =====
-- Maps of the compact adapter that are written and read back, and the key that comes twice.
use mathlib.Core.Path.{subst}
use mathlib.Core.List.{append-nil, append_assoc}
use contract.Prelude.{
  ℕ, zero, suc, ◌+◌, ◌^◌, ◌<◌, ◌≡◌, refl, sym, Bool, Option, none, some, List, [], ◌∷◌, ◌++◌, arith,
  length, All,
}
use contract.Compact.Codes.{ValueKind, ReadStage, WriteStage}
use contract.Compact.Writer.{◌⟫◌, describing_write, write_size_header}
use contract.Compact.Reader.{pure, ◌>>=◌, describing_read, read_size_header}
use contract.Compact.Wire.{
  Value, map as map_value, Pairs, no_pairs, pair, count_pairs, encode, encode_pairs, encode_size,
  IsValue, ArePairs,
}
use contract.Compact.Steps.{
  Writes, Writes-ok, Writes-then, Writes-describing, Reads, Reads-bind, Reads-map, Reads-pure,
  Reads-describing,
}
use contract.Compact.Sizes.{Sized}
use contract.Compact.Codec.{Codec, Descriptor, outer_error, staged_error, element_error, check_size}
use contract.Compact.Codec.Laws.{
  IsCodec, Within, Writes-limit_then, Reads-limit_then, Reads-size_then, Writes-header_then,
  Reads-header_then,
}
use contract.Compact.Codec.Map.{
  write_entry, write_entries, read_pair, read_entry, emplaced, read_entries, write_map, read_count,
  read_counted, read_map, map,
}
use contract.Binary.Codec.Map.{emplace, Sorted}
use contract.Binary.Codec.Map.Entries.{emplace-last, Sorted-last}

abbrev pub pairs_of : {K V : Type 0} → (K → Value) → (V → Value) → List (K × V) → Pairs
pairs_of key_value mapped_value [] = no_pairs
pairs_of key_value mapped_value ((k, v) ∷ es) =
    pair (key_value k) (mapped_value v) (pairs_of key_value mapped_value es)

count-pairs_of :
    {K V : Type 0} (key_value : K → Value) (mapped_value : V → Value) (es : List (K × V))
    → count_pairs (pairs_of key_value mapped_value es) ≡ length es
count-pairs_of key_value mapped_value [] = refl
count-pairs_of key_value mapped_value ((k, v) ∷ es) =
    omega (arith, count-pairs_of key_value mapped_value es)

encode-pair :
    (k v : Value) (ps : Pairs)
    → encode_pairs (pair k v ps) ≡ (encode k ++ encode v) ++ encode_pairs ps
unfolding encode
encode-pair k v ps = sym (append_assoc (encode k) (encode v) (encode_pairs ps))

encode-no_pairs : encode_pairs no_pairs ≡ []
unfolding encode
encode-no_pairs = refl

module _ {K V : Type 0} (less : K → K → Bool) (key_codec : Codec K) (mapped_codec : Codec V)
    (key_value : K → Value) (mapped_value : V → Value) (FitsKey : Option Descriptor → K → Type 0)
    (FitsMapped : Option Descriptor → V → Type 0) (key_law : IsCodec key_codec key_value FitsKey)
    (mapped_law : IsCodec mapped_codec mapped_value FitsMapped) where
  abbrev bytes_of : List (K × V) → List ℕ
  bytes_of es = encode_pairs (pairs_of key_value mapped_value es)

  abbrev entry_bytes : K × V → List ℕ
  entry_bytes (k, v) = encode (key_value k) ++ encode (mapped_value v)

  abbrev FitsEntry : K × V → Type 0
  FitsEntry (k, v) = FitsKey none k × FitsMapped none v

  Writes-entry :
      (d : Option Descriptor) (total index : ℕ) (e : K × V)
      → FitsEntry e
      → Writes (write_entry key_codec mapped_codec d total index e) (entry_bytes e)
  unfolding write_entry
  Writes-entry d total index (k, v) (fk, fv) =
      Writes-describing (element_error d WriteStage.map index total)
        (key_codec.write none k ⟫ mapped_codec.write none v) (entry_bytes (k, v))
        (Writes-then (key_codec.write none k) (mapped_codec.write none v) (encode (key_value k))
          (encode (mapped_value v)) (key_law.writes none k fk) (mapped_law.writes none v fv))

  Writes-entries :
      (d : Option Descriptor) (total index : ℕ) (es : List (K × V))
      → All FitsEntry es
      → Writes (write_entries key_codec mapped_codec d total index es) (bytes_of es)
  unfolding write_entries
  Writes-entries d total index [] fits = rw encode-no_pairs Writes-ok
  Writes-entries d total index ((k, v) ∷ es) (fe, fes) =
      rw (encode-pair (key_value k) (mapped_value v) (pairs_of key_value mapped_value es)) (
        Writes-then (write_entry key_codec mapped_codec d total index (k, v))
          (write_entries key_codec mapped_codec d total (index + 1) es) (entry_bytes (k, v))
          (bytes_of es) (Writes-entry d total index (k, v) fe)
          (Writes-entries d total (index + 1) es fes))

  Reads-entry :
      (d : Option Descriptor) (total index : ℕ) (e : K × V)
      → FitsEntry e
      → Reads (read_entry key_codec mapped_codec d total index) (entry_bytes e) e
  unfolding read_entry read_pair
  Reads-entry d total index (k, v) (fk, fv) =
      let read_mapped = mapped_codec.read none mapped_codec.initial in
      Reads-describing (element_error d ReadStage.map index total)
        (read_pair key_codec mapped_codec d total) (entry_bytes (k, v)) (k, v)
        (Reads-bind (key_codec.read none key_codec.initial)
          (λ key. read_mapped >>= λ mapped. pure (key, mapped)) (encode (key_value k))
          (encode (mapped_value v)) k (k, v) (key_law.reads none k key_codec.initial fk)
          (Reads-map read_mapped (λ mapped. (k, mapped)) (encode (mapped_value v)) v
            (mapped_law.reads none v mapped_codec.initial fv)))

  -- One entry, and what comes of its place among those that are there.
  entries-step :
      (d : Option Descriptor) (total index left : ℕ) (e : K × V) (m : List (K × V))
      (o : Option (List (K × V))) (bytes : List ℕ) (m' : List (K × V))
      → FitsEntry e
      → emplace less e m ≡ o
      → Reads
          (emplaced key_codec mapped_codec d total index
            (read_entries key_codec mapped_codec d total less (index + 1) left)
            o)
          bytes
          m'
      → Reads
          (read_entries key_codec mapped_codec d total less index (suc left) m)
          (entry_bytes e ++ bytes)
          m'
  unfolding read_entries
  entries-step d total index left e m o bytes m' fits place h =
      let loop = read_entries key_codec mapped_codec d total less (index + 1) left in
      Reads-bind (read_entry key_codec mapped_codec d total index)
        (λ e. emplaced key_codec mapped_codec d total index loop (emplace less e m)) (entry_bytes e)
        bytes e m' (Reads-entry d total index e fits) (rw place h)

  entries-done :
      (d : Option Descriptor) (total index : ℕ) (m : List (K × V))
      → Reads (read_entries key_codec mapped_codec d total less index zero m) [] m
  unfolding read_entries
  entries-done d total index m = Reads-pure m

  -- Entries in the order of their keys join the map one after another.
  Reads-entries :
      (d : Option Descriptor) (total index : ℕ) (m es : List (K × V))
      → Sorted less (m ++ es)
      → All FitsEntry es
      → Reads
          (read_entries key_codec mapped_codec d total less index (length es) m)
          (bytes_of es)
          (m ++ es)
  unfolding emplaced
  Reads-entries d total index m [] sorted fits =
      rw (append-nil m, encode-no_pairs) (entries-done d total index m)
  Reads-entries d total index m ((k, v) ∷ es) sorted (fe, fes) =
      let joined = append_assoc m ((k, v) ∷ []) es in
      rw (encode-pair (key_value k) (mapped_value v) (pairs_of key_value mapped_value es)) (
        entries-step d total index (length es) (k, v) m (some (m ++ ((k, v) ∷ []))) (bytes_of es)
          (m ++ ((k, v) ∷ es)) fe (emplace-last less (k, v) m (Sorted-last less m (k, v) es sorted))
          (subst
            (λ t.
              Reads
                (read_entries key_codec mapped_codec d total less (index + 1) (length es)
                  (m ++ ((k, v) ∷ [])))
                (bytes_of es) t)
            joined
            (Reads-entries d total (index + 1) (m ++ ((k, v) ∷ [])) es
              (subst (Sorted less) (sym joined) sorted) fes)))

  pairs-ArePairs :
      (es : List (K × V)) → All FitsEntry es → ArePairs (pairs_of key_value mapped_value es)
  unfolding IsValue
  pairs-ArePairs [] fits = tt
  pairs-ArePairs ((k, v) ∷ es) ((fk, fv), fes) =
      (key_law.is_value none k fk, (mapped_law.is_value none v fv, pairs-ArePairs es fes))

  abbrev pub FitsMap : Option Descriptor → List (K × V) → Type 0
  FitsMap d m = (length m < 2 ^ 64) × Within d (length m) × Sorted less m × All FitsEntry m

  Writes-map :
      (d : Option Descriptor) (m : List (K × V))
      → FitsMap d m
      → Writes
          (write_map less key_codec mapped_codec d m)
          (encode (map_value (pairs_of key_value mapped_value m)))
  unfolding write_map encode
  Writes-map d m (small, limit, sorted, fits) =
      let n = length m in
      let describe = staged_error d WriteStage.map in
      rw (count-pairs_of key_value mapped_value m) (
        Writes-limit_then WriteStage.map d n
          (describing_write describe (write_size_header ValueKind.map n)
            ⟫ write_entries key_codec mapped_codec d n 0 m)
          (encode_size 0x90 n ++ bytes_of m) limit
          (Writes-header_then describe ValueKind.map 0x90 n
            (write_entries key_codec mapped_codec d n 0 m) (bytes_of m) Sized.map small
            (Writes-entries d n 0 m fits)))

  Reads-count :
      (d : Option Descriptor) (n : ℕ)
      → n < 2 ^ 64
      → Reads
          (describing_read (outer_error d ReadStage.map) (read_count less key_codec mapped_codec))
          (encode_size 0x90 n)
          n
  unfolding read_count
  Reads-count d n small =
      let describe = staged_error none ReadStage.map in
      let header = describing_read describe (read_size_header ValueKind.map) in
      Reads-describing (outer_error d ReadStage.map)
        (header >>= λ size. check_size none ReadStage.map size >>= λ _. pure size)
        (encode_size 0x90 n) n
        (subst
          (λ t.
            Reads (header >>= λ size. check_size none ReadStage.map size >>= λ _. pure size) t n)
          (append-nil (encode_size 0x90 n))
          (Reads-header_then describe ValueKind.map 0x90 n
            (λ size. check_size none ReadStage.map size >>= λ _. pure size) [] n Sized.map small
            (Reads-size_then none ReadStage.map n (pure n) [] n small (Reads-pure n))))

  Reads-map_sized :
      (d : Option Descriptor) (m : List (K × V))
      → FitsMap d m
      → Reads
          (read_map less key_codec mapped_codec d)
          (encode (map_value (pairs_of key_value mapped_value m)))
          m
  unfolding read_map read_counted encode
  Reads-map_sized d m (small, limit, sorted, fits) =
      let n = length m in
      rw (count-pairs_of key_value mapped_value m) (
        Reads-bind
          (describing_read (outer_error d ReadStage.map) (read_count less key_codec mapped_codec))
          (read_counted less key_codec mapped_codec d) (encode_size 0x90 n) (bytes_of m) n m
          (Reads-count d n small)
          (Reads-limit_then ReadStage.map d n (read_entries key_codec mapped_codec d n less 0 n [])
            (bytes_of m) m limit (Reads-entries d n 0 [] m sorted fits)))

  -- A map goes as a map of the format, its entries in the order of its keys, and is read back, where
  -- its keys and mapped values keep their promise.
  pub map-IsCodec :
      IsCodec
        (map less key_codec mapped_codec)
        (λ m. map_value (pairs_of key_value mapped_value m))
        FitsMap
  unfolding map
  map-IsCodec = record {
    writes = Writes-map;
    reads = λ d m old fits. Reads-map_sized d m fits;
    is_value = λ d m (small, limit, sorted, fits).
        unfold IsValue in
        (rw (count-pairs_of key_value mapped_value m) small, pairs-ArePairs m fits);
  }
