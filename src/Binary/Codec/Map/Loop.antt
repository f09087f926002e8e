-- ===== src/Binary/Codec/Map/Loop.antt =====
-- The loop that reads the entries of a map, on entries in the order of their keys.
use native.Mathlib.Nat.{zero-add, add-zero}
use mathlib.Core.List.{append-nil, append_assoc}
use contract.Prelude.{
  ℕ, suc, ◌+◌, ◌≡◌, refl, sym, ap, ◌∙◌, Bool, Option, none, List, [], ◌∷◌, ◌++◌, arith, length,
  length-append, All,
}
use contract.Binary.Cipher.{Key}
use contract.Binary.Stream.{Source}
use contract.Binary.Stream.Sources.{Holds, Holds-append, advance, advance-add}
use contract.Binary.Writer.{Descriptor}
use contract.Binary.Reader.{Reader, done, ReadM, next_read, read_fails}
use contract.Binary.Codec.{Codec}
use contract.Binary.Codec.Laws.{IsCodec, took}
use contract.Binary.Codec.Sequence.Laws.{encode_items, Reads-item}
use contract.Binary.Codec.Map.{
  entry, emplace, emplaced, Before, Sorted, duplicate_key_error, read_entries,
}
use contract.Binary.Codec.Map.Entries.{emplace-last, Sorted-last}

module _ {K V : Type 0} (less : K → K → Bool) (key_codec : Codec K) (mapped_codec : Codec V)
    (encode : Key → Bool → K × V → List ℕ) (Fits : Option Descriptor → K × V → Type 0)
    (law : IsCodec (entry key_codec mapped_codec) encode Fits) where
  abbrev bytes_of : Reader → List (K × V) → List ℕ
  bytes_of r m = encode_items encode r.encrypt_key r.encrypt_active m

  abbrev entries_from : ℕ → ℕ → ℕ → List (K × V) → ReadM (List (K × V))
  entries_from = read_entries less key_codec mapped_codec

  same_loop :
      (total left : ℕ) (i j : ℕ) (m m' : List (K × V)) (r : Reader) (s t : Source)
      → i ≡ j
      → m ≡ m'
      → s ≡ t
      → entries_from total i left m (record r { input = s })
        ≡ entries_from total j left m' (record r { input = t })
  same_loop total left i j m m' r s t p q h =
      λ k. entries_from total (p k) left (q k) (record r { input = h k })

  -- One entry, whatever comes of it.
  pub read_entries-step :
      (total index left : ℕ) (m : List (K × V)) (e : K × V) (r : Reader)
      → Fits none e
      → Holds r.input (encode r.encrypt_key r.encrypt_active e)
      → entries_from total index (suc left) m r
        ≡ emplaced less key_codec mapped_codec index total
            (entries_from total (index + 1) left)
            (emplace less e m)
            (took r (length (encode r.encrypt_key r.encrypt_active e)))
  unfolding read_entries
  read_entries-step total index left m e r fits h =
      ap
        (next_read (λ e.
          emplaced less key_codec mapped_codec index total (entries_from total (index + 1) left)
            (emplace less e m)))
        (unfold entry in
          Reads-item (entry key_codec mapped_codec) encode Fits law total index e
            (key_codec.initial, mapped_codec.initial) r fits h)

  -- The entry that comes after all those of the map joins it at the end.
  read_entries-joined :
      (total index left : ℕ) (m : List (K × V)) (e : K × V) (r : Reader)
      → Fits none e
      → Holds r.input (encode r.encrypt_key r.encrypt_active e)
      → All (λ f. Before less f e) m
      → entries_from total index (suc left) m r
        ≡ entries_from total
            (index + 1)
            left
            (m ++ (e ∷ []))
            (took r (length (encode r.encrypt_key r.encrypt_active e)))
  unfolding emplaced
  read_entries-joined total index left m e r fits h last =
      read_entries-step total index left m e r fits h
      ∙ ap
          (λ o.
            emplaced less key_codec mapped_codec index total (entries_from total (index + 1) left) o
              (took r (length (encode r.encrypt_key r.encrypt_active e))))
          (emplace-last less e m last)

  -- The loop over entries that keep the order: all of them join the map.
  pub read_entries-Sorted :
      (total index left : ℕ) (m more : List (K × V)) (r : Reader)
      → Sorted less (m ++ more)
      → All (Fits none) more
      → Holds r.input (bytes_of r more)
      → entries_from total index (length more + left) m r
        ≡ entries_from total
            (index + length more)
            left
            (m ++ more)
            (took r (length (bytes_of r more)))
  read_entries-Sorted total index left m [] r sorted fits h =
      rw (zero-add, add-zero, append-nil) (unfold advance in refl)
  read_entries-Sorted total index left m (e ∷ more) r sorted fits h =
      let head = encode r.encrypt_key r.encrypt_active e in
      let rest = bytes_of r more in
      let (front, back) = Holds-append r.input head rest h in
      let count : suc (length more) + left ≡ suc (length more + left) = omega arith in
      let place : index + 1 + length more ≡ index + suc (length more) = omega arith in
      let r' = took r (length head) in
      let joined = append_assoc m (e ∷ []) more in
      rw count (
        read_entries-joined total index (length more + left) m e r fits.0 front
          (Sorted-last less m e more sorted)
        ∙ read_entries-Sorted total (index + 1) left (m ++ (e ∷ [])) more r'
            (rw (← joined) at sorted) fits.1 back
        ∙ same_loop total left (index + 1 + length more) (index + suc (length more))
            ((m ++ (e ∷ [])) ++ more) (m ++ (e ∷ more)) r
            (advance (advance r.input (length head)) (length rest))
            (advance r.input (length (head ++ rest))) place joined
            (advance-add r.input (length head) (length rest)
              ∙ ap (advance r.input) (sym (length-append head rest))))

  pub read_entries-done :
      (total index : ℕ) (m : List (K × V)) (r : Reader)
      → entries_from total index 0 m r ≡ (r, done m)
  unfolding read_entries
  read_entries-done total index m r = refl

  pub emplaced-none :
      (index total : ℕ) (loop : List (K × V) → ReadM (List (K × V))) (r : Reader)
      → emplaced less key_codec mapped_codec index total loop none r
        ≡ read_fails (duplicate_key_error index total) r
  unfolding emplaced
  emplaced-none index total loop r = refl
