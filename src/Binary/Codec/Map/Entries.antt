-- ===== src/Binary/Codec/Map/Entries.antt =====
-- `emplace` at the end of the entries and on a key that is there, and the codec of an entry.
use contract.Prelude.{
  ℕ, ◌≡◌, refl, ap, Bool, false, Option, none, some, List, [], ◌∷◌, ◌++◌, length, All, All-append,
  IsByte,
}
use mathlib.Core.Option as Option
use contract.Binary.Cipher.{Key}
use contract.Binary.Stream.Sources.{Holds-append}
use contract.Binary.Writer.{Descriptor}
use contract.Binary.Reader.{pure, ◌>>=◌}
use contract.Binary.Codec.{Codec}
use contract.Binary.Codec.Laws.{IsCodec, Writes-then, Reads-bind, HasRoom-append, wrote, took}
use contract.Binary.Codec.Sequence.Laws.{Reads-map}
use contract.Binary.Codec.Map.{entry, emplace, Before, Sorted}

module _ {K V : Type 0} (less : K → K → Bool) where
  pub emplace-last :
      (e : K × V) (m : List (K × V))
      → All (λ f. Before less f e) m
      → emplace less e m ≡ some (m ++ (e ∷ []))
  unfolding emplace
  emplace-last e [] h = refl
  emplace-last e (f ∷ m) ((lt, gt), h) = rw (gt, lt, emplace-last e m h) refl

  -- A key that is there is not inserted, wherever it stands.
  pub emplace-known :
      (e f : K × V) (front back : List (K × V))
      → e.0 ≡ f.0
      → less f.0 f.0 ≡ false
      → Sorted less (front ++ (f ∷ back))
      → emplace less e (front ++ (f ∷ back)) ≡ none
  unfolding emplace
  emplace-known e f [] back same irrefl h = rw (same, irrefl) refl
  emplace-known e f (g ∷ front) back same irrefl (before, h) =
      let (lt, gt) = at_middle front before in
      rw (same, gt, lt) (ap (Option.map (λ m. g ∷ m)) (emplace-known e f front back same irrefl h))
    where
      at_middle :
          (front : List (K × V)) → All (Before less g) (front ++ (f ∷ back)) → Before less g f
      at_middle [] h = h.0
      at_middle (g' ∷ front) h = at_middle front h.1

  pub Sorted-last :
      (front : List (K × V)) (e : K × V) (back : List (K × V))
      → Sorted less (front ++ (e ∷ back))
      → All (λ f. Before less f e) front
  Sorted-last [] e back h = tt
  Sorted-last (f ∷ front) e back (before, h) = (middle front before, Sorted-last front e back h)
    where
      middle : (front : List (K × V)) → All (Before less f) (front ++ (e ∷ back)) → Before less f e
      middle [] h = h.0
      middle (g ∷ front) h = middle front h.1

abbrev pub encode_entry :
    {K V : Type 0}
    → (Key → Bool → K → List ℕ)
    → (Key → Bool → V → List ℕ)
    → Key
    → Bool
    → K × V
    → List ℕ
encode_entry encode_key encode_mapped key active e =
    encode_key key active e.0 ++ encode_mapped key active e.1

abbrev pub FitsEntry :
    {K V : Type 0}
    → (Option Descriptor → K → Type 0)
    → (Option Descriptor → V → Type 0)
    → Option Descriptor
    → K × V
    → Type 0
FitsEntry FitsKey FitsMapped d e = FitsKey none e.0 × FitsMapped none e.1

module _ {K V : Type 0} (key_codec : Codec K) (mapped_codec : Codec V)
    (encode_key : Key → Bool → K → List ℕ) (encode_mapped : Key → Bool → V → List ℕ)
    (FitsKey : Option Descriptor → K → Type 0) (FitsMapped : Option Descriptor → V → Type 0)
    (key_law : IsCodec key_codec encode_key FitsKey)
    (mapped_law : IsCodec mapped_codec encode_mapped FitsMapped) where
  pub entry-IsCodec :
      IsCodec
        (entry key_codec mapped_codec)
        (encode_entry encode_key encode_mapped)
        (FitsEntry FitsKey FitsMapped)
  unfolding entry
  entry-IsCodec = record {
    writes = λ d e w fits room.
        let xs = encode_key w.encrypt_key w.encrypt_active e.0 in
        let ys = encode_mapped w.encrypt_key w.encrypt_active e.1 in
        let (front, back) = HasRoom-append w xs ys room in
        Writes-then (key_codec.write none e.0) (mapped_codec.write none e.1) w xs ys
          (key_law.writes none e.0 w fits.0 front)
          (mapped_law.writes none e.1 (wrote w xs) fits.1 back);
    reads = λ d e old r fits h.
        let xs = encode_key r.encrypt_key r.encrypt_active e.0 in
        let ys = encode_mapped r.encrypt_key r.encrypt_active e.1 in
        let (front, back) = Holds-append r.input xs ys h in
        let read_mapped = mapped_codec.read none mapped_codec.initial in
        Reads-bind (key_codec.read none key_codec.initial)
          (λ key. read_mapped >>= λ mapped. pure (key, mapped)) r xs ys e.0 e
          (key_law.reads none e.0 key_codec.initial r fits.0 front)
          (Reads-map read_mapped (λ mapped. (e.0, mapped)) (took r (length xs)) ys e.1
            (mapped_law.reads none e.1 mapped_codec.initial (took r (length xs)) fits.1 back));
    bytes = λ key active d e k fits.
        All-append IsByte (encode_key key active e.0) (encode_mapped key active e.1)
          (key_law.bytes key active none e.0 k fits.0)
          (mapped_law.bytes key active none e.1 k fits.1);
  }
