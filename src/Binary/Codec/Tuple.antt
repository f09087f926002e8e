-- ===== src/Binary/Codec/Tuple.antt =====
-- binary/tuple.hpp: `codec<std::tuple<Ts...>>`. It has no overload with a field, so the elements are
-- written with none.
use contract.Prelude.{ℕ, refl, Bool, Option, none, List, [], ◌++◌, length, All-append, IsByte}
use contract.Binary.Cipher.{Key}
use contract.Binary.Stream.Sinks.{push}
use contract.Binary.Stream.Sources.{Holds, Holds-append, advance}
use contract.Binary.Writer.{Descriptor, ◌⟫◌, write_ok}
use contract.Binary.Reader.{Reader, pure, ◌>>=◌}
use contract.Binary.Codec.{Codec}
use contract.Binary.Codec.Laws.{
  IsCodec, Reads, Writes-then, Reads-bind, HasRoom-append, wrote, took,
}
use contract.Binary.Codec.Sequence.Laws.{Reads-map}

-- `std::tuple<>`, and a tuple with one element more in front: the folds over the pack stop at the
-- first status that is not ok.
unfoldable pub tuple_nil : Codec (Unit {0})
tuple_nil = record { write = λ d v. write_ok; read = λ d old. pure old; initial = tt }

unfoldable pub tuple_cons : {A B : Type 0} → Codec A → Codec B → Codec (A × B)
tuple_cons c rest = record {
  write = λ d v. c.write none v.0 ⟫ rest.write none v.1;
  read =
      λ d old. c.read none old.0 >>= λ item. rest.read none old.1 >>= λ items. pure (item, items);
  initial = (c.initial, rest.initial);
}

pub tuple_nil-IsCodec : IsCodec tuple_nil (λ key active v. []) (λ d v. Unit)
tuple_nil-IsCodec = record {
  writes = λ d v w fits room. unfold tuple_nil push in refl;
  reads = λ d v old r fits h. unfold tuple_nil advance in refl;
  bytes = λ key active d v k fits. tt;
}

abbrev pub encode_cons :
    {A B : Type 0}
    → (Key → Bool → A → List ℕ)
    → (Key → Bool → B → List ℕ)
    → Key
    → Bool
    → A × B
    → List ℕ
encode_cons encode encode_rest key active v = encode key active v.0 ++ encode_rest key active v.1

abbrev pub FitsCons :
    {A B : Type 0}
    → (Option Descriptor → A → Type 0)
    → (Option Descriptor → B → Type 0)
    → Option Descriptor
    → A × B
    → Type 0
FitsCons Fits FitsRest d v = Fits none v.0 × FitsRest none v.1

module _ {A B : Type 0} (c : Codec A) (rest : Codec B) (encode : Key → Bool → A → List ℕ)
    (encode_rest : Key → Bool → B → List ℕ) (Fits : Option Descriptor → A → Type 0)
    (FitsRest : Option Descriptor → B → Type 0) (law : IsCodec c encode Fits)
    (rest_law : IsCodec rest encode_rest FitsRest) where
  Reads-cons :
      (d : Option Descriptor) (v old : A × B) (r : Reader)
      → FitsCons Fits FitsRest d v
      → Holds r.input (encode_cons encode encode_rest r.encrypt_key r.encrypt_active v)
      → Reads
          ((tuple_cons c rest).read d old)
          r
          (encode_cons encode encode_rest r.encrypt_key r.encrypt_active v)
          v
  unfolding tuple_cons
  Reads-cons d v old r fits h =
      let head = encode r.encrypt_key r.encrypt_active v.0 in
      let tail = encode_rest r.encrypt_key r.encrypt_active v.1 in
      let (front, back) = Holds-append r.input head tail h in
      let r' = took r (length head) in
      Reads-bind (c.read none old.0) (λ item. rest.read none old.1 >>= λ items. pure (item, items))
        r head tail v.0 v (law.reads none v.0 old.0 r fits.0 front)
        (Reads-map (rest.read none old.1) (λ items. (v.0, items)) r' tail v.1
          (rest_law.reads none v.1 old.1 r' fits.1 back))

  -- A tuple of one more element is stored as that element and then the others, with nothing in front,
  -- and read back as the same elements, when the codecs of its parts keep their promise.
  pub tuple_cons-IsCodec :
      IsCodec (tuple_cons c rest) (encode_cons encode encode_rest) (FitsCons Fits FitsRest)
  tuple_cons-IsCodec = record {
    writes = λ d v w fits room.
        let head = encode w.encrypt_key w.encrypt_active v.0 in
        let tail = encode_rest w.encrypt_key w.encrypt_active v.1 in
        let (front, back) = HasRoom-append w head tail room in
        unfold tuple_cons in
        Writes-then (c.write none v.0) (rest.write none v.1) w head tail
          (law.writes none v.0 w fits.0 front)
          (rest_law.writes none v.1 (wrote w head) fits.1 back);
    reads = Reads-cons;
    bytes = λ key active d v k fits.
        All-append IsByte (encode key active v.0) (encode_rest key active v.1)
          (law.bytes key active none v.0 k fits.0) (rest_law.bytes key active none v.1 k fits.1);
  }
