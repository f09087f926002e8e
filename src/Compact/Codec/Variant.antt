-- ===== src/Compact/Codec/Variant.antt =====
-- compact/variant.hpp: `codec<std::variant<Ts...>>`: an array of the format with the index of the
-- alternative and its value.
use native.Mathlib.Nat.{zero-add, add-zero}
use contract.Prelude.{
  ℕ, suc, ◌+◌, ◌^◌, ◌≤◌, ◌<◌, ◌≡◌, ◌⊎◌, inl, inr, refl, ap, false, Option, none, ◌++◌, arith, ◌==◌,
  ==_refl, if◌then◌else◌,
}
use mathlib.Core.List.{append-nil}
use contract.Compact.Codes.{ValueKind, ReadErrorCode, ReadStage, WriteStage, sized_error}
use contract.Compact.Writer.{Writer, Status, ◌⟫◌, describing_write, write_size_header, write_uint}
use contract.Compact.Reader.{
  ReadError, Reader, ReadM, pure, ◌>>=◌, next_read, read_fails, describing_read, read_uint,
}
use contract.Compact.Wire.{
  Value, array, uint, no_items, item, encode, encode_uint, encode_size, IsValue,
}
use contract.Compact.Steps.{
  Writes, Writes-then, Writes-describing, Reads, Reads-bind_then, Reads-map, Reads-describing,
}
use contract.Compact.Integers.{Writes-uint, Reads-uint}
use contract.Compact.Sizes.{Sized}
use contract.Compact.Codec.{Codec, Descriptor, fielded_error, staged_error, element_error}
use contract.Compact.Codec.Laws.{IsCodec, Writes-header_then}
use contract.Compact.Codec.Tuple.{read_counted, Reads-counted}

unfoldable pub index_error : Option Descriptor → ℕ → ℕ → ReadError → ReadError
index_error d total index e =
    fielded_error d
      (sized_error ReadErrorCode.variant_index_out_of_range ReadStage.variant total index e)

-- The pack `Ts...`: its size, `value.index()`, the write that `std::visit` chooses, and
-- `read_by_index<I>` of a variant with `total` alternatives, of which this is the rest from `I` on.
pub record Alternatives (V : Type 0) : Type 0 where
  pub size : ℕ
  pub index : V → ℕ
  pub write_item : V → Writer → Writer × Status
  pub read_by_index : Option Descriptor → ℕ → ℕ → ℕ → ReadM V

unfoldable pub no_alternatives : Alternatives ⊥
no_alternatives = record {
  size = 0;
  index = λ v. absurd v;
  write_item = λ v. absurd v;
  read_by_index = λ d place total index. read_fails (index_error d total index);
}

module _ {A V : Type 0} (c : Codec A) (rest : Alternatives V) where
  unfoldable pub alternative_index : A ⊎ V → ℕ
  alternative_index (inl a) = 0
  alternative_index (inr v) = suc (rest.index v)

  unfoldable pub write_alternative : A ⊎ V → Writer → Writer × Status
  write_alternative (inl a) = c.write none a
  write_alternative (inr v) = rest.write_item v

  -- alt_type item{}; if (in.read_value(item) == read_status::error) {…}
  unfoldable pub read_alternative : Option Descriptor → ReadM A
  read_alternative d =
      describing_read (element_error d ReadStage.variant 1 2) (c.read none c.initial)

  unfoldable pub read_alternatives : Option Descriptor → ℕ → ℕ → ℕ → ReadM (A ⊎ V)
  read_alternatives d place total index =
      if index == place
      then (read_alternative d >>= λ item. pure (inl item))
      else (rest.read_by_index d (place + 1) total index >>= λ v. pure (inr v))

  unfoldable pub alternative : Alternatives (A ⊎ V)
  alternative = record {
    size = suc rest.size;
    index = alternative_index;
    write_item = write_alternative;
    read_by_index = read_alternatives;
  }

module _ {V : Type 0} (a : Alternatives V) where
  unfoldable pub write_variant : Option Descriptor → V → Writer → Writer × Status
  write_variant d value =
      describing_write (staged_error d WriteStage.variant) (write_size_header ValueKind.array 2)
      ⟫ describing_write (staged_error d WriteStage.variant) (write_uint (a.index value))
      ⟫ describing_write (staged_error d WriteStage.variant) (a.write_item value)

  unfoldable pub read_variant : Option Descriptor → ReadM V
  read_variant d = read_counted d ReadStage.variant 2 >>= λ _.
      describing_read (staged_error d ReadStage.variant) read_uint >>= a.read_by_index d 0 a.size

  unfoldable pub variant : V → Codec V
  variant initial = record {
    write = write_variant;
    read = λ d old. read_variant d;
    initial = initial;
  }

pub record IsAlternatives {V : Type 0} (a : Alternatives V) (value_of : V → Value)
    (Fits : V → Type 0) : Type 0 where
  pub below : (v : V) → a.index v < a.size
  pub writes : (v : V) → Fits v → Writes (a.write_item v) (encode (value_of v))
  pub reads :
      (d : Option Descriptor) (place total : ℕ) (v : V)
      → Fits v
      → Reads (a.read_by_index d place total (place + a.index v)) (encode (value_of v)) v
  pub refuses :
      (d : Option Descriptor) (place total index : ℕ) (r : Reader)
      → place + a.size ≤ index
      → a.read_by_index d place total index r ≡ read_fails (index_error d total index) r
  pub is_value : (v : V) → Fits v → IsValue (value_of v)

pub no_alternatives-IsAlternatives : IsAlternatives no_alternatives (λ v. absurd v) (λ v. ⊥)
unfolding no_alternatives
no_alternatives-IsAlternatives = record {
  below = λ v. absurd v;
  writes = λ v fits. absurd v;
  reads = λ d place total v fits. absurd v;
  refuses = λ d place total index r h. refl;
  is_value = λ v fits. absurd v;
}

module _ {A V : Type 0} (value_of : A → Value) (value_of_rest : V → Value) where
  abbrev pub alternative_value : A ⊎ V → Value
  alternative_value (inl a) = value_of a
  alternative_value (inr v) = value_of_rest v

module _ {A V : Type 0} (Fits : Option Descriptor → A → Type 0) (FitsRest : V → Type 0) where
  abbrev pub FitsAlternative : A ⊎ V → Type 0
  FitsAlternative (inl a) = Fits none a
  FitsAlternative (inr v) = FitsRest v

module _ {A V : Type 0} (c : Codec A) (value_of : A → Value) (Fits : Option Descriptor → A → Type 0)
    (law : IsCodec c value_of Fits) (rest : Alternatives V) (value_of_rest : V → Value)
    (FitsRest : V → Type 0) (rest_law : IsAlternatives rest value_of_rest FitsRest) where
  below : (v : A ⊎ V) → alternative_index c rest v < suc rest.size
  unfolding alternative_index
  below (inl a) = omega arith
  below (inr v) = omega (arith, rest_law.below v)

  writes :
      (v : A ⊎ V)
      → FitsAlternative Fits FitsRest v
      → Writes (write_alternative c rest v) (encode (alternative_value value_of value_of_rest v))
  unfolding write_alternative
  writes (inl a) fits = law.writes none a fits
  writes (inr v) fits = rest_law.writes v fits

  reads :
      (d : Option Descriptor) (place total : ℕ) (v : A ⊎ V)
      → FitsAlternative Fits FitsRest v
      → Reads
          (read_alternatives c rest d place total (place + alternative_index c rest v))
          (encode (alternative_value value_of value_of_rest v))
          v
  unfolding read_alternatives alternative_index
  reads d place total (inl a) fits failure consumed more =
      rw (add-zero, ==_refl)
        (Reads-map (read_alternative c rest d) inl (encode (value_of a)) a
          (unfold read_alternative in
            Reads-describing (element_error d ReadStage.variant 1 2) (c.read none c.initial)
              (encode (value_of a)) a (law.reads none a c.initial fits))
          failure consumed more)
  reads d place total (inr v) fits failure consumed more =
      let other : (place + suc (rest.index v) == place) ≡ false = ground arith in
      let next : place + suc (rest.index v) ≡ place + 1 + rest.index v = omega arith in
      rw other (
        rw next (
          Reads-map (rest.read_by_index d (place + 1) total (place + 1 + rest.index v)) inr
            (encode (value_of_rest v)) v (rest_law.reads d (place + 1) total v fits) failure
            consumed more))

  refuses :
      (d : Option Descriptor) (place total index : ℕ) (r : Reader)
      → place + suc rest.size ≤ index
      → read_alternatives c rest d place total index r ≡ read_fails (index_error d total index) r
  unfolding read_alternatives read_fails
  refuses d place total index r h =
      let other : (index == place) ≡ false = ground arith in
      rw other (
        ap (next_read (λ v. pure (inr v)))
          (rest_law.refuses d (place + 1) total index r (omega arith)))

  is_value :
      (v : A ⊎ V)
      → FitsAlternative Fits FitsRest v
      → IsValue (alternative_value value_of value_of_rest v)
  is_value (inl a) fits = law.is_value none a fits
  is_value (inr v) fits = rest_law.is_value v fits

  pub alternative-IsAlternatives :
      IsAlternatives
        (alternative c rest)
        (alternative_value value_of value_of_rest)
        (FitsAlternative Fits FitsRest)
  unfolding alternative
  alternative-IsAlternatives = record {
    below = below;
    writes = writes;
    reads = reads;
    refuses = refuses;
    is_value = is_value;
  }

abbrev pub variant_value : {V : Type 0} → Alternatives V → (V → Value) → V → Value
variant_value a value_of v = array (item (uint (a.index v)) (item (value_of v) no_items))

variant-bytes :
    (n : ℕ) (v : Value)
    → encode (array (item (uint n) (item v no_items)))
      ≡ encode_size 0x80 2 ++ (encode_uint n ++ encode v)
unfolding encode
variant-bytes n v = ap (λ t. encode_size 0x80 2 ++ (encode_uint n ++ t)) (append-nil (encode v))

module _ {V : Type 0} (a : Alternatives V) (value_of : V → Value) (Fits : V → Type 0)
    (law : IsAlternatives a value_of Fits) (small : a.size ≤ 2 ^ 64) where
  Writes-variant :
      (d : Option Descriptor) (v : V)
      → Fits v
      → Writes (write_variant a d v) (encode (variant_value a value_of v))
  unfolding write_variant
  Writes-variant d v fits =
      let describe = staged_error d WriteStage.variant in
      rw (variant-bytes (a.index v) (value_of v)) (
        Writes-header_then describe ValueKind.array 0x80 2
          (describing_write describe (write_uint (a.index v))
            ⟫ describing_write describe (a.write_item v))
          (encode_uint (a.index v) ++ encode (value_of v)) Sized.array (omega arith)
          (Writes-then (describing_write describe (write_uint (a.index v)))
            (describing_write describe (a.write_item v)) (encode_uint (a.index v))
            (encode (value_of v))
            (Writes-describing describe (write_uint (a.index v)) (encode_uint (a.index v))
              (Writes-uint (a.index v) (omega (arith, law.below v))))
            (Writes-describing describe (a.write_item v) (encode (value_of v))
              (law.writes v fits))))

  Reads-index :
      (d : Option Descriptor) (v : V)
      → Reads
          (describing_read (staged_error d ReadStage.variant) read_uint)
          (encode_uint (a.index v))
          (a.index v)
  Reads-index d v =
      Reads-describing (staged_error d ReadStage.variant) read_uint (encode_uint (a.index v))
        (a.index v) (Reads-uint (a.index v) (omega (arith, law.below v)))

  Reads-variant :
      (d : Option Descriptor) (v : V)
      → Fits v
      → Reads (read_variant a d) (encode (variant_value a value_of v)) v
  unfolding read_variant
  Reads-variant d v fits =
      let index = describing_read (staged_error d ReadStage.variant) read_uint in
      rw (variant-bytes (a.index v) (value_of v)) (
        Reads-bind_then (read_counted d ReadStage.variant 2) index (a.read_by_index d 0 a.size)
          (encode_size 0x80 2) (encode_uint (a.index v)) (encode (value_of v)) tt (a.index v) v
          (Reads-counted d ReadStage.variant 2 (omega arith)) (Reads-index d v)
          (rw zero-add at (law.reads d 0 a.size v fits)))

  -- A variant goes as an array of the format with its index and its value, and is read back as the same
  -- alternative with the same value, where the alternatives keep their promise.
  pub variant-IsCodec :
      (initial : V) → IsCodec (variant a initial) (variant_value a value_of) (λ d v. Fits v)
  unfolding variant
  variant-IsCodec initial = record {
    writes = Writes-variant;
    reads = λ d v old fits. Reads-variant d v fits;
    is_value = λ d v fits.
        let index : a.index v < 2 ^ 64 = omega (arith, law.below v) in
        unfold IsValue in (omega arith, (index, (law.is_value v fits, tt)));
  }
