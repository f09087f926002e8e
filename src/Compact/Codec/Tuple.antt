-- ===== src/Compact/Codec/Tuple.antt =====
-- compact/tuple.hpp: `codec<std::tuple<Ts...>>`: an array of the format with one element for each part.
use contract.Prelude.{
  ℕ, suc, ◌^◌, ◌<◌, ◌≡◌, refl, ap, Option, none, [], ◌==◌, ==_refl, if◌then◌else◌,
}
use mathlib.Core.List.{append-nil}
use mathlib.Core.Path.{subst}
use contract.Compact.Codes.{ValueKind, ReadErrorCode, ReadStage, WriteStage, sized_error}
use contract.Compact.Writer.{Writer, Status, ◌⟫◌, write_ok, describing_write, write_size_header}
use contract.Compact.Reader.{ReadM, pure, ◌>>=◌, read_fails, describing_read, read_size_header}
use contract.Compact.Wire.{
  Value, array, Values, no_items, item, count, encode, encode_values, encode_size, IsValue,
  AreValues,
}
use contract.Compact.Steps.{
  Writes, Writes-ok, Writes-then, Writes-describing, Reads, Reads-bind, Reads-map, Reads-pure,
  Reads-describing,
}
use contract.Compact.Sizes.{Sized}
use contract.Compact.Codec.{Codec, Descriptor, fielded_error, staged_error, outer_error, check_size}
use contract.Compact.Codec.Laws.{IsCodec, Reads-size_then, Writes-header_then, Reads-header_then}

-- The pack `Ts...`: its size, the fold that writes its values and stops at the first error, and the
-- fold that reads them.
pub record Parts (V : Type 0) : Type 0 where
  pub size : ℕ
  pub write_items : V → Writer → Writer × Status
  pub read_items : V → ReadM V
  pub initial : V

unfoldable pub no_parts : Parts (Unit {0})
no_parts = record {
  size = 0;
  write_items = λ v. write_ok;
  read_items = λ old. pure old;
  initial = tt;
}

unfoldable pub part : {A V : Type 0} → Codec A → Parts V → Parts (A × V)
part c rest = record {
  size = suc rest.size;
  write_items = λ v. c.write none v.0 ⟫ rest.write_items v.1;
  read_items = λ old. c.read none old.0 >>= λ x. rest.read_items old.1 >>= λ xs. pure (x, xs);
  initial = (c.initial, rest.initial);
}

-- read_count(in, count) of an array of the format, with the stage of its caller
unfoldable pub read_count : ReadStage → ReadM ℕ
read_count stage =
    describing_read (staged_error none stage) (read_size_header ValueKind.array) >>= λ size.
    check_size none stage size >>= λ _. pure size

-- count != expected
unfoldable pub check_count : Option Descriptor → ReadStage → ℕ → ℕ → ReadM (Unit {0})
check_count d stage expected count =
    if count == expected
    then pure tt
    else read_fails
        (λ e. fielded_error d (sized_error ReadErrorCode.invalid_size stage expected count e))

unfoldable pub read_counted : Option Descriptor → ReadStage → ℕ → ReadM (Unit {0})
read_counted d stage expected =
    describing_read (outer_error d stage) (read_count stage) >>= check_count d stage expected

module _ {V : Type 0} (p : Parts V) where
  unfoldable pub write_tuple : Option Descriptor → V → Writer → Writer × Status
  write_tuple d value =
      describing_write (staged_error d WriteStage.array) (write_size_header ValueKind.array p.size)
      ⟫ describing_write (staged_error d WriteStage.array) (p.write_items value)

  unfoldable pub read_tuple : Option Descriptor → V → ReadM V
  read_tuple d old = read_counted d ReadStage.array p.size >>= λ _.
      describing_read (staged_error d ReadStage.array) (p.read_items old)

  unfoldable pub tuple : Codec V
  tuple = record { write = write_tuple; read = read_tuple; initial = p.initial }

pub record IsParts {V : Type 0} (p : Parts V) (values : V → Values) (Fits : V → Type 0)
    : Type 0 where
  pub counted : (v : V) → count (values v) ≡ p.size
  pub writes : (v : V) → Fits v → Writes (p.write_items v) (encode_values (values v))
  pub reads : (v old : V) → Fits v → Reads (p.read_items old) (encode_values (values v)) v
  pub are_values : (v : V) → Fits v → AreValues (values v)

pub no_parts-IsParts : IsParts no_parts (λ v. no_items) (λ v. Unit {0})
unfolding no_parts encode IsValue
no_parts-IsParts = record {
  counted = λ v. refl;
  writes = λ v fits. Writes-ok;
  reads = λ v old fits. Reads-pure tt;
  are_values = λ v fits. tt;
}

abbrev pub part_values : {A V : Type 0} → (A → Value) → (V → Values) → A × V → Values
part_values value_of values v = item (value_of v.0) (values v.1)

abbrev pub FitsPart :
    {A V : Type 0} → (Option Descriptor → A → Type 0) → (V → Type 0) → A × V → Type 0
FitsPart Fits FitsRest v = Fits none v.0 × FitsRest v.1

pub part-IsParts :
    {A V : Type 0} (c : Codec A) (value_of : A → Value) (Fits : Option Descriptor → A → Type 0)
    (rest : Parts V) (values : V → Values) (FitsRest : V → Type 0)
    → IsCodec c value_of Fits
    → IsParts rest values FitsRest
    → IsParts (part c rest) (part_values value_of values) (FitsPart Fits FitsRest)
unfolding part encode IsValue
part-IsParts c value_of Fits rest values FitsRest law rest_law = record {
  counted = λ v. ap (λ (n : ℕ). suc n) (rest_law.counted v.1);
  writes = λ v fits.
      Writes-then (c.write none v.0) (rest.write_items v.1) (encode (value_of v.0))
        (encode_values (values v.1)) (law.writes none v.0 fits.0) (rest_law.writes v.1 fits.1);
  reads = λ v old fits.
      Reads-bind (c.read none old.0) (λ x. rest.read_items old.1 >>= λ xs. pure (x, xs))
        (encode (value_of v.0)) (encode_values (values v.1)) v.0 v (law.reads none v.0 old.0 fits.0)
        (Reads-map (rest.read_items old.1) (λ xs. (v.0, xs)) (encode_values (values v.1)) v.1
          (rest_law.reads v.1 old.1 fits.1));
  are_values = λ v fits. (law.is_value none v.0 fits.0, rest_law.are_values v.1 fits.1);
}

counted-right :
    (d : Option Descriptor) (stage : ReadStage) (n : ℕ) → check_count d stage n n ≡ pure tt
unfolding check_count
counted-right d stage n = rw (==_refl n) refl

-- The count that is expected.
pub Reads-counted :
    (d : Option Descriptor) (stage : ReadStage) (n : ℕ)
    → n < 2 ^ 64
    → Reads (read_counted d stage n) (encode_size 0x80 n) tt
unfolding read_counted read_count
Reads-counted d stage n small =
    let describe = staged_error none stage in
    let header = describing_read describe (read_size_header ValueKind.array) in
    let counted = header >>= λ size. check_size none stage size >>= λ _. pure size in
    subst
      (λ t. Reads (describing_read (outer_error d stage) counted >>= check_count d stage n) t tt)
      (append-nil (encode_size 0x80 n))
      (Reads-bind (describing_read (outer_error d stage) counted) (check_count d stage n)
        (encode_size 0x80 n) [] n tt
        (Reads-describing (outer_error d stage) counted (encode_size 0x80 n) n (
          subst (λ t. Reads counted t n) (append-nil (encode_size 0x80 n))
            (Reads-header_then describe ValueKind.array 0x80 n
              (λ size. check_size none stage size >>= λ _. pure size) [] n Sized.array small
              (Reads-size_then none stage n (pure n) [] n small (Reads-pure n)))))
        (rw (counted-right d stage n) (Reads-pure tt)))

-- A tuple of fewer than 2 ^ 64 parts that keep their promise goes as an array of the format and is read
-- back as the same parts.
pub tuple-IsCodec :
    {V : Type 0} (p : Parts V) (values : V → Values) (Fits : V → Type 0)
    → IsParts p values Fits
    → p.size < 2 ^ 64
    → IsCodec (tuple p) (λ v. array (values v)) (λ d v. Fits v)
unfolding tuple write_tuple read_tuple encode IsValue
tuple-IsCodec p values Fits law small = record {
  writes = λ d v fits.
      let describe = staged_error d WriteStage.array in
      rw (law.counted v) (
        Writes-header_then describe ValueKind.array 0x80 p.size
          (describing_write describe (p.write_items v)) (encode_values (values v)) Sized.array small
          (Writes-describing describe (p.write_items v) (encode_values (values v))
            (law.writes v fits)));
  reads = λ d v old fits.
      let describe = staged_error d ReadStage.array in
      rw (law.counted v) (
        Reads-bind (read_counted d ReadStage.array p.size)
          (λ _. describing_read describe (p.read_items old)) (encode_size 0x80 p.size)
          (encode_values (values v)) tt v (Reads-counted d ReadStage.array p.size small)
          (Reads-describing describe (p.read_items old) (encode_values (values v)) v
            (law.reads v old fits)));
  is_value = λ d v fits. (rw (law.counted v) small, law.are_values v fits);
}
