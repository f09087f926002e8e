-- ===== src/Error/Context.antt =====
-- The context of an error as it is passed outwards: what the innermost layer said stays.
use Prim.Native.String.{String}
use text.Mathlib.Text.{◌==◌ as str_eq}
use contract.Prelude.{ℕ, ◌==◌, ◌≡◌, ◌≢◌, refl, false, Option, none, some, List, [], ◌∷◌}
use contract.Error.{
  FieldInfo, ErrorField, unknown, AdapterError, keep_first, set_type_name, set_field, set_stage,
  set_element_index, set_element, set_sizes,
}

-- The calls that layers chain on an error, `code` apart.
pub data Note (Stage : Type 0) : Type 0 where
  type_name : String → Note Stage
  field : FieldInfo → Note Stage
  stage : Stage → Note Stage
  element_index : ℕ → Note Stage
  element : ℕ → ℕ → Note Stage
  sizes : ℕ → ℕ → Note Stage

-- What has a value in the first keeps it in the second.
abbrev pub Keeps {ℓ} : {A : Type ℓ} → Option A → Option A → Type ℓ
Keeps none new = Unit
Keeps (some v) new = new ≡ some v

-- A field's name, number, kind and base offset stay once they are known.
pub record KeepsField (old new : ErrorField) : Type 0 where
  pub name : str_eq old.name "" ≡ false → new.name ≡ old.name
  pub number : (old.number == 0) ≡ false → new.number ≡ old.number
  pub kind : old.kind ≢ unknown → new.kind ≡ old.kind
  pub base_offset : Keeps old.base_offset new.base_offset

abbrev pub KeepsOptional : Option ErrorField → Option ErrorField → Type 0
KeepsOptional none new = Unit
KeepsOptional (some old) none = ⊥
KeepsOptional (some old) (some new) = KeepsField old new

pub record Extends {Code Stage : Type 0} (old new : AdapterError Code Stage) : Type 0 where
  pub code : new.code ≡ old.code
  pub offset : new.offset ≡ old.offset
  pub type_name : Keeps old.type_name new.type_name
  pub field : KeepsOptional old.field new.field
  pub stage : Keeps old.stage new.stage
  pub element_index : Keeps old.element_index new.element_index
  pub element_total : Keeps old.element_total new.element_total
  pub expected_size : Keeps old.expected_size new.expected_size
  pub actual_size : Keeps old.actual_size new.actual_size

Keeps-refl {ℓ} : {A : Type ℓ} (o : Option A) → Keeps o o
Keeps-refl none = tt
Keeps-refl (some v) = refl

Keeps-keep_first {ℓ} : {A : Type ℓ} (o : Option A) (v : A) → Keeps o (keep_first o v)
unfolding keep_first
Keeps-keep_first none v = tt
Keeps-keep_first (some w) v = refl

KeepsField-refl : (f : ErrorField) → KeepsField f f
KeepsField-refl f = record {
  name = λ _. refl;
  number = λ _. refl;
  kind = λ _. refl;
  base_offset = Keeps-refl f.base_offset;
}

KeepsOptional-refl : (o : Option ErrorField) → KeepsOptional o o
KeepsOptional-refl none = tt
KeepsOptional-refl (some f) = KeepsField-refl f

ruleset keeps_rules = (Keeps-refl, Keeps-keep_first, KeepsOptional-refl)

module _ {Code Stage : Type 0} where
  pub note : Note Stage → AdapterError Code Stage → AdapterError Code Stage
  note (type_name v) = set_type_name v
  note (field f) = set_field f
  note (stage v) = set_stage v
  note (element_index i) = set_element_index i
  note (element i n) = set_element i n
  note (sizes x y) = set_sizes x y

  pub note_all : List (Note Stage) → AdapterError Code Stage → AdapterError Code Stage
  note_all [] e = e
  note_all (n ∷ ns) e = note_all ns (note n e)
