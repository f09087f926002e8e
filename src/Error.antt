-- ===== src/Error.antt =====
-- include/contract/detail/error.hpp: the context that an adapter's error gathers on its way out.
-- The source location, which only the message shows, and the message's text are not modelled.
pub mod Context
use Prim.Native.String.{String}
use text.Mathlib.Text.{◌==◌ as str_eq}
use contract.Prelude.{ℕ, ◌+◌, ◌%◌, Bool, true, false, Option, none, some, ◌==◌, if◌then◌else◌, word}

pub data ErrorFieldKind : Type 0 where
  unknown member reference property offset : ErrorFieldKind

-- What `error_field::from` reads of a field's descriptor. A descriptor's own kind is one of
-- `member`, `reference` and `property`.
pub data FieldKind : Type 0 where
  member reference property : FieldKind

pub record FieldInfo : Type 0 where
  pub name : String
  pub id : ℕ
  pub kind : FieldKind
  pub is_base_import : Bool
  pub base_offset : ℕ

pub record ErrorField : Type 0 where
  pub kind : ErrorFieldKind
  pub name : String
  pub number : ℕ
  pub base_offset : Option ℕ

abbrev pub empty_field : ErrorField
empty_field = record { kind = ErrorFieldKind.unknown; name = ""; number = 0; base_offset = none }

unfoldable pub kind_of : FieldKind → ErrorFieldKind
kind_of FieldKind.member = ErrorFieldKind.member
kind_of FieldKind.reference = ErrorFieldKind.reference
kind_of FieldKind.property = ErrorFieldKind.property

-- if (!slot) slot = value;
unfoldable pub keep_first {ℓ} : {A : Type ℓ} → Option A → A → Option A
keep_first none value = some value
keep_first (some old) value = some old

unfoldable pub take_kind : ErrorFieldKind → FieldInfo → ErrorFieldKind
unfolding kind_of
take_kind ErrorFieldKind.unknown f =
    if f.is_base_import then ErrorFieldKind.offset else kind_of f.kind
take_kind kind f = kind

-- `static_cast<std::uint32_t>(value.id)`
unfoldable pub from : ErrorField → FieldInfo → ErrorField
unfolding take_kind keep_first
from e f = record {
  kind = take_kind e.kind f;
  name = if str_eq e.name "" then f.name else e.name;
  number = if e.number == 0 then f.id % 4294967296 else e.number;
  base_offset = if f.is_base_import then keep_first e.base_offset f.base_offset else e.base_offset;
}

pub record AdapterError (Code Stage : Type 0) : Type 0 where
  pub code : Code
  pub type_name : Option String
  pub field : Option ErrorField
  pub stage : Option Stage
  pub offset : Option ℕ
  pub element_index : Option ℕ
  pub element_total : Option ℕ
  pub expected_size : Option ℕ
  pub actual_size : Option ℕ

module _ {Code Stage : Type 0} where
  -- `Code{}` is the first enumerator, which the adapters name `unknown`.
  abbrev pub fresh : Code → AdapterError Code Stage
  fresh code = record {
    code = code;
    type_name = none;
    field = none;
    stage = none;
    offset = none;
    element_index = none;
    element_total = none;
    expected_size = none;
    actual_size = none;
  }

  unfoldable pub set_type_name : String → AdapterError Code Stage → AdapterError Code Stage
  unfolding keep_first
  set_type_name value e = record e { type_name = keep_first e.type_name value }

  unfoldable pub set_code : Code → AdapterError Code Stage → AdapterError Code Stage
  set_code value e = record e { code = value }

  -- if (!field_) field_.emplace(); field_->from(value);
  unfoldable pub set_field : FieldInfo → AdapterError Code Stage → AdapterError Code Stage
  unfolding from
  set_field value e = record e {
    field = elim e.field [ none ↦ some (from empty_field value) | some f ↦ some (from f value) ];
  }

  unfoldable pub set_stage : Stage → AdapterError Code Stage → AdapterError Code Stage
  unfolding keep_first
  set_stage value e = record e { stage = keep_first e.stage value }

  unfoldable pub set_offset : ℕ → AdapterError Code Stage → AdapterError Code Stage
  unfolding keep_first
  set_offset value e = record e { offset = keep_first e.offset value }

  unfoldable pub position_correction : ℕ → AdapterError Code Stage → AdapterError Code Stage
  position_correction base e = record e {
    offset = elim e.offset [ none ↦ some base | some o ↦ some ((o + base) % word) ];
  }

  unfoldable pub transfer_from :
      AdapterError Code Stage → AdapterError Code Stage → AdapterError Code Stage
  transfer_from value e = value

  unfoldable pub set_element_index : ℕ → AdapterError Code Stage → AdapterError Code Stage
  unfolding keep_first
  set_element_index index e = record e { element_index = keep_first e.element_index index }

  unfoldable pub set_element : ℕ → ℕ → AdapterError Code Stage → AdapterError Code Stage
  unfolding keep_first
  set_element index total e = record e {
    element_index = keep_first e.element_index index;
    element_total = keep_first e.element_total total;
  }

  unfoldable pub set_sizes : ℕ → ℕ → AdapterError Code Stage → AdapterError Code Stage
  unfolding keep_first
  set_sizes expected actual e = record e {
    expected_size = keep_first e.expected_size expected;
    actual_size = keep_first e.actual_size actual;
  }
