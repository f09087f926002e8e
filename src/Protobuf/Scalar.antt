-- ===== src/Protobuf/Scalar.antt =====
-- The codecs of protobuf.hpp for values that are one varint: `bool`, the integers and the enumerators.
use contract.Prelude.{ℕ, ◌-◌, ◌%◌, ◌^◌, Bool, true, false, ltb, ◌==◌, if◌then◌else◌, ℤ}
use contract.Error.{FieldInfo}
use contract.Protobuf.Codes.{
  WireType, ReadErrorCode, coded_error, fielded_error, set_wire, set_expected_wire,
}
use contract.Protobuf.Reader.{
  Reader, Outcome, done, error, out_of_fuel, ReadM, ReadError, pure, ◌>>=◌, read_fails, read_varint,
}
use contract.Protobuf.Writer.{Writer, Status, ok, write_varint, write_tag}

-- The casts of such a codec to and from the std::uint64_t of the wire. What else the codecs do is the
-- same for all of them.
pub record Scalar (A : Type 0) : Type 0 where
  pub to_raw : A → ℕ
  pub of_raw : ℕ → A

-- `value ? 1u : 0u`, and `raw != 0u`
unfoldable pub bool_scalar : Scalar Bool
bool_scalar = record {
  to_raw = λ value. if value then 1 else 0;
  of_raw = λ raw. if raw == 0 then false else true;
}

-- The integral types that are no bool and no character are 16, 32 or 64 bits wide.
pub data Width : Type 0 where
  short int long : Width

abbrev pub bits : Width → ℕ
bits Width.short = 16
bits Width.int = 32
bits Width.long = 64

abbrev pub sign_bit : Width → ℕ
sign_bit Width.short = 15
sign_bit Width.int = 31
sign_bit Width.long = 63

-- `static_cast<value_type>(raw)` of an unsigned type
unfoldable pub unsigned_scalar : Width → Scalar ℕ
unsigned_scalar w = record { to_raw = λ value. value; of_raw = λ raw. raw % 2 ^ bits w }

-- `static_cast<std::uint64_t>(value)` extends the sign.
unfoldable pub extend : ℤ → ℕ
extend (ℤ.pos n) = n
extend (ℤ.negsuc n) = 2 ^ 64 - 1 - n

-- `static_cast<value_type>(static_cast<std::int64_t>(raw))` keeps the low bits, the top one of which
-- is the sign.
unfoldable pub cast_signed : Width → ℕ → ℤ
cast_signed w raw =
    let low = raw % 2 ^ bits w in
    if ltb low (2 ^ sign_bit w) then ℤ.pos low else ℤ.negsuc (2 ^ bits w - 1 - low)

unfoldable pub signed_scalar : Width → Scalar ℤ
signed_scalar w = record { to_raw = extend; of_raw = cast_signed w }

abbrev pub next_write : (Writer → Writer × Status) → Writer × Status → Writer × Status
next_write k (w, ok) = k w
next_write k (w, Status.error) = (w, Status.error)

-- wire != wire_type::varint
unfoldable pub is_varint : WireType → Bool
is_varint WireType.varint = true
is_varint WireType.fixed64 = false
is_varint WireType.length_delimited = false
is_varint WireType.fixed32 = false
is_varint (WireType.unnamed n) = false

unfoldable pub mismatch_error : WireType → FieldInfo → WireType → ReadError → ReadError
unfolding coded_error fielded_error set_wire set_expected_wire
mismatch_error expected info wire e =
    set_expected_wire expected
      (set_wire wire (fielded_error info (coded_error ReadErrorCode.wire_type_mismatch e)))

unfoldable pub value_error : FieldInfo → WireType → ReadError → ReadError
unfolding fielded_error set_wire
value_error info wire e = set_wire wire (fielded_error info e)

module _ {A : Type 0} where
  abbrev pub described_read : (ReadError → ReadError) → Reader × Outcome A → Reader × Outcome A
  described_read describe (r, done a) = (r, done a)
  described_read describe (r, error) = read_fails describe r
  described_read describe (r, out_of_fuel) = (r, out_of_fuel)

module _ {A : Type 0} (c : Scalar A) where
  unfoldable pub write_scalar : A → Writer → Writer × Status
  write_scalar value = write_varint (c.to_raw value)

  -- `static_cast<std::uint32_t>(field.id)`
  unfoldable pub write_scalar_field : FieldInfo → A → Writer → Writer × Status
  write_scalar_field info value w =
      next_write (write_scalar value) (write_tag (info.id % 2 ^ 32) WireType.varint w)

  unfoldable pub read_scalar : ReadM A
  read_scalar = read_varint >>= λ raw. pure (c.of_raw raw)

  unfoldable pub read_scalar_field : FieldInfo → WireType → ReadM A
  read_scalar_field info wire r =
      if is_varint wire
      then described_read (value_error info wire) (read_scalar r)
      else read_fails (mismatch_error WireType.varint info wire) r
