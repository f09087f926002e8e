-- ===== src/Compact/Codec/Scalar.antt =====
-- The codecs of compact.hpp for `bool`, the integral types, the enumerations and the floating-point
-- types, the last given by their bits.
use contract.Prelude.{
  ℕ, ◌+◌, ◌-◌, ◌^◌, ◌≤◌, ◌<◌, ◌≡◌, refl, ap, ◌∙◌, Bool, false, Option, List, arith, ltb, le→ltb,
  if◌then◌else◌, length, ℤ,
}
use contract.Compact.Codes.{ReadErrorCode, ReadStage, coded_error}
use contract.Compact.Writer.{write_uint, write_int, write_bool, write_float32, write_float64}
use contract.Compact.Reader.{
  ReadM, done, pure, ◌>>=◌, next_read, read_fails, read_uint, read_int, read_bool, read_float32,
  read_float64,
}
use contract.Compact.Wire.{Value, encode, encode_uint, IsValue}
use contract.Compact.Steps.{Writes, at, Reads, Reads-map}
use contract.Compact.Integers.{Writes-uint, Reads-uint}
use contract.Compact.Signed.{encode_int, Writes-int, Reads-int}
use contract.Compact.Sizes.{
  Writes-bool, Reads-bool, Writes-float32, Reads-float32, Writes-float64, Reads-float64,
}
use contract.Compact.Codec.{Codec, Descriptor}
use contract.Compact.Codec.Laws.{IsCodec}

-- The integral types have 8, 16, 32 or 64 bits.
pub data Width : Type 0 where
  byte short int long : Width

-- std::numeric_limits<value_type>::max() of the unsigned type and of the signed one, whose min() is
-- -1 - max().
abbrev pub unsigned_max : Width → ℕ
unsigned_max Width.byte = 2 ^ 8 - 1
unsigned_max Width.short = 2 ^ 16 - 1
unsigned_max Width.int = 2 ^ 32 - 1
unsigned_max Width.long = 2 ^ 64 - 1

abbrev pub signed_max : Width → ℕ
signed_max Width.byte = 2 ^ 7 - 1
signed_max Width.short = 2 ^ 15 - 1
signed_max Width.int = 2 ^ 31 - 1
signed_max Width.long = 2 ^ 63 - 1

-- decoded < min() || decoded > max()
unfoldable pub is_outside : Width → ℤ → Bool
is_outside w (ℤ.pos n) = ltb (signed_max w) n
is_outside w (ℤ.negsuc n) = ltb (signed_max w) n

unfoldable pub bool_codec : Codec Bool
bool_codec = record { write = λ d. write_bool; read = λ d old. read_bool; initial = false }

unfoldable pub narrow_unsigned : Width → ℕ → ReadM ℕ
narrow_unsigned w decoded =
    if ltb (unsigned_max w) decoded
    then read_fails (coded_error ReadErrorCode.invalid_integer ReadStage.integer)
    else pure decoded

unfoldable pub unsigned_codec : Width → Codec ℕ
unsigned_codec w = record {
  write = λ d. write_uint;
  read = λ d old. read_uint >>= narrow_unsigned w;
  initial = 0;
}

unfoldable pub narrow_signed : Width → ℤ → ReadM ℤ
unfolding is_outside
narrow_signed w decoded =
    if is_outside w decoded
    then read_fails (coded_error ReadErrorCode.invalid_integer ReadStage.integer)
    else pure decoded

unfoldable pub signed_codec : Width → Codec ℤ
signed_codec w = record {
  write = λ d. write_int;
  read = λ d old. read_int >>= narrow_signed w;
  initial = ℤ.pos 0;
}

unfoldable pub float_codec : Codec ℕ
float_codec = record { write = λ d. write_float32; read = λ d old. read_float32; initial = 0 }

unfoldable pub double_codec : Codec ℕ
double_codec = record { write = λ d. write_float64; read = λ d old. read_float64; initial = 0 }

-- The two casts between an enumeration and its underlying type.
module _ {E U : Type 0} (underlying : Codec U) (to_underlying : E → U) (of_underlying : U → E) where
  unfoldable pub enum_codec : Codec E
  enum_codec = record {
    write = λ d value. underlying.write d (to_underlying value);
    read =
        λ d old. underlying.read d underlying.initial >>= λ decoded. pure (of_underlying decoded);
    initial = of_underlying underlying.initial;
  }

pub bool-IsCodec : IsCodec bool_codec Value.boolean (λ d b. Unit)
unfolding bool_codec encode IsValue
bool-IsCodec = record {
  writes = λ d b fits. Writes-bool b;
  reads = λ d b old fits. Reads-bool b;
  is_value = λ d b fits. tt;
}

narrow-unsigned : (w : Width) (v : ℕ) → v ≤ unsigned_max w → narrow_unsigned w v ≡ pure v
unfolding narrow_unsigned
narrow-unsigned w v h = rw (le→ltb (unsigned_max w) v h) refl

abbrev pub FitsUnsigned : Width → Option Descriptor → ℕ → Type 0
FitsUnsigned w d v = v ≤ unsigned_max w

unsigned-64 : (w : Width) (v : ℕ) → v ≤ unsigned_max w → v < 2 ^ 64
unsigned-64 Width.byte v h = omega arith
unsigned-64 Width.short v h = omega arith
unsigned-64 Width.int v h = omega arith
unsigned-64 Width.long v h = omega arith

-- What is read at 64 bits and fits the type is passed on.
Reads-narrow :
    {A : Type 0} (m : ReadM A) (k : A → ReadM A) (bytes : List ℕ) (a : A)
    → k a ≡ pure a
    → Reads m bytes a
    → Reads (m >>= k) bytes a
Reads-narrow m k bytes a e h failure consumed more =
    ap (next_read k) (h failure consumed more)
    ∙ ap (λ n. n (at failure (consumed + length bytes) more)) e

pub unsigned-IsCodec : (w : Width) → IsCodec (unsigned_codec w) Value.uint (FitsUnsigned w)
unfolding unsigned_codec encode IsValue
unsigned-IsCodec w = record {
  writes = λ d v fits. Writes-uint v (unsigned-64 w v fits);
  reads = λ d v old fits.
      Reads-narrow read_uint (narrow_unsigned w) (encode_uint v) v (narrow-unsigned w v fits)
        (Reads-uint v (unsigned-64 w v fits));
  is_value = λ d v fits. unsigned-64 w v fits;
}

abbrev pub int_value : ℤ → Value
int_value (ℤ.pos n) = Value.uint n
int_value (ℤ.negsuc n) = Value.negative n

abbrev pub FitsSigned : Width → Option Descriptor → ℤ → Type 0
FitsSigned w d (ℤ.pos n) = n ≤ signed_max w
FitsSigned w d (ℤ.negsuc n) = n ≤ signed_max w

signed-64 : (w : Width) (n : ℕ) → n ≤ signed_max w → n < 2 ^ 63
signed-64 Width.byte n h = omega arith
signed-64 Width.short n h = omega arith
signed-64 Width.int n h = omega arith
signed-64 Width.long n h = omega arith

narrow-signed :
    (w : Width) (z : ℤ) (d : Option Descriptor) → FitsSigned w d z → narrow_signed w z ≡ pure z
unfolding narrow_signed is_outside
narrow-signed w (ℤ.pos n) d h = rw (le→ltb (signed_max w) n h) refl
narrow-signed w (ℤ.negsuc n) d h = rw (le→ltb (signed_max w) n h) refl

pub signed-IsCodec : (w : Width) → IsCodec (signed_codec w) int_value (FitsSigned w)
signed-IsCodec w = record { writes = writes; reads = reads; is_value = is_value }
  where
    writes :
        (d : Option Descriptor) (z : ℤ)
        → FitsSigned w d z
        → Writes ((signed_codec w).write d z) (encode (int_value z))
    writes d (ℤ.pos n) fits =
        unfold signed_codec encode in Writes-int (ℤ.pos n) (signed-64 w n fits)
    writes d (ℤ.negsuc n) fits =
        unfold signed_codec encode in Writes-int (ℤ.negsuc n) (signed-64 w n fits)

    reads :
        (d : Option Descriptor) (z old : ℤ)
        → FitsSigned w d z
        → Reads ((signed_codec w).read d old) (encode (int_value z)) z
    reads d (ℤ.pos n) old fits =
        unfold signed_codec encode in
        Reads-narrow read_int (narrow_signed w) (encode_int (ℤ.pos n)) (ℤ.pos n)
          (narrow-signed w (ℤ.pos n) d fits) (Reads-int (ℤ.pos n) (signed-64 w n fits))
    reads d (ℤ.negsuc n) old fits =
        unfold signed_codec encode in
        Reads-narrow read_int (narrow_signed w) (encode_int (ℤ.negsuc n)) (ℤ.negsuc n)
          (narrow-signed w (ℤ.negsuc n) d fits) (Reads-int (ℤ.negsuc n) (signed-64 w n fits))

    is_value : (d : Option Descriptor) (z : ℤ) → FitsSigned w d z → IsValue (int_value z)
    is_value d (ℤ.pos n) fits = unfold IsValue in (let h = signed-64 w n fits in omega arith)
    is_value d (ℤ.negsuc n) fits = unfold IsValue in signed-64 w n fits

pub float-IsCodec : IsCodec float_codec Value.float32 (λ d bits. bits < 2 ^ 32)
unfolding float_codec encode IsValue
float-IsCodec = record {
  writes = λ d bits fits. Writes-float32 bits;
  reads = λ d bits old fits. Reads-float32 bits fits;
  is_value = λ d bits fits. fits;
}

pub double-IsCodec : IsCodec double_codec Value.float64 (λ d bits. bits < 2 ^ 64)
unfolding double_codec encode IsValue
double-IsCodec = record {
  writes = λ d bits fits. Writes-float64 bits;
  reads = λ d bits old fits. Reads-float64 bits fits;
  is_value = λ d bits fits. fits;
}

-- An enumerator goes as its number; each comes back from the cast of its own number.
pub enum-IsCodec :
    {E U : Type 0} (underlying : Codec U) (to_underlying : E → U) (of_underlying : U → E)
    (value_of : U → Value) (Fits : Option Descriptor → U → Type 0)
    → IsCodec underlying value_of Fits
    → ((e : E) → of_underlying (to_underlying e) ≡ e)
    → IsCodec
        (enum_codec underlying to_underlying of_underlying)
        (λ e. value_of (to_underlying e))
        (λ d e. Fits d (to_underlying e))
unfolding enum_codec
enum-IsCodec underlying to_underlying of_underlying value_of Fits law back = record {
  writes = λ d e fits. law.writes d (to_underlying e) fits;
  reads = λ d e old fits failure consumed more.
      Reads-map (underlying.read d underlying.initial) of_underlying
        (encode (value_of (to_underlying e))) (to_underlying e)
        (law.reads d (to_underlying e) underlying.initial fits) failure consumed more
      ∙ ap
          (λ t. (at failure (consumed + length (encode (value_of (to_underlying e)))) more, done t))
          (back e);
  is_value = λ d e fits. law.is_value d (to_underlying e) fits;
}
