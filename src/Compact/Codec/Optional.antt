-- ===== src/Compact/Codec/Optional.antt =====
-- compact/optional.hpp: `codec<std::optional<T>>`: null, or the value with nothing in front.
use mathlib.Core.Path.{subst}
use contract.Prelude.{
  ℕ, ◌+◌, ◌-◌, ◌^◌, ◌≤◌, ◌<◌, ◌≡◌, refl, sym, ap, ◌∙◌, true, false, Bool-cases, inl, inr, Option,
  none, some, List, [], ◌∷◌, ◌++◌, arith, leb, ◌==◌, if◌then◌else◌,
}
use contract.Compact.Headers.{null_header, compact_byte_count}
use contract.Compact.Count.{compact_byte_count-Fits}
use contract.Compact.Writer.{Writer, Status, write_null}
use contract.Compact.Reader.{ReadM, pure, ◌>>=◌, next_read, peek_byte, consume_byte}
use contract.Compact.Wire.{
  Value, uint, negative, boolean, null, float32, float64, bytes, string, array, map, object, encode,
  encode_uint, encode_negative, encode_payload, encode_size, IsValue,
}
use contract.Compact.Steps.{Writes, at, Reads, Reads-map, peek_byte-ahead, Reads-consume}
use contract.Compact.Sizes.{Writes-null}
use contract.Compact.Codec.{Codec, Descriptor}
use contract.Compact.Codec.Laws.{IsCodec}

module _ {A : Type 0} (c : Codec A) where
  unfoldable pub write_optional : Option A → Writer → Writer × Status
  write_optional none = write_null
  write_optional (some value) = c.write none value

  -- By the header that is ahead: value.reset(), or value_type item{} that is read.
  unfoldable pub read_by_header : ℕ → ReadM (Option A)
  read_by_header header =
      if header == null_header
      then (consume_byte >>= λ _. pure none)
      else (c.read none c.initial >>= λ item. pure (some item))

  unfoldable pub read_optional : ReadM (Option A)
  read_optional = peek_byte >>= read_by_header

  unfoldable pub optional : Codec (Option A)
  optional = record { write = λ d. write_optional; read = λ d old. read_optional; initial = none }

abbrev pub IsNotNull : Value → Type 0
IsNotNull null = ⊥
IsNotNull _ = Unit {0}

-- Bytes that begin with another header than that of null.
pub record Begins (bs : List ℕ) : Type 0 where
  pub header : ℕ
  pub rest : List ℕ
  pub split : bs ≡ header ∷ rest
  pub other : (header == 0xb2) ≡ false

Begins-small : (b : ℕ) (rest : List ℕ) → b < 0xb2 → Begins (b ∷ rest)
Begins-small b rest h = record { header = b; rest = rest; split = refl; other = ground arith }

Begins-payload : (base v : ℕ) → base ≤ 0x58 → v < 2 ^ 64 → Begins (encode_payload base v)
unfolding encode_payload
Begins-payload base v low h =
    let (positive, bounded, fits) = compact_byte_count-Fits v h in
    Begins-small (base + (compact_byte_count v - 1)) _ (omega arith)

Begins-uint : (v : ℕ) → v < 2 ^ 64 → Begins (encode_uint v)
unfolding encode_uint
Begins-uint v h = elim (Bool-cases (leb v 63)) [
  | inl small ↦ rw small (Begins-small v [] (ground arith))
  | inr large ↦ rw large (Begins-payload 0x50 v (omega arith) h)
]

Begins-negative : (v : ℕ) → v < 2 ^ 63 → Begins (encode_negative v)
unfolding encode_negative
Begins-negative v h = elim (Bool-cases (leb v 15)) [
  | inl small ↦ rw small (Begins-small (0x40 + v) [] (ground arith))
  | inr large ↦ rw large (Begins-payload 0x58 (v + 1) (omega arith) (omega arith))
]

Begins-sized :
    (base size : ℕ) (more : List ℕ) → base ≤ 0xa0 → Begins (encode_size base size ++ more)
unfolding encode_size
Begins-sized base size more h = elim (Bool-cases (leb size 14)) [
  | inl small ↦ rw small (Begins-small (base + size) more (ground arith))
  | inr large ↦ rw large (Begins-small (base + 15) (encode_uint size ++ more) (omega arith))
]

Begins-value : (v : Value) → IsValue v → IsNotNull v → Begins (encode v)
unfolding encode IsValue
Begins-value (uint n) h other = Begins-uint n h
Begins-value (negative n) h other = Begins-negative n h
Begins-value (boolean true) h other = Begins-small 0xb1 [] (omega arith)
Begins-value (boolean false) h other = Begins-small 0xb0 [] (omega arith)
Begins-value null h other = absurd other
Begins-value (float32 bits) h other = record { header = 0xc4; rest = _; split = refl; other = refl }
Begins-value (float64 bits) h other = record { header = 0xc8; rest = _; split = refl; other = refl }
Begins-value (bytes bs) h other = Begins-sized 0x60 _ _ (omega arith)
Begins-value (string bs) h other = Begins-sized 0x70 _ _ (omega arith)
Begins-value (array vs) h other = Begins-sized 0x80 _ _ (omega arith)
Begins-value (map ps) h other = Begins-sized 0x90 _ _ (omega arith)
Begins-value (object ms) h other = Begins-sized 0xa0 _ _ (omega arith)

abbrev pub optional_value : {A : Type 0} → (A → Value) → Option A → Value
optional_value value_of none = null
optional_value value_of (some a) = value_of a

-- A value that is itself null would read back as no value.
abbrev pub FitsOptional :
    {A : Type 0}
    → (A → Value)
    → (Option Descriptor → A → Type 0)
    → Option Descriptor
    → Option A
    → Type 0
FitsOptional value_of Fits d none = Unit {0}
FitsOptional value_of Fits d (some a) = Fits none a × IsNotNull (value_of a)

module _ {A : Type 0} (c : Codec A) where
  null-none : read_by_header c 0xb2 ≡ (consume_byte >>= λ _. pure none)
  unfolding read_by_header
  null-none = refl

  other-item :
      (header : ℕ)
      → (header == 0xb2) ≡ false
      → read_by_header c header ≡ (c.read none c.initial >>= λ item. pure (some item))
  unfolding read_by_header
  other-item header h = rw h refl

  Reads-none : Reads (read_optional c) (0xb2 ∷ []) none
  unfolding read_optional
  Reads-none failure consumed more =
      ap (next_read (read_by_header c)) (peek_byte-ahead 0xb2 failure consumed more)
      ∙ ap (λ m. m (at failure consumed (0xb2 ∷ more))) null-none
      ∙ Reads-map consume_byte (λ _. none) (0xb2 ∷ []) tt (Reads-consume 0xb2) failure consumed more

  Reads-other :
      (bs : List ℕ) (a : A)
      → Begins bs
      → Reads (c.read none c.initial) bs a
      → Reads (read_optional c) bs (some a)
  unfolding read_optional
  Reads-other bs a begins h failure consumed more =
      let start = begins.header ∷ (begins.rest ++ more) in
      let front : bs ++ more ≡ start = ap (λ t. t ++ more) begins.split in
      ap (λ t. read_optional c (at failure consumed t)) front
      ∙ ap (next_read (read_by_header c))
          (peek_byte-ahead begins.header failure consumed (begins.rest ++ more))
      ∙ ap (λ m. m (at failure consumed start)) (other-item begins.header begins.other)
      ∙ ap
          (λ t.
            next_read (λ item. pure (some item)) (c.read none c.initial (at failure consumed t)))
          (sym front)
      ∙ ap (next_read (λ item. pure (some item))) (h failure consumed more)

  -- An optional goes as null or as its value, and is read back as it was, where the value keeps its
  -- promise and is not null itself.
  pub optional-IsCodec :
      (value_of : A → Value) (Fits : Option Descriptor → A → Type 0)
      → IsCodec c value_of Fits
      → IsCodec (optional c) (optional_value value_of) (FitsOptional value_of Fits)
  optional-IsCodec value_of Fits law = record {
    writes = writes;
    reads = reads;
    is_value = is_value;
  }
    where
      writes :
          (d : Option Descriptor) (o : Option A)
          → FitsOptional value_of Fits d o
          → Writes ((optional c).write d o) (encode (optional_value value_of o))
      writes d none fits = unfold optional write_optional encode in Writes-null
      writes d (some a) fits = unfold optional write_optional in law.writes none a fits.0

      reads :
          (d : Option Descriptor) (o old : Option A)
          → FitsOptional value_of Fits d o
          → Reads ((optional c).read d old) (encode (optional_value value_of o)) o
      reads d none old fits = unfold optional encode in Reads-none
      reads d (some a) old (fits, other) =
          unfold optional in
          Reads-other (encode (value_of a)) a
            (Begins-value (value_of a) (law.is_value none a fits) other)
            (law.reads none a c.initial fits)

      is_value :
          (d : Option Descriptor) (o : Option A)
          → FitsOptional value_of Fits d o
          → IsValue (optional_value value_of o)
      is_value d none fits = unfold IsValue in tt
      is_value d (some a) fits = law.is_value none a fits.0

  -- A value that its codec writes as null, as the codec of an optional does with none, is lost inside
  -- an optional: what is written for it is read back as no value at all.
  pub optional-loses_null :
      (value_of : A → Value) (Fits : Option Descriptor → A → Type 0) (a : A)
      → IsCodec c value_of Fits
      → Fits none a
      → value_of a ≡ null
      → Writes (write_optional c (some a)) (0xb2 ∷ []) × Reads (read_optional c) (0xb2 ∷ []) none
  unfolding write_optional
  optional-loses_null value_of Fits a law fits is_null = (
    subst (λ t. Writes (c.write none a) t) (ap encode is_null ∙ null_bytes)
        (law.writes none a fits),
    Reads-none,
  )
    where
      null_bytes : encode null ≡ 0xb2 ∷ []
      null_bytes = unfold encode in refl
