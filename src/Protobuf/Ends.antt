-- ===== src/Protobuf/Ends.antt =====
-- Steps of the protobuf reader that come to an end with no more bytes ahead than before, and the codecs
-- of single values that are such steps.
use Prim.Native.Nat.{bit_and, bit_or}
use contract.Prelude.{
  ℕ, ◌+◌, ◌-◌, ◌*◌, ◌^◌, ◌%◌, ◌≤◌, ◌<◌, Bool, true, false, Bool-cases, inl, inr, Option, none, some,
  List, [], ◌∷◌, arith, ltb, ◌==◌, if◌then◌else◌, length, length-drop, word, of_bytes,
}
use contract.Error.{FieldInfo}
use contract.Io.Window.{peek, consume}
use contract.Io.Window.Laws.{consume-eq-drop}
use contract.Protobuf.Codes.{WireType, wire_value, ReadStage, staged_error}
use contract.Protobuf.Varint.{scan_varint}
use contract.Protobuf.Reader.{
  Reader, Outcome, done, error, out_of_fuel, ReadM, ReadError, ◌>>=◌, next_read, pure, read_fails,
  scanned, read_varint, view_whole, read_view, read_fixed32, read_fixed64,
}
use contract.Protobuf.Scalar.{
  Scalar, described_read, read_scalar, read_scalar_field, value_error, mismatch_error, is_varint,
}
use contract.Protobuf.Codec.{Codec, describing_read, read_expected, scalar_codec}
use contract.Protobuf.Codec.Floats.{Precision, read_float, read_float_field, float_codec}
use contract.Protobuf.Codec.Text.{read_string, read_string_field, string_codec}

abbrev pub bytes_left : Reader → ℕ
bytes_left r = length r.input.rest

-- A step that ends, and that leaves at most n bytes when it succeeds.
abbrev pub Ends : {A : Type 0} → ℕ → Reader × Outcome A → Type 0
Ends n (r, out_of_fuel) = ⊥
Ends n (r, done a) = bytes_left r ≤ n
Ends n (r, error) = Unit {0}

abbrev pub Total : {A : Type 0} → ReadM A → Type 0
Total m = (r : Reader) → Ends (bytes_left r) (m r)

pub Ends-fails :
    (A : Type 0) (n : ℕ) (describe : ReadError → ReadError) (r : Reader)
    → Ends n (read_fails {A = A} describe r)
unfolding read_fails
Ends-fails A n describe r = tt

module _ {A : Type 0} where
  pub Ends-le : (n k : ℕ) (p : Reader × Outcome A) → n ≤ k → Ends n p → Ends k p
  Ends-le n k (r, done a) le h = omega arith
  Ends-le n k (r, error) le h = tt
  Ends-le n k (r, out_of_fuel) le h = h

  pub Ends-described :
      (n : ℕ) (describe : ReadError → ReadError) (p : Reader × Outcome A)
      → Ends n p
      → Ends n (described_read describe p)
  Ends-described n describe (r, done a) h = h
  Ends-described n describe (r, error) h = Ends-fails _ n describe r
  Ends-described n describe (r, out_of_fuel) h = absurd h

  pub Ends-if :
      (n : ℕ) (b : Bool) (p q : Reader × Outcome A)
      → Ends n p
      → Ends n q
      → Ends n (if b then p else q)
  Ends-if n true p q h g = h
  Ends-if n false p q h g = g

  pub Total-if : (b : Bool) (m k : ReadM A) → Total m → Total k → Total (if b then m else k)
  Total-if true m k h g = h
  Total-if false m k h g = g

  pub Ends-consume :
      (k : ℕ) (a : A) (r : Reader)
      → Ends (bytes_left r - k) (record r { input = consume r.input k }, done a)
  Ends-consume k a r = rw (consume-eq-drop r.input k) (omega (arith, length-drop k r.input.rest))

  pub Total-describing :
      (describe : ReadError → ReadError) (m : ReadM A)
      → Total m
      → Total (describing_read describe m)
  Total-describing describe m h r = Ends-described (bytes_left r) describe (m r) (h r)

  pub Total-expected :
      (expected wire : WireType) (info : FieldInfo) (describe : ReadError → ReadError) (m : ReadM A)
      → Total m
      → Total (read_expected expected info wire describe m)
  unfolding read_expected
  Total-expected expected wire info describe m h r =
      Ends-if (bytes_left r) (wire_value wire == wire_value expected)
        (described_read describe (m r)) (read_fails (mismatch_error expected info wire) r)
        (Ends-described (bytes_left r) describe (m r) (h r))
        (Ends-fails _ (bytes_left r) (mismatch_error expected info wire) r)

module _ {A B : Type 0} where
  pub Ends-next :
      (n : ℕ) (k : A → ReadM B) (p : Reader × Outcome A)
      → Ends n p
      → ((a : A) (r : Reader) → bytes_left r ≤ n → Ends n (k a r))
      → Ends n (next_read k p)
  Ends-next n k (r, done a) h g = g a r h
  Ends-next n k (r, error) h g = tt
  Ends-next n k (r, out_of_fuel) h g = absurd h

  pub Total-bind :
      (m : ReadM A) (k : A → ReadM B) → Total m → ((a : A) → Total (k a)) → Total (m >>= k)
  Total-bind m k h g r =
      Ends-next (bytes_left r) k (m r) (h r)
        (λ a r' le. Ends-le (bytes_left r') (bytes_left r) (k a r') le (g a r'))

  pub Total-map : (m : ReadM A) (f : A → B) → Total m → Total (m >>= λ a. pure (f a))
  Total-map m f h = Total-bind m (λ a. pure (f a)) h (λ a r. omega arith)

-- A varint that is found has one byte more than were passed before.
abbrev Counted : ℕ → Option (ℕ × ℕ) → Type 0
Counted i none = Unit {0}
Counted i (some (value, count)) = i < count

Counted-le : (i k : ℕ) (o : Option (ℕ × ℕ)) → i ≤ k → Counted k o → Counted i o
Counted-le i k none le h = tt
Counted-le i k (some (value, count)) le h = omega arith

scan_varint-Counted :
    (bytes : List ℕ) (shift value i : ℕ) → Counted i (scan_varint bytes shift value i)
unfolding scan_varint
scan_varint-Counted [] shift value i = tt
scan_varint-Counted (b ∷ bytes) shift value i =
    let value' = bit_or value (bit_and b 0x7f * 2 ^ shift % word) in
    let later = scan_varint-Counted bytes (shift + 7) value' (i + 1) in
    elim (Bool-cases (bit_and b 0x80 == 0)) [
      | inl last ↦ rw last (omega arith)
      | inr more ↦
          rw more (
            Counted-le i (i + 1) (scan_varint bytes (shift + 7) value' (i + 1)) (omega arith) later)
    ]

pub Ends-scanned :
    (size : ℕ) (r : Reader) (o : Option (ℕ × ℕ))
    → Counted 0 o
    → Ends (bytes_left r - 1) (scanned size r o)
unfolding scanned
Ends-scanned size r none h =
    Ends-if (bytes_left r - 1) (ltb size 10) (read_fails _ r) (read_fails _ r)
      (Ends-fails _ (bytes_left r - 1) _ r) (Ends-fails _ (bytes_left r - 1) _ r)
Ends-scanned size r (some (value, count)) h =
    Ends-le (bytes_left r - count) (bytes_left r - 1)
      (record r { input = consume r.input count }, done value) (omega arith)
      (Ends-consume count value r)

-- A varint that is read takes a byte at least; with none left it is an error.
pub Ends-varint : (r : Reader) → Ends (bytes_left r - 1) (read_varint r)
unfolding read_varint
Ends-varint r =
    let window = peek r.input 10 in
    Ends-if (bytes_left r - 1) (length window == 0) (read_fails _ r)
      (scanned (length window) r (scan_varint window 0 0 0)) (Ends-fails _ (bytes_left r - 1) _ r)
      (Ends-scanned (length window) r (scan_varint window 0 0 0) (scan_varint-Counted window 0 0 0))

pub Total-varint : Total read_varint
Total-varint r =
    Ends-le (bytes_left r - 1) (bytes_left r) (read_varint r) (omega arith) (Ends-varint r)

pub Total-view : (size : ℕ) → Total (read_view size)
unfolding read_view view_whole
Total-view size r =
    let window = peek r.input size in
    Ends-if (bytes_left r) (size == 0) (r, done []) _ (omega arith)
      (Ends-if (bytes_left r) (length window == size)
        (record r { input = consume r.input size }, done window) (read_fails _ r)
        (Ends-le (bytes_left r - size) (bytes_left r)
          (record r { input = consume r.input size }, done window) (omega arith)
          (Ends-consume size window r))
        (Ends-fails _ (bytes_left r) _ r))

-- A codec whose read of a field ends.
abbrev pub Finite : {A : Type 0} → Codec A → Type 0
Finite {A = A} c =
    (info : FieldInfo) (wire : WireType) (old : A) → Total (c.read_with info wire old)

pub scalar-Finite : {A : Type 0} (c : Scalar A) (initial : A) → Finite (scalar_codec c initial)
unfolding scalar_codec read_scalar read_scalar_field
scalar-Finite c initial info wire old r =
    Ends-if (bytes_left r) (is_varint wire) _
      (read_fails (mismatch_error WireType.varint info wire) r)
      (Total-describing (value_error info wire) (read_varint >>= λ raw. pure (c.of_raw raw))
        (Total-map read_varint c.of_raw Total-varint) r)
      (Ends-fails _ (bytes_left r) (mismatch_error WireType.varint info wire) r)

pub float-Finite : (p : Precision) → Finite (float_codec p)
unfolding float_codec read_float_field read_float read_fixed32 read_fixed64
float-Finite Precision.float info wire old =
    Total-expected _ wire info (value_error info wire) read_fixed32
      (Total-map (read_view 4) of_bytes (Total-view 4))
float-Finite Precision.double info wire old =
    Total-expected _ wire info (value_error info wire) read_fixed64
      (Total-map (read_view 8) of_bytes (Total-view 8))

pub string-Finite : Finite string_codec
unfolding string_codec read_string_field read_string
string-Finite info wire old =
    Total-expected WireType.length_delimited wire info (value_error info wire) read_string (
      Total-bind (describing_read (staged_error ReadStage.length) read_varint)
        (λ size. describing_read (staged_error ReadStage.field_value) (read_view size))
        (Total-describing (staged_error ReadStage.length) read_varint Total-varint)
        (λ size.
          Total-describing (staged_error ReadStage.field_value) (read_view size) (Total-view size)))
