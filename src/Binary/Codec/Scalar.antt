-- ===== src/Binary/Codec/Scalar.antt =====
-- The raw codec of binary.hpp: a scalar, an enumerator or a `std::byte` is its object
-- representation. A `bool` is read as true when its byte is not 0.
use contract.Prelude.{
  ℕ, ◌<◌, ◌^◌, ◌≡◌, refl, ap, ◌∙◌, Bool, true, false, Option, List, arith, ◌==◌, if◌then◌else◌,
  length, to_bytes, length-to_bytes, to_bytes-IsByte,
}
use contract.Binary.Stream.Sinks.{HasRoom}
use contract.Binary.Stream.Sources.{Holds}
use contract.Binary.Writer.{Writer, Status, Descriptor, write_scalar}
use contract.Binary.Reader.{Reader, Outcome, ReadM, pure, ◌>>=◌, next_read, read_scalar}
use contract.Binary.Cipher.{Key}
use contract.Binary.Codec.{Codec}
use contract.Binary.Codec.Laws.{IsCodec, Writes, Reads, took, Writes-scalar, Reads-scalar}

unfoldable pub scalar : ℕ → Codec ℕ
scalar size = record {
  write = λ d value. write_scalar size value;
  read = λ d old. read_scalar size;
  initial = 0;
}

-- `write_value(has_value)` and `read_value(has_value)`
unfoldable pub byte_of : Bool → ℕ
byte_of true = 1
byte_of false = 0

unfoldable pub write_bool : Bool → Writer → Writer × Status
write_bool b = write_scalar 1 (byte_of b)

unfoldable pub read_bool : ReadM Bool
read_bool = read_scalar 1 >>= λ b. pure (if b == 0 then false else true)

abbrev pub encode_scalar : ℕ → Key → Bool → ℕ → List ℕ
encode_scalar size key active v = to_bytes size v

abbrev pub FitsScalar : ℕ → Option Descriptor → ℕ → Type 0
FitsScalar size d v = v < 256 ^ size

pub scalar-IsCodec : (size : ℕ) → IsCodec (scalar size) (encode_scalar size) (FitsScalar size)
unfolding scalar
scalar-IsCodec size = record {
  writes = λ d v w fits room. Writes-scalar w size v (rw length-to_bytes at room);
  reads = λ d v old r fits h. Reads-scalar r size v fits h;
  bytes = λ key active d v k fits. to_bytes-IsByte size v;
}

abbrev pub encode_bool : Bool → List ℕ
encode_bool b = to_bytes 1 (byte_of b)

pub Writes-bool :
    (w : Writer) (b : Bool)
    → HasRoom w.out (length (encode_bool b))
    → Writes (write_bool b) w (encode_bool b)
unfolding write_bool
Writes-bool w b room = Writes-scalar w 1 (byte_of b) (rw length-to_bytes at room)

pub Reads-bool :
    (r : Reader) (b : Bool) → Holds r.input (encode_bool b) → Reads read_bool r (encode_bool b) b
unfolding read_bool
Reads-bool r b h =
    ap (next_read (λ n. pure (if n == 0 then false else true)))
      (Reads-scalar r 1 (byte_of b) (small b) h)
    ∙ ap (λ t. (took r (length (encode_bool b)), Outcome.done t)) (back b)
  where
    small : (b : Bool) → byte_of b < 256 ^ 1
    small true = unfold byte_of in omega arith
    small false = unfold byte_of in omega arith

    back : (b : Bool) → (if byte_of b == 0 then false else true) ≡ b
    back true = unfold byte_of in refl
    back false = unfold byte_of in refl
