-- ===== src/Binary/Codec/Optional.antt =====
-- binary/optional.hpp: `codec<std::optional<T>>`. It has no overload with a field, so the value is
-- written with none.
use contract.Prelude.{
  ℕ, ap, Bool, true, false, Option, none, some, List, ◌++◌, length, All, All-append, IsByte,
  to_bytes-IsByte,
}
use contract.Binary.Cipher.{Key, IsKey}
use contract.Binary.Stream.Sinks.{HasRoom}
use contract.Binary.Stream.Sources.{Holds, Holds-append}
use contract.Binary.Writer.{Writer, Status, Descriptor, ◌⟫◌, next_write, write_ok}
use contract.Binary.Reader.{Reader, ReadM, pure, ◌>>=◌, next_read}
use contract.Binary.Codec.{Codec}
use contract.Binary.Codec.Laws.{
  IsCodec, Writes, Reads, Writes-then, Reads-bind, HasRoom-append, wrote, took,
}
use contract.Binary.Codec.Scalar.{
  byte_of, write_bool, read_bool, encode_bool, Writes-bool, Reads-bool,
}
use contract.Binary.Codec.Sequence.Laws.{Reads-map}

module _ {A : Type 0} (c : Codec A) where
  unfoldable pub write_optional : Option A → Writer → Writer × Status
  write_optional none = write_bool false ⟫ write_ok
  write_optional (some v) = write_bool true ⟫ c.write none v

  -- What follows `has_value`.
  unfoldable pub read_optional_body : Bool → ReadM (Option A)
  read_optional_body false = pure none
  read_optional_body true = c.read none c.initial >>= λ item. pure (some item)

  unfoldable pub optional : Codec (Option A)
  unfolding write_optional read_optional_body
  optional = record {
    write = λ d. write_optional;
    read = λ d old. read_bool >>= read_optional_body;
    initial = none;
  }

abbrev pub encode_optional :
    {A : Type 0} → (Key → Bool → A → List ℕ) → Key → Bool → Option A → List ℕ
encode_optional encode key active none = encode_bool false
encode_optional encode key active (some v) = encode_bool true ++ encode key active v

abbrev pub FitsOptional :
    {A : Type 0} → (Option Descriptor → A → Type 0) → Option Descriptor → Option A → Type 0
FitsOptional Fits d none = Unit
FitsOptional Fits d (some v) = Fits none v

module _ {A : Type 0} (c : Codec A) (encode : Key → Bool → A → List ℕ)
    (Fits : Option Descriptor → A → Type 0) (law : IsCodec c encode Fits) where
  Writes-optional :
      (v : Option A) (d : Option Descriptor) (w : Writer)
      → FitsOptional Fits d v
      → HasRoom w.out (length (encode_optional encode w.encrypt_key w.encrypt_active v))
      → Writes (write_optional c v) w (encode_optional encode w.encrypt_key w.encrypt_active v)
  unfolding write_optional
  Writes-optional none d w fits room = ap (next_write write_ok) (Writes-bool w false room)
  Writes-optional (some v) d w fits room =
      let (front, back) =
        HasRoom-append w (encode_bool true) (encode w.encrypt_key w.encrypt_active v) room in
      Writes-then (write_bool true) (c.write none v) w (encode_bool true)
        (encode w.encrypt_key w.encrypt_active v) (Writes-bool w true front)
        (law.writes none v (wrote w (encode_bool true)) fits back)

  Reads-optional :
      (v : Option A) (d : Option Descriptor) (r : Reader)
      → FitsOptional Fits d v
      → Holds r.input (encode_optional encode r.encrypt_key r.encrypt_active v)
      → Reads
          (read_bool >>= read_optional_body c)
          r
          (encode_optional encode r.encrypt_key r.encrypt_active v)
          v
  unfolding read_optional_body
  Reads-optional none d r fits h = ap (next_read (read_optional_body c)) (Reads-bool r false h)
  Reads-optional (some v) d r fits h =
      let bytes = encode r.encrypt_key r.encrypt_active v in
      let (front, back) = Holds-append r.input (encode_bool true) bytes h in
      let r' = took r (length (encode_bool true)) in
      Reads-bind read_bool (read_optional_body c) r (encode_bool true) bytes true (some v)
        (Reads-bool r true front)
        (Reads-map (c.read none c.initial) some r' bytes v
          (law.reads none v c.initial r' fits back))

  optional-IsByte :
      (key : Key) (active : Bool) (d : Option Descriptor) (v : Option A)
      → IsKey key
      → FitsOptional Fits d v
      → All IsByte (encode_optional encode key active v)
  optional-IsByte key active d none k fits = to_bytes-IsByte 1 (byte_of false)
  optional-IsByte key active d (some v) k fits =
      All-append IsByte (encode_bool true) (encode key active v) (to_bytes-IsByte 1 (byte_of true))
        (law.bytes key active none v k fits)

  -- An optional is stored as one byte that says whether there is a value, and the value if there is;
  -- it is read back empty or with the same value.
  pub optional-IsCodec : IsCodec (optional c) (encode_optional encode) (FitsOptional Fits)
  optional-IsCodec = record {
    writes = λ d v w. unfold optional in Writes-optional v d w;
    reads = λ d v old r. unfold optional in Reads-optional v d r;
    bytes = optional-IsByte;
  }
