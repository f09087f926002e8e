-- ===== src/Binary/Object.antt =====
-- The fields of an object: `field`, `write_field_value`, `write_object`, `read_field_value`,
-- `read_object` and the stream operators of include/contract/adapters/binary.hpp. The fields are
-- those of the object's definition, in its order.
pub mod Fields
pub mod Laws
pub mod Operators
pub mod Thrown
use contract.Prelude.{ℕ, Bool, true, Option, none, some, List, [], ◌∷◌, if◌then◌else◌}
use contract.Error.{set_field, set_stage, transfer_from}
use contract.Binary.Codes.{WriteStage, ReadStage}
use contract.Binary.Stream.{Sink, Source}
use contract.Binary.Writer.{
  Writer, Status, ok, error, Descriptor, WriteError, ◌⟫◌, write_ok, write_fails, described_write,
  current_write_error,
}
use contract.Binary.Reader.{
  Reader, Outcome, done, length_error, ReadM, ReadError, pure, ◌>>=◌, read_fails, described_read,
  current_read_error,
}
use contract.Binary.Codec.{Codec}

-- A descriptor with its `get` and `set`. `direct` is `can_direct_field_read_v`: the value is read
-- in place, through `ref`, and not into a fresh `value_type value{}` that `set` then stores.
pub record Field (O : Type 0) : Type 1 where
  pub descriptor : Descriptor
  pub Value : Type 0
  pub get : O → Value
  pub set : Value → O → O
  pub direct : Bool
  pub codec : Codec Value

-- encrypted_writer and its encrypted_out{out_, opt_.encrypt_key}
unfoldable pub encrypted_writer : Writer → Writer
encrypted_writer w = record {
  out = Sink.encrypting w.out w.encrypt_key 0;
  encrypt_key = w.encrypt_key;
  encrypt_active = true;
  failure = none;
}

-- The output that `encrypted_out` points to.
unfoldable pub wrapped_sink : Sink → Sink
wrapped_sink (Sink.plain o) = Sink.plain o
wrapped_sink (Sink.checked o) = Sink.checked o
wrapped_sink (Sink.encrypting s key offset) = s

unfoldable pub field_write_error : Descriptor → WriteError → WriteError
unfolding set_field set_stage
field_write_error d e = set_stage WriteStage.field_value (set_field d.info e)

-- What `field` does once the encrypted writer `child` is done.
unfoldable pub end_encrypted_write : Descriptor → Writer → Writer × Status → Writer × Status
unfolding wrapped_sink field_write_error transfer_from
end_encrypted_write d w (child, ok) = (record w { out = wrapped_sink child.out }, ok)
end_encrypted_write d w (child, error) =
    write_fails (λ e. field_write_error d (transfer_from (current_write_error child.failure) e))
      (record w { out = wrapped_sink child.out })

-- decrypting the same way: encrypted_reader and its encrypted_in{in_, opt_.encrypt_key}
unfoldable pub encrypted_reader : Reader → Reader
encrypted_reader r = record {
  input = Source.decrypting r.input r.encrypt_key 0;
  encrypt_key = r.encrypt_key;
  encrypt_active = true;
  failure = none;
}

unfoldable pub wrapped_source : Source → Source
wrapped_source (Source.plain i) = Source.plain i
wrapped_source (Source.checked i) = Source.checked i
wrapped_source (Source.decrypting s key offset) = s

unfoldable pub field_read_error : Descriptor → ReadError → ReadError
unfolding set_field set_stage
field_read_error d e = set_stage ReadStage.field_value (set_field d.info e)

unfoldable pub end_encrypted_read :
    {A : Type 0} → Descriptor → Reader → Reader × Outcome A → Reader × Outcome A
unfolding wrapped_source field_read_error transfer_from
end_encrypted_read d r (child, done a) = (record r { input = wrapped_source child.input }, done a)
end_encrypted_read d r (child, Outcome.error) =
    read_fails (λ e. field_read_error d (transfer_from (current_read_error child.failure) e))
      (record r { input = wrapped_source child.input })
end_encrypted_read d r (child, length_error) =
    (record r { input = wrapped_source child.input }, length_error)

module _ {O : Type 0} where
  unfoldable pub write_field_value : Field O → O → Writer → Writer × Status
  write_field_value f o = f.codec.write (some f.descriptor) (f.get o)

  unfoldable pub encrypted_write : Field O → O → Writer → Writer × Status
  encrypted_write f o w =
      end_encrypted_write f.descriptor w (write_field_value f o (encrypted_writer w))

  unfoldable pub plain_write : Field O → O → Writer → Writer × Status
  plain_write f o w = described_write (field_write_error f.descriptor) (write_field_value f o w)

  -- writer::field
  unfoldable pub write_field : Field O → O → Writer → Writer × Status
  write_field f o w =
      if f.descriptor.encrypt
      then if w.encrypt_active then plain_write f o w else encrypted_write f o w
      else plain_write f o w

  unfoldable pub write_object : List (Field O) → O → Writer → Writer × Status
  write_object [] o = write_ok
  write_object (f ∷ fs) o = write_field f o ⟫ write_object fs o

  unfoldable pub read_field_value : (f : Field O) → O → ReadM f.Value
  read_field_value f o =
      f.codec.read (some f.descriptor) (if f.direct then f.get o else f.codec.initial)

  unfoldable pub encrypted_read : (f : Field O) → O → ReadM f.Value
  encrypted_read f o r =
      end_encrypted_read f.descriptor r (read_field_value f o (encrypted_reader r))

  unfoldable pub plain_read : (f : Field O) → O → ReadM f.Value
  plain_read f o r = described_read (field_read_error f.descriptor) (read_field_value f o r)

  unfoldable pub field_value_read : (f : Field O) → O → ReadM f.Value
  field_value_read f o r =
      if f.descriptor.encrypt
      then if r.encrypt_active then plain_read f o r else encrypted_read f o r
      else plain_read f o r

  -- reader::field
  unfoldable pub read_field : Field O → O → ReadM O
  read_field f o = field_value_read f o >>= λ v. pure (f.set v o)

  unfoldable pub read_object : List (Field O) → O → ReadM O
  read_object [] o = pure o
  read_object (f ∷ fs) o = read_field f o >>= read_object fs

  -- A nested object is written and read field by field, as one that stands alone.
  unfoldable pub object : List (Field O) → O → Codec O
  object fs initial = record {
    write = λ d o. write_object fs o;
    read = λ d old. read_object fs old;
    initial = initial;
  }
