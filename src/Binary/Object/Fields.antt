-- ===== src/Binary/Object/Fields.antt =====
-- Fields that are written and read back, the encrypted ones included.
use contract.Prelude.{
  ℕ, zero, suc, ◌≡◌, refl, sym, ap, ◌∙◌, Bool, true, false, Option, some, List, [], ◌∷◌,
  if◌then◌else◌, length, All, IsByte,
}
use contract.Binary.Cipher.{Key, IsKey, scramble, length-scramble, scramble-IsByte}
use contract.Binary.Stream.{Sink, Source}
use contract.Binary.Stream.Sinks.{HasRoom, push}
use contract.Binary.Stream.Sources.{Holds, advance}
use contract.Binary.Writer.{Writer, Status, ok, Descriptor, described_write}
use contract.Binary.Reader.{Reader, done, ReadM, described_read}
use contract.Binary.Codec.Laws.{IsCodec, Writes, Reads, wrote, took}
use contract.Binary.Object.{
  Field, write_field_value, encrypted_writer, wrapped_sink, end_encrypted_write, encrypted_write,
  plain_write, write_field, read_field_value, encrypted_reader, wrapped_source, end_encrypted_read,
  encrypted_read, plain_read, field_value_read, field_write_error, field_read_error,
}

-- A field whose codec keeps its promise.
pub record LawfulField (O : Type 0) : Type 1 where
  pub field : Field O
  pub encode : Key → Bool → field.Value → List ℕ
  pub Fits : Option Descriptor → field.Value → Type 0
  pub law : IsCodec field.codec encode Fits

wrapped_sink-push :
    (s : Sink) (key : Key) (bytes : List ℕ)
    → wrapped_sink (push (Sink.encrypting s key 0) bytes) ≡ push s (scramble key 0 0 bytes)
unfolding wrapped_sink push scramble
wrapped_sink-push s key [] = refl
wrapped_sink-push s key (b ∷ bytes) = refl

wrapped_source-advance :
    (s : Source) (key : Key) (n : ℕ)
    → wrapped_source (advance (Source.decrypting s key 0) n) ≡ advance s n
unfolding wrapped_source advance
wrapped_source-advance s key zero = refl
wrapped_source-advance s key (suc n) = refl

-- A step that is chosen by whether the field asks for encryption and whether it is active.
chosen_write :
    (encrypt active : Bool) (m k : Writer → Writer × Status) (w : Writer) (xs ys : List ℕ)
    → (HasRoom w.out (length xs) → Writes m w xs)
    → (HasRoom w.out (length ys) → Writes k w ys)
    → HasRoom w.out (length (if encrypt then if active then xs else ys else xs))
    → (if encrypt then if active then m w else k w else m w)
      ≡ (wrote w (if encrypt then if active then xs else ys else xs), ok)
chosen_write true true m k w xs ys h g room = h room
chosen_write true false m k w xs ys h g room = g room
chosen_write false active m k w xs ys h g room = h room

chosen_read :
    {A : Type 0} (encrypt active : Bool) (m k : ReadM A) (r : Reader) (xs ys : List ℕ) (a : A)
    → (Holds r.input xs → Reads m r xs a)
    → (Holds r.input ys → Reads k r ys a)
    → Holds r.input (if encrypt then if active then xs else ys else xs)
    → (if encrypt then if active then m r else k r else m r)
      ≡ (took r (length (if encrypt then if active then xs else ys else xs)), done a)
chosen_read true true m k r xs ys a h g held = h held
chosen_read true false m k r xs ys a h g held = g held
chosen_read false active m k r xs ys a h g held = h held

module _ {O : Type 0} where
  -- The bytes of a field: those of its value, and the encrypted form of them where encryption
  -- begins at this field.
  abbrev pub encode_field : LawfulField O → Key → Bool → O → List ℕ
  encode_field l key active o =
      if l.field.descriptor.encrypt
      then if active
        then l.encode key active (l.field.get o)
        else scramble key 0 0 (l.encode key true (l.field.get o))
      else l.encode key active (l.field.get o)

  Writes-plain :
      (l : LawfulField O) (o : O) (w : Writer)
      → l.Fits (some l.field.descriptor) (l.field.get o)
      → HasRoom w.out (length (l.encode w.encrypt_key w.encrypt_active (l.field.get o)))
      → Writes (plain_write l.field o) w (l.encode w.encrypt_key w.encrypt_active (l.field.get o))
  unfolding plain_write write_field_value
  Writes-plain l o w fits room =
      ap (described_write (field_write_error l.field.descriptor))
        (l.law.writes (some l.field.descriptor) (l.field.get o) w fits room)

  Writes-encrypted :
      (l : LawfulField O) (o : O) (w : Writer)
      → l.Fits (some l.field.descriptor) (l.field.get o)
      → HasRoom w.out
          (length (scramble w.encrypt_key 0 0 (l.encode w.encrypt_key true (l.field.get o))))
      → Writes
          (encrypted_write l.field o)
          w
          (scramble w.encrypt_key 0 0 (l.encode w.encrypt_key true (l.field.get o)))
  unfolding encrypted_write write_field_value encrypted_writer
  Writes-encrypted l o w fits room =
      let bytes = l.encode w.encrypt_key true (l.field.get o) in
      ap (end_encrypted_write l.field.descriptor w) (
        l.law.writes (some l.field.descriptor) (l.field.get o) (encrypted_writer w) fits
          (rw length-scramble at room))
      ∙ (unfold end_encrypted_write in
          ap (λ s. (record w { out = s }, ok)) (wrapped_sink-push w.out w.encrypt_key bytes))

  pub Writes-field :
      (l : LawfulField O) (o : O) (w : Writer)
      → l.Fits (some l.field.descriptor) (l.field.get o)
      → HasRoom w.out (length (encode_field l w.encrypt_key w.encrypt_active o))
      → Writes (write_field l.field o) w (encode_field l w.encrypt_key w.encrypt_active o)
  unfolding write_field
  Writes-field l o w fits room =
      chosen_write l.field.descriptor.encrypt w.encrypt_active (plain_write l.field o)
        (encrypted_write l.field o) w (l.encode w.encrypt_key w.encrypt_active (l.field.get o))
        (scramble w.encrypt_key 0 0 (l.encode w.encrypt_key true (l.field.get o)))
        (Writes-plain l o w fits) (Writes-encrypted l o w fits) room

  Reads-plain :
      (l : LawfulField O) (o p : O) (r : Reader)
      → l.Fits (some l.field.descriptor) (l.field.get o)
      → Holds r.input (l.encode r.encrypt_key r.encrypt_active (l.field.get o))
      → Reads
          (plain_read l.field p)
          r
          (l.encode r.encrypt_key r.encrypt_active (l.field.get o))
          (l.field.get o)
  unfolding plain_read read_field_value
  Reads-plain l o p r fits h = ap (described_read (field_read_error l.field.descriptor)) (
      l.law.reads (some l.field.descriptor) (l.field.get o)
        (if l.field.direct then l.field.get p else l.field.codec.initial) r fits h)

  Reads-encrypted :
      (l : LawfulField O) (o p : O) (r : Reader)
      → l.Fits (some l.field.descriptor) (l.field.get o)
      → Holds r.input (scramble r.encrypt_key 0 0 (l.encode r.encrypt_key true (l.field.get o)))
      → Reads
          (encrypted_read l.field p)
          r
          (scramble r.encrypt_key 0 0 (l.encode r.encrypt_key true (l.field.get o)))
          (l.field.get o)
  unfolding encrypted_read read_field_value encrypted_reader
  Reads-encrypted l o p r fits h =
      let d = some l.field.descriptor in
      let v = l.field.get o in
      let key = r.encrypt_key in
      let bytes = l.encode key true v in
      ap (end_encrypted_read l.field.descriptor r) (
        l.law.reads d v (if l.field.direct then l.field.get p else l.field.codec.initial)
          (encrypted_reader r) fits (key.bytes, l.law.bytes key true d v key.bytes fits, h))
      ∙ (unfold end_encrypted_read in
          ap (λ s. (record r { input = s }, done v))
            (wrapped_source-advance r.input key (length bytes)
              ∙ ap (advance r.input) (sym (length-scramble key 0 0 bytes))))

  pub Reads-field_value :
      (l : LawfulField O) (o p : O) (r : Reader)
      → l.Fits (some l.field.descriptor) (l.field.get o)
      → Holds r.input (encode_field l r.encrypt_key r.encrypt_active o)
      → Reads
          (field_value_read l.field p)
          r
          (encode_field l r.encrypt_key r.encrypt_active o)
          (l.field.get o)
  unfolding field_value_read
  Reads-field_value l o p r fits h =
      chosen_read l.field.descriptor.encrypt r.encrypt_active (plain_read l.field p)
        (encrypted_read l.field p) r (l.encode r.encrypt_key r.encrypt_active (l.field.get o))
        (scramble r.encrypt_key 0 0 (l.encode r.encrypt_key true (l.field.get o))) (l.field.get o)
        (Reads-plain l o p r fits) (Reads-encrypted l o p r fits) h

  pub field-IsByte :
      (key : Key) (active : Bool) (l : LawfulField O) (o : O)
      → IsKey key
      → l.Fits (some l.field.descriptor) (l.field.get o)
      → All IsByte (encode_field l key active o)
  field-IsByte key active l o k fits =
      let d = some l.field.descriptor in
      let v = l.field.get o in
      chosen_bytes l.field.descriptor.encrypt active (l.encode key active v)
        (scramble key 0 0 (l.encode key true v)) (l.law.bytes key active d v k fits)
        (scramble-IsByte key 0 0 (l.encode key true v) k (l.law.bytes key true d v k fits))
    where
      chosen_bytes :
          (encrypt active : Bool) (xs ys : List ℕ)
          → All IsByte xs
          → All IsByte ys
          → All IsByte (if encrypt then if active then xs else ys else xs)
      chosen_bytes true true xs ys h g = h
      chosen_bytes true false xs ys h g = g
      chosen_bytes false active xs ys h g = h
