-- ===== src/Binary/Object/Operators.antt =====
-- `operator<<` and `operator>>` of the writer and the reader in
-- include/contract/adapters/binary.hpp, on checked memory, and what is received of what was sent.
use native.Mathlib.Nat.{zero-add}
use contract.Prelude.{
  ℕ, ◌≤◌, ◌≡◌, refl, ap, ap₂, Bool, false, Option, none, some, List, [], ◌∷◌, ◌++◌, length,
  drop_all,
}
use mathlib.Core.List.{append-nil}
use contract.Binary.Cipher.{Key}
use contract.Binary.Stream.{Sink, Source}
use contract.Binary.Stream.Sinks.{push}
use contract.Binary.Stream.Sources.{Holds, IsPrefix, IsPrefix-append, advance}
use contract.Binary.Writer.{Writer, Status, ok, error, Descriptor, WriteError, current_write_error}
use contract.Binary.Reader.{Reader, Outcome, done, length_error, ReadError, current_read_error}
use contract.Binary.Codec.{Codec}
use contract.Binary.Codec.Laws.{IsCodec, wrote, took}
use contract.Binary.Object.{object}
use contract.Binary.Object.Fields.{LawfulField}
use contract.Binary.Object.Laws.{fields, encode_object, FieldsFit, stored, object-IsCodec}

-- writer{data, size, opt} and reader{data, size, opt}
unfoldable pub writer_over : List ℕ → Key → Writer
writer_over free key = record {
  out = Sink.checked (record { written = []; free = free });
  encrypt_key = key;
  encrypt_active = false;
  failure = none;
}

unfoldable pub reader_over : List ℕ → Key → Reader
reader_over bytes key = record {
  input = Source.checked (record { consumed = 0; rest = bytes });
  encrypt_key = key;
  encrypt_active = false;
  failure = none;
}

-- A reader finds what its memory begins with.
pub reader_over-Holds :
    (bytes more : List ℕ) (key : Key) → Holds (reader_over (bytes ++ more) key).input bytes
unfolding reader_over
reader_over-Holds bytes more key = IsPrefix-append bytes more

-- if (… == write_status::error) { throw std::runtime_error(error_message()); }
-- What is thrown is given by the error that the message is made of.
unfoldable pub thrown_write : Writer × Status → Writer × Option WriteError
unfolding current_write_error
thrown_write (w, ok) = (w, none)
thrown_write (w, error) = (w, some (current_write_error w.failure))

-- What `operator>>` comes to: the value read, a std::runtime_error, or the std::length_error of a
-- container.
pub data Received (A : Type 0) : Type 0 where
  value : A → Received A
  failed : ReadError → Received A
  too_long : Received A

module _ {A : Type 0} where
  -- writer::operator<<
  unfoldable pub shift_out : Codec A → A → Writer → Writer × Option WriteError
  unfolding thrown_write
  shift_out c v w = thrown_write (c.write none v (record w { failure = none }))

  unfoldable pub thrown_read : Reader × Outcome A → Reader × Received A
  unfolding current_read_error
  thrown_read (r, done a) = (r, Received.value a)
  thrown_read (r, Outcome.error) = (r, Received.failed (current_read_error r.failure))
  thrown_read (r, length_error) = (r, Received.too_long)

  -- reader::operator>>
  unfoldable pub shift_in : Codec A → A → Reader → Reader × Received A
  unfolding thrown_read
  shift_in c old r = thrown_read (c.read none old (record r { failure = none }))

-- The bytes that an output has taken.
abbrev pub stored_bytes : Sink → List ℕ
stored_bytes (Sink.plain o) = o.written
stored_bytes (Sink.checked o) = o.written
stored_bytes (Sink.encrypting s key offset) = stored_bytes s

stored_bytes-push :
    (free bytes : List ℕ)
    → stored_bytes (push (Sink.checked (record { written = []; free = free })) bytes) ≡ bytes
unfolding push
stored_bytes-push free [] = refl
stored_bytes-push free (b ∷ bytes) = refl

stored_bytes-writer_over :
    (free bytes : List ℕ) (key : Key) → stored_bytes (push (writer_over free key).out bytes) ≡ bytes
unfolding writer_over
stored_bytes-writer_over free bytes key = stored_bytes-push free bytes

IsPrefix-self : (bytes : List ℕ) → IsPrefix bytes bytes
IsPrefix-self bytes = rw append-nil at (IsPrefix-append bytes [])

advance-whole :
    (bytes : List ℕ)
    → advance (Source.checked (record { consumed = 0; rest = bytes })) (length bytes)
      ≡ Source.checked (record { consumed = length bytes; rest = [] })
unfolding advance
advance-whole [] = refl
advance-whole (b ∷ bytes) =
    ap₂ (λ n t. Source.checked (record { consumed = n; rest = t })) (zero-add (length (b ∷ bytes)))
      (drop_all (length bytes) bytes refl)

advance-reader_over :
    (bytes : List ℕ) (key : Key)
    → advance (reader_over bytes key).input (length bytes)
      ≡ Source.checked (record { consumed = length bytes; rest = [] })
unfolding reader_over
advance-reader_over bytes key = advance-whole bytes

module _ {A : Type 0} (c : Codec A) (encode : Key → Bool → A → List ℕ)
    (Fits : Option Descriptor → A → Type 0) (law : IsCodec c encode Fits) where
  shift_out-stores :
      (v : A) (free : List ℕ) (key : Key) (earlier : Option WriteError)
      → Fits none v
      → length (encode key false v) ≤ length free
      → shift_out c v (record (writer_over free key) { failure = earlier })
        ≡ (wrote (writer_over free key) (encode key false v), none)
  unfolding shift_out writer_over
  shift_out-stores v free key earlier fits room =
      ap thrown_write (law.writes none v (writer_over free key) fits room)

  shift_in-finds :
      (v old : A) (key : Key) (earlier : Option ReadError)
      → Fits none v
      → shift_in c old (record (reader_over (encode key false v) key) { failure = earlier }) ≡ (
        took (reader_over (encode key false v) key) (length (encode key false v)),
        Received.value v,
      )
  unfolding shift_in reader_over
  shift_in-finds v old key earlier fits =
      let bytes = encode key false v in
      ap thrown_read (law.reads none v old (reader_over bytes key) fits (IsPrefix-self bytes))

module _ {O : Type 0} (ls : List (LawfulField O)) (initial : O)
    (whole : (o p : O) → stored ls o p ≡ o) where
  -- An object whose fields fit their codecs, which keep their promise, and make up the object, is stored
  -- by `operator<<` in checked memory with room for it, field by field and encrypted where a field has
  -- security::encrypt, without an exception, and an error of an earlier write is cleared. Then
  -- `operator>>` of a reader with the same key over exactly the bytes stored gives the object back
  -- whatever the destination held, without an exception, with every byte consumed and an error of an
  -- earlier read cleared.
  pub sent-received :
      (o old : O) (free : List ℕ) (key : Key) (earlier_write : Option WriteError)
      (earlier_read : Option ReadError)
      → FieldsFit ls o
      → length (encode_object ls key false o) ≤ length free
      → let (w, thrown) =
          shift_out
            (object (fields ls) initial)
            o
            (record (writer_over free key) { failure = earlier_write }) in
        (thrown ≡ none)
        × (w.failure ≡ none)
        × (stored_bytes w.out ≡ encode_object ls key false o)
        × (shift_in
              (object (fields ls) initial)
              old
              (record (reader_over (stored_bytes w.out) key) { failure = earlier_read })
            ≡ (
              record (reader_over (stored_bytes w.out) key) {
                input =
                    Source.checked (record { consumed = length (stored_bytes w.out); rest = [] });
                failure = none;
              },
              Received.value o,
            ))
  unfolding reader_over
  sent-received o old free key earlier_write earlier_read fits room =
      let bytes = encode_object ls key false o in
      let c = object (fields ls) initial in
      let Fits = λ (d : Option Descriptor) (o : O). FieldsFit ls o in
      let law = object-IsCodec ls initial whole in
      rw
        (
          shift_out-stores c (encode_object ls) Fits law o free key earlier_write fits room,
          stored_bytes-writer_over free bytes key,
          shift_in-finds c (encode_object ls) Fits law o old key earlier_read fits,
        )
        (
          refl,
          (unfold writer_over in refl),
          refl,
          ap (λ i. (record (reader_over bytes key) { input = i; failure = none }, Received.value o))
              (advance-reader_over bytes key),
        )
