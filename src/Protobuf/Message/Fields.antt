-- ===== src/Protobuf/Message/Fields.antt =====
-- Messages of protobuf.hpp that are read from fields in any order, each of them any number of times.
use Prim.Native.String.{String}
use mathlib.Core.List.{append_assoc, append-nil}
use contract.Prelude.{
  ℕ, suc, ◌+◌, ◌-◌, ◌*◌, ◌^◌, ◌≤◌, ◌<◌, ◌≡◌, refl, sym, ap, ap₂, ◌∙◌, false, true, Bool, Option,
  none, some, List, [], ◌∷◌, ◌++◌, arith, ◌==◌, length, length-append, ℤ,
}
use contract.Io.Window.{peek}
use contract.Io.Window.Laws.{peek-eq-take}
use contract.Io.Window.Stored.{input_of}
use contract.Protobuf.Codes.{wire_of}
use contract.Protobuf.Varint.{length-varint_bytes}
use contract.Protobuf.Reader.{ReadError, done, next_read, read_tag}
use contract.Protobuf.Steps.{
  at, tag_bytes, Reads, Reads-bind, Reads-map, Reads-tag, Reads-describing,
}
use contract.Protobuf.Codec.{describing_read}
use contract.Protobuf.Codec.Laws.{IsCodec}
use contract.Protobuf.Message.{
  Field, key_error, typed_error, read_field_error, find_field, read_slot, read_field, read_found,
  read_numbered, read_round, read_rounds, read_message,
}

-- A field whose codec keeps its promise.
pub record LawfulField (O : Type 0) : Type 1 where
  pub field : Field O
  pub wire : ℕ
  pub payload : field.Value → List ℕ
  pub framed : field.Value → List ℕ
  pub Fits : field.Value → Type 0
  pub law : IsCodec field.codec wire payload framed Fits

-- A field on the wire with the value that stands there.
pub record Entry (O : Type 0) : Type 1 where
  pub lawful : LawfulField O
  pub value : lawful.field.Value

module _ {O : Type 0} where
  abbrev pub fields : List (LawfulField O) → List (Field O)
  fields [] = []
  fields (l ∷ ls) = l.field ∷ fields ls

  abbrev pub number_of : Field O → ℕ
  number_of f = f.info.id

  -- A positive number, which is an int.
  abbrev pub HasNumber : Field O → Type 0
  HasNumber f = (n : ℕ) × (f.id ≡ ℤ.pos (suc n)) × (number_of f ≡ suc n) × (suc n < 2 ^ 31)

  abbrev pub entry_bytes : Entry O → List ℕ
  entry_bytes e = tag_bytes (number_of e.lawful.field) e.lawful.wire ++ e.lawful.framed e.value

  abbrev pub message_bytes : List (Entry O) → List ℕ
  message_bytes [] = []
  message_bytes (e ∷ es) = entry_bytes e ++ message_bytes es

  -- The message once the values are stored in it, one after the other.
  abbrev pub stored : List (Entry O) → O → O
  stored [] o = o
  stored (e ∷ es) o = stored es (e.lawful.field.set e.value o)

  -- The field is the first of the message with its number, and the value fits it.
  abbrev pub EntryFits : List (Field O) → Entry O → Type 1
  EntryFits fs e =
      HasNumber e.lawful.field
      × (find_field fs (number_of e.lawful.field) ≡ some e.lawful.field)
      × e.lawful.Fits e.value

  abbrev pub EntriesFit : List (Field O) → List (Entry O) → Type 1
  EntriesFit fs [] = Unit
  EntriesFit fs (e ∷ es) = EntryFits fs e × EntriesFit fs es

  pub number-bounds : (f : Field O) → HasNumber f → (0 < number_of f) × (number_of f < 2 ^ 32)
  number-bounds f (n, same, number, small) = (omega arith, omega arith)

  Reads-slot :
      (direct : Bool) (l : LawfulField O) (v : l.field.Value) (o : O)
      → l.Fits v
      → Reads (read_slot direct l.field (wire_of l.wire) o) (l.framed v) v
  unfolding read_slot
  Reads-slot true l v o fits = l.law.reads_with l.field.info v (l.field.get o) fits
  Reads-slot false l v o fits =
      Reads-describing (read_field_error l.field.info)
        (l.field.codec.read_with l.field.info (wire_of l.wire) l.field.codec.initial) (l.framed v) v
        (l.law.reads_with l.field.info v l.field.codec.initial fits)

  module _ (name : String) (fs : List (Field O)) where
    numbered-known :
        (l : LawfulField O) (o : O)
        → HasNumber l.field
        → find_field fs (number_of l.field) ≡ some l.field
        → read_numbered name fs o (number_of l.field, wire_of l.wire)
          ≡ describing_read (typed_error name) (read_field l.field (wire_of l.wire) o)
    unfolding read_numbered read_found
    numbered-known l o has_number found =
        let (pos, small) = number-bounds l.field has_number in
        let positive : (number_of l.field == 0) ≡ false = ground arith in rw (positive, found) refl

    Reads-round :
        (e : Entry O) (o : O)
        → EntryFits fs e
        → Reads (read_round name fs o) (entry_bytes e) (e.lawful.field.set e.value o)
    unfolding read_round read_field
    Reads-round e o (has_number, found, fits) =
        let l = e.lawful in
        let number = number_of l.field in
        let (pos, small) = number-bounds l.field has_number in
        let slot = read_slot l.field.direct l.field (wire_of l.wire) o in
        Reads-bind (describing_read (key_error name) read_tag) (read_numbered name fs o)
          (tag_bytes number l.wire) (l.framed e.value) (number, wire_of l.wire)
          (l.field.set e.value o)
          (Reads-describing (key_error name) read_tag (tag_bytes number l.wire)
            (number, wire_of l.wire) (Reads-tag number l.wire small l.law.small))
          (rw (numbered-known l o has_number found) (
            Reads-describing (typed_error name) (read_field l.field (wire_of l.wire) o)
              (l.framed e.value) (l.field.set e.value o)
              (Reads-map slot (λ v. l.field.set v o) (l.framed e.value) e.value
                (Reads-slot l.field.direct l e.value o fits))))

    -- Where a byte is left the loop goes on.
    pub rounds-more :
        (fuel : ℕ) (o : O) (failure : Option ReadError) (consumed : ℕ) (bytes : List ℕ)
        → 0 < length bytes
        → read_rounds name fs (suc fuel) o (at failure consumed bytes)
          ≡ next_read (read_rounds name fs fuel) (read_round name fs o (at failure consumed bytes))
    unfolding read_rounds
    rounds-more fuel o failure consumed [] left = absurd (omega arith)
    rounds-more fuel o failure consumed (b ∷ bytes) left =
        let seen = peek-eq-take (input_of consumed (b ∷ bytes)) 1 in
        let more : (length (peek (input_of consumed (b ∷ bytes)) 1) == 0) ≡ false = rw seen refl in
        rw more refl

    -- Fields that stand ahead are read by as many rounds, and what follows them by the next.
    pub rounds-entries :
        (es : List (Entry O)) (fuel : ℕ) (o : O) (failure : Option ReadError) (consumed : ℕ)
        (more : List ℕ)
        → EntriesFit fs es
        → read_rounds name fs (length es + fuel) o (at failure consumed (message_bytes es ++ more))
          ≡ read_rounds name fs fuel
              (stored es o)
              (at failure (consumed + length (message_bytes es)) more)
    rounds-entries [] fuel o failure consumed more fits =
        ap₂ (λ k n. read_rounds name fs k o (at failure n more)) (omega arith) (omega arith)
    rounds-entries (e ∷ es) fuel o failure consumed more (fit, fits) =
        let bytes = entry_bytes e in
        let rest = message_bytes es ++ more in
        let next = e.lawful.field.set e.value o in
        let k = read_rounds name fs (length es + fuel) in
        let some_left : 0 < length (bytes ++ rest) = omega (
          arith,
          length-append bytes rest,
          length-append (tag_bytes (number_of e.lawful.field) e.lawful.wire)
              (e.lawful.framed e.value),
          (length-varint_bytes 9 (number_of e.lawful.field * 8 + e.lawful.wire)).0,
        ) in
        ap₂ (λ k t. read_rounds name fs k o (at failure consumed t)) (omega arith)
          (append_assoc bytes (message_bytes es) more)
        ∙ rounds-more (length es + fuel) o failure consumed (bytes ++ rest) some_left
        ∙ ap (next_read k) (Reads-round e o fit failure consumed rest)
        ∙ rounds-entries es fuel next failure (consumed + length bytes) more fits
        ∙ ap (λ n. read_rounds name fs fuel (stored es next) (at failure n more))
            (omega (arith, length-append bytes (message_bytes es)))

    pub entries-shorter : (es : List (Entry O)) → length es ≤ length (message_bytes es)
    entries-shorter [] = omega arith
    entries-shorter (e ∷ es) = omega (
      arith,
      entries-shorter es,
      length-append (entry_bytes e) (message_bytes es),
      length-append (tag_bytes (number_of e.lawful.field) e.lawful.wire) (e.lawful.framed e.value),
      (length-varint_bytes 9 (number_of e.lawful.field * 8 + e.lawful.wire)).0,
    )

    -- The rounds of a message that begins with these fields.
    pub message-rounds :
        (es : List (Entry O)) (o : O) (failure : Option ReadError) (consumed : ℕ) (more : List ℕ)
        → EntriesFit fs es
        → (spare : ℕ) × (length more ≤ spare)
          × (read_message name fs o (at failure consumed (message_bytes es ++ more))
              ≡ read_rounds name fs
                  (suc spare)
                  (stored es o)
                  (at none (consumed + length (message_bytes es)) more))
    unfolding read_message
    message-rounds es o failure consumed more fits =
        let size = length (message_bytes es ++ more) in
        let both = length-append (message_bytes es) more in
        let shorter = entries-shorter es in
        let spare = size - length es in
        (
          spare,
          omega arith,
          ap (λ n. read_rounds name fs n o (at none consumed (message_bytes es ++ more)))
                (omega arith)
              ∙ rounds-entries es (suc spare) o none consumed more fits,
        )

    -- A message is read from fields of it that stand to the end of the input in any order, each of them
    -- any number of times: their values are stored one after the other, so that the last of a field is
    -- kept, and a field that does not stand there keeps what the destination held. All bytes are
    -- taken, and there is no error, not even an earlier one.
    pub message-accepts :
        (es : List (Entry O)) (o : O) (failure : Option ReadError) (consumed : ℕ)
        → EntriesFit fs es
        → read_message name fs o (at failure consumed (message_bytes es))
          ≡ (at none (consumed + length (message_bytes es)) [], done (stored es o))
    message-accepts es o failure consumed fits =
        let (spare, enough, e) = message-rounds es o failure consumed [] fits in
        ap (λ t. read_message name fs o (at failure consumed t))
          (sym (append-nil (message_bytes es)))
        ∙ e
        ∙ none_left spare (stored es o) (consumed + length (message_bytes es))
      where
        none_left :
            (fuel : ℕ) (o : O) (consumed : ℕ)
            → read_rounds name fs (suc fuel) o (at none consumed []) ≡ (at none consumed [], done o)
        none_left fuel o consumed =
            let seen = peek-eq-take (input_of consumed []) 1 in
            unfold read_rounds in
            (let ended : (length (peek (input_of consumed []) 1) == 0) ≡ true = rw seen refl in
              rw ended refl)
