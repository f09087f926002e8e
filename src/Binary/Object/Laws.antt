-- ===== src/Binary/Object/Laws.antt =====
-- Objects that are written and read back, field by field.
use contract.Prelude.{
  ℕ, ◌≡◌, refl, ap, ◌∙◌, Bool, some, List, [], ◌∷◌, ◌++◌, length, All, All-append, IsByte,
}
use contract.Binary.Cipher.{Key, IsKey}
use contract.Binary.Stream.Sinks.{HasRoom, push}
use contract.Binary.Stream.Sources.{Holds, Holds-append, advance}
use contract.Binary.Writer.{Writer}
use contract.Binary.Reader.{Reader, done}
use contract.Binary.Codec.Laws.{
  IsCodec, Writes, Reads, Writes-then, Reads-bind, HasRoom-append, wrote, took,
}
use contract.Binary.Codec.Sequence.Laws.{Reads-map}
use contract.Binary.Object.{
  Field, write_field, write_object, field_value_read, read_field, read_object, object,
}
use contract.Binary.Object.Fields.{
  LawfulField, encode_field, Writes-field, Reads-field_value, field-IsByte,
}

module _ {O : Type 0} where
  abbrev pub fields : List (LawfulField O) → List (Field O)
  fields [] = []
  fields (l ∷ ls) = l.field ∷ fields ls

  abbrev pub encode_object : List (LawfulField O) → Key → Bool → O → List ℕ
  encode_object [] key active o = []
  encode_object (l ∷ ls) key active o = encode_field l key active o ++ encode_object ls key active o

  abbrev pub FieldsFit : List (LawfulField O) → O → Type 0
  FieldsFit [] o = Unit
  FieldsFit (l ∷ ls) o = l.Fits (some l.field.descriptor) (l.field.get o) × FieldsFit ls o

  -- `p` once every field of `o` is stored in it.
  abbrev pub stored : List (LawfulField O) → O → O → O
  stored [] o p = p
  stored (l ∷ ls) o p = stored ls o (l.field.set (l.field.get o) p)

  pub Writes-object :
      (ls : List (LawfulField O)) (o : O) (w : Writer)
      → FieldsFit ls o
      → HasRoom w.out (length (encode_object ls w.encrypt_key w.encrypt_active o))
      → Writes (write_object (fields ls) o) w (encode_object ls w.encrypt_key w.encrypt_active o)
  unfolding write_object
  Writes-object [] o w fits room = unfold push in refl
  Writes-object (l ∷ ls) o w fits room =
      let xs = encode_field l w.encrypt_key w.encrypt_active o in
      let ys = encode_object ls w.encrypt_key w.encrypt_active o in
      let (front, back) = HasRoom-append w xs ys room in
      Writes-then (write_field l.field o) (write_object (fields ls) o) w xs ys
        (Writes-field l o w fits.0 front) (Writes-object ls o (wrote w xs) fits.1 back)

  pub Reads-object :
      (ls : List (LawfulField O)) (o p : O) (r : Reader)
      → FieldsFit ls o
      → Holds r.input (encode_object ls r.encrypt_key r.encrypt_active o)
      → Reads
          (read_object (fields ls) p)
          r
          (encode_object ls r.encrypt_key r.encrypt_active o)
          (stored ls o p)
  unfolding read_object read_field
  Reads-object [] o p r fits h = unfold advance in refl
  Reads-object (l ∷ ls) o p r fits h =
      let xs = encode_field l r.encrypt_key r.encrypt_active o in
      let ys = encode_object ls r.encrypt_key r.encrypt_active o in
      let (front, back) = Holds-append r.input xs ys h in
      let q = l.field.set (l.field.get o) p in
      Reads-bind (read_field l.field p) (read_object (fields ls)) r xs ys q (stored ls o q)
        (Reads-map (field_value_read l.field p) (λ v. l.field.set v p) r xs (l.field.get o)
          (Reads-field_value l o p r fits.0 front))
        (Reads-object ls o q (took r (length xs)) fits.1 back)

  object-IsByte :
      (key : Key) (active : Bool) (ls : List (LawfulField O)) (o : O)
      → IsKey key
      → FieldsFit ls o
      → All IsByte (encode_object ls key active o)
  object-IsByte key active [] o k fits = tt
  object-IsByte key active (l ∷ ls) o k fits =
      All-append IsByte (encode_field l key active o) (encode_object ls key active o)
        (field-IsByte key active l o k fits.0) (object-IsByte key active ls o k fits.1)

  -- The codec of an object keeps the promise of a codec when those of its fields do, and when the
  -- fields make up the object: whatever the destination held, storing all of them leaves the
  -- object that was written. So objects nest, and encryption that begins at a field covers all
  -- that is inside it.
  pub object-IsCodec :
      (ls : List (LawfulField O)) (initial : O)
      → ((o p : O) → stored ls o p ≡ o)
      → IsCodec (object (fields ls) initial) (encode_object ls) (λ d o. FieldsFit ls o)
  object-IsCodec ls initial whole = record {
    writes = λ d o w fits room. unfold object in Writes-object ls o w fits room;
    reads = λ d o old r fits h.
        unfold object in
        Reads-object ls o old r fits h
        ∙ ap (λ t. (took r (length (encode_object ls r.encrypt_key r.encrypt_active o)), done t))
            (whole o old);
    bytes = λ key active d o k fits. object-IsByte key active ls o k fits;
  }
