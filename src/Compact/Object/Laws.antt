-- ===== src/Compact/Object/Laws.antt =====
-- The codec of an object of the compact adapter: what is written for an object is read back.
use Prim.Native.String.{String}
use mathlib.Core.Path.{subst}
use mathlib.Core.List.{append_assoc}
use contract.Prelude.{
  ℕ, suc, ◌+◌, ◌^◌, ◌<◌, ◌≡◌, refl, ap, ◌∙◌, some, List, [], ◌∷◌, ◌++◌, arith, length, ℤ,
}
use contract.Error.{set_type_name}
use contract.Compact.Codes.{ValueKind, WriteStage}
use contract.Compact.Writer.{◌⟫◌, describing_write, write_uint}
use contract.Compact.Reader.{done}
use contract.Compact.Wire.{
  object as object_value, encode, encode_members, encode_uint, IsValue, AreMembers,
}
use contract.Compact.Steps.{Writes, Writes-ok, Writes-then, Writes-describing, at}
use contract.Compact.Integers.{Writes-uint}
use contract.Compact.Sizes.{Sized}
use contract.Compact.Codec.Laws.{IsCodec, Writes-header_then}
use contract.Compact.Object.{
  Field, wire_id, field_error, type_error, write_numbered, write_by_id, write_field, write_fields,
  find_field, write_object, object,
}
use contract.Compact.Object.Members.{
  LawfulField, fields, HasId, id_of, FieldFits, Entry, known, members_of, stored, EntriesFit,
  count-members_of, id_of-positive, object-tolerates,
}

module _ {O : Type 0} where
  -- All of the fields, in their order.
  abbrev pub entries : List (LawfulField O) → List (Entry O)
  entries [] = []
  entries (l ∷ ls) = known l ∷ entries ls

  abbrev pub FieldsFit : List (LawfulField O) → O → Type 0
  FieldsFit [] o = Unit {0}
  FieldsFit (l ∷ ls) o = FieldFits l o × FieldsFit ls o

  -- Each field has a positive number, and is the first among `fs` that has it.
  abbrev pub Numbered : List (Field O) → List (LawfulField O) → Type 1
  Numbered fs [] = Unit
  Numbered fs (l ∷ ls) =
      (HasId l.field × (find_field fs (id_of l.field) ≡ some l.field)) × Numbered fs ls

  entries-Fit :
      (fs : List (Field O)) (ls : List (LawfulField O)) (o : O)
      → Numbered fs ls
      → FieldsFit ls o
      → EntriesFit fs o (entries ls)
  entries-Fit fs [] o numbered fits = tt
  entries-Fit fs (l ∷ ls) o ((has_id, found), numbered) (f, fits) =
      ((has_id, found, f), entries-Fit fs ls o numbered fits)

  length-entries : (ls : List (LawfulField O)) → length (entries ls) ≡ length (fields ls)
  length-entries [] = refl
  length-entries (l ∷ ls) = omega (arith, length-entries ls)

  field-by_id :
      (f : Field O) (o : O) (n : ℕ)
      → f.descriptor.id ≡ ℤ.pos (suc n)
      → write_field f o ≡ write_numbered f (id_of f) o
  unfolding write_field write_by_id wire_id
  field-by_id f o n e = rw e refl

  Writes-field :
      (l : LawfulField O) (o : O)
      → HasId l.field
      → FieldFits l o
      → Writes
          (write_field l.field o)
          (encode_uint (id_of l.field) ++ encode (l.value_of (l.field.get o)))
  Writes-field l o has_id fits =
      let (n, e, below) = has_id in
      let (positive, small) = id_of-positive l.field has_id in
      rw (field-by_id l.field o n e) (Writes-numbered l o (id_of l.field) small fits)
    where
      Writes-numbered :
          (l : LawfulField O) (o : O) (id : ℕ)
          → id < 2 ^ 64
          → FieldFits l o
          → Writes
              (write_numbered l.field id o)
              (encode_uint id ++ encode (l.value_of (l.field.get o)))
      Writes-numbered l o id small fits =
          let d = l.field.descriptor in
          let m = l.field.codec.write (some d) (l.field.get o) in
          unfold write_numbered in
          Writes-then (describing_write (field_error d WriteStage.field_id) (write_uint id))
            (describing_write (field_error d WriteStage.field_value) m) (encode_uint id)
            (encode (l.value_of (l.field.get o)))
            (Writes-describing (field_error d WriteStage.field_id) (write_uint id) (encode_uint id)
              (Writes-uint id small))
            (Writes-describing (field_error d WriteStage.field_value) m
              (encode (l.value_of (l.field.get o))) (l.law.writes (some d) (l.field.get o) fits))

  Writes-fields :
      (fs : List (Field O)) (ls : List (LawfulField O)) (o : O)
      → Numbered fs ls
      → FieldsFit ls o
      → Writes (write_fields (fields ls) o) (encode_members (members_of (entries ls) o))
  unfolding write_fields encode
  Writes-fields fs [] o numbered fits failure out room = Writes-ok failure out room
  Writes-fields fs (l ∷ ls) o ((has_id, found), numbered) (f, fits) failure out room =
      let id = encode_uint (id_of l.field) in
      let v = encode (l.value_of (l.field.get o)) in
      let rest = encode_members (members_of (entries ls) o) in
      let joined = append_assoc id v rest in
      subst (λ t. Writes (write_field l.field o ⟫ write_fields (fields ls) o) t) joined
        (Writes-then (write_field l.field o) (write_fields (fields ls) o) (id ++ v) rest
          (Writes-field l o has_id f) (Writes-fields fs ls o numbered fits))
        failure out room

  members-AreMembers :
      (fs : List (Field O)) (ls : List (LawfulField O)) (o : O)
      → Numbered fs ls
      → FieldsFit ls o
      → AreMembers (members_of (entries ls) o)
  unfolding IsValue
  members-AreMembers fs [] o numbered fits = tt
  members-AreMembers fs (l ∷ ls) o ((has_id, found), numbered) (f, fits) = (
    (id_of-positive l.field has_id).1,
    (
      l.law.is_value (some l.field.descriptor) (l.field.get o) f,
      members-AreMembers fs ls o numbered fits,
    ),
  )

  -- The codec of an object keeps the promise of a codec, so that objects nest: what is written is an
  -- object of the format with the number and the value of each field, and is read back as the object
  -- that was written, whatever the destination held. The fields' codecs keep their promise, their
  -- numbers are positive and differ, and the fields make up the object.
  pub object-IsCodec_by_id :
      (name : String) (ls : List (LawfulField O)) (initial : O)
      → Numbered (fields ls) ls
      → ((o p : O) → stored (entries ls) o p ≡ o)
      → length ls < 2 ^ 64
      → IsCodec
          (object name (fields ls) initial)
          (λ o. object_value (members_of (entries ls) o))
          (λ d o. FieldsFit ls o)
  object-IsCodec_by_id name ls initial numbered whole small = record {
    writes = λ d o fits.
        unfold object write_object encode in
        (let describe = type_error name WriteStage.object in
          let body = describing_write (set_type_name name) (write_fields (fields ls) o) in
          let bytes = encode_members (members_of (entries ls) o) in
          rw (count-members_of (entries ls) o, length-entries ls)
            (Writes-header_then describe ValueKind.object 0xa0 (length (fields ls)) body bytes
              Sized.object (size_small ls small)
              (Writes-describing (set_type_name name) (write_fields (fields ls) o) bytes
                (Writes-fields (fields ls) ls o numbered fits))));
    reads = λ d o old fits failure consumed more.
        unfold object in
        (object-tolerates name (fields ls) (entries ls) o old failure consumed more
            (entries-Fit (fields ls) ls o numbered fits)
            (rw (length-entries ls) (size_small ls small))
          ∙ ap
              (λ t. (
                at failure (consumed + length (encode (object_value (members_of (entries ls) o))))
                    more,
                done t,
              ))
              (whole o old));
    is_value = λ d o fits.
        unfold IsValue in
        (
          rw (count-members_of (entries ls) o, length-entries ls) (size_small ls small),
          members-AreMembers (fields ls) ls o numbered fits,
        );
  }
    where
      size_fields : (ls : List (LawfulField O)) → length (fields ls) ≡ length ls
      size_fields [] = refl
      size_fields (l ∷ ls) = omega (arith, size_fields ls)

      size_small : (ls : List (LawfulField O)) → length ls < 2 ^ 64 → length (fields ls) < 2 ^ 64
      size_small ls h = rw (size_fields ls) h
