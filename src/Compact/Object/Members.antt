-- ===== src/Compact/Object/Members.antt =====
-- Objects of the compact adapter that are written and read back by the numbers of their fields, in any
-- order and with values of unknown fields among them.
use Prim.Native.String.{String}
use mathlib.Core.List.{append_assoc}
use contract.Prelude.{
  ℕ, zero, suc, ◌+◌, ◌^◌, ◌<◌, ◌≡◌, refl, sym, ap, ◌∙◌, false, Option, none, some, List, [], ◌∷◌,
  ◌++◌, arith, ◌==◌, if◌then◌else◌, length, ℤ,
}
use contract.Error.{set_type_name}
use contract.Compact.Codes.{ValueKind, ReadStage}
use contract.Compact.Reader.{ReadError, done, ◌>>=◌, describing_read, read_uint}
use contract.Compact.Wire.{
  object as object_value, Members, no_members, member, count_members, encode, encode_members,
  encode_uint, encode_size, IsValue, AreMembers,
}
use contract.Compact.Wire as Wire
use contract.Compact.Steps.{at, Reads, Reads-bind, Reads-map, Reads-pure, Reads-describing}
use contract.Compact.Integers.{Reads-uint}
use contract.Compact.Sizes.{Sized}
use contract.Compact.Skip.{skip_value}
use contract.Compact.Skip.Laws.{skip_value-passes}
use contract.Compact.Codec.{Descriptor}
use contract.Compact.Codec.Laws.{IsCodec, Reads-header_then}
use contract.Compact.Object.{
  Field, wire_id, field_error, type_error, find_field, read_field, read_matched, read_by_id,
  read_member, read_members, read_object,
}

-- A field whose codec keeps its promise.
pub record LawfulField (O : Type 0) : Type 1 where
  pub field : Field O
  pub value_of : field.Value → Wire.Value
  pub Fits : Option Descriptor → field.Value → Type 0
  pub law : IsCodec field.codec value_of Fits

-- What stands on the wire for one member: a field of the object, or a value with the number of no field,
-- which a sender with more fields may have put there.
pub data Entry (O : Type 0) : Type 1 where
  known : LawfulField O → Entry O
  unknown : ℕ → Wire.Value → Entry O

module _ {O : Type 0} where
  abbrev pub fields : List (LawfulField O) → List (Field O)
  fields [] = []
  fields (l ∷ ls) = l.field ∷ fields ls

  -- A positive id, which is an int.
  abbrev pub HasId : Field O → Type 0
  HasId f = (n : ℕ) × (f.descriptor.id ≡ ℤ.pos (suc n)) × (suc n < 2 ^ 31)

  abbrev pub id_of : Field O → ℕ
  id_of f = wire_id f.descriptor.id

  abbrev pub FieldFits : LawfulField O → O → Type 0
  FieldFits l o = l.Fits (some l.field.descriptor) (l.field.get o)

  abbrev pub members_of : List (Entry O) → O → Members
  members_of [] o = no_members
  members_of (known l ∷ es) o =
      member (id_of l.field) (l.value_of (l.field.get o)) (members_of es o)
  members_of (unknown id v ∷ es) o = member id v (members_of es o)

  -- `p` once the known fields among the entries are stored in it, in their order.
  abbrev pub stored : List (Entry O) → O → O → O
  stored [] o p = p
  stored (known l ∷ es) o p = stored es o (l.field.set (l.field.get o) p)
  stored (unknown id v ∷ es) o p = stored es o p

  -- The known fields are the first with their number, and the numbers of the others no field has.
  abbrev pub EntryFits : List (Field O) → O → Entry O → Type 1
  EntryFits fs o (known l) =
      HasId l.field × (find_field fs (id_of l.field) ≡ some l.field) × FieldFits l o
  EntryFits fs o (unknown id v) = (find_field fs id ≡ none) × (0 < id) × (id < 2 ^ 64) × IsValue v

  abbrev pub EntriesFit : List (Field O) → O → List (Entry O) → Type 1
  EntriesFit fs o [] = Unit
  EntriesFit fs o (e ∷ es) = EntryFits fs o e × EntriesFit fs o es

  pub count-members_of : (es : List (Entry O)) (o : O) → count_members (members_of es o) ≡ length es
  count-members_of [] o = refl
  count-members_of (known l ∷ es) o = omega (arith, count-members_of es o)
  count-members_of (unknown id v ∷ es) o = omega (arith, count-members_of es o)

  pub id_of-positive : (f : Field O) → HasId f → (0 < id_of f) × (id_of f < 2 ^ 64)
  unfolding wire_id
  id_of-positive f (n, e, small) = rw e (omega arith, omega arith)

  module _ (name : String) (fs : List (Field O)) where
    read_matched-known :
        (l : LawfulField O) (o p : O)
        → FieldFits l o
        → Reads
            (read_matched name (some l.field) p)
            (encode (l.value_of (l.field.get o)))
            (l.field.set (l.field.get o) p)
    unfolding read_matched read_field
    read_matched-known l o p fits =
        let d = l.field.descriptor in
        let old = if l.field.direct then l.field.get p else l.field.codec.initial in
        let m = l.field.codec.read (some d) old in
        let describe = field_error d ReadStage.field_value in
        let bytes = encode (l.value_of (l.field.get o)) in
        Reads-describing (set_type_name name) (read_field l.field p) bytes
          (l.field.set (l.field.get o) p)
          (Reads-map (describing_read describe m) (λ v. l.field.set v p) bytes (l.field.get o)
            (Reads-describing describe m bytes (l.field.get o)
              (l.law.reads (some d) (l.field.get o) old fits)))

    read_matched-unknown :
        (v : Wire.Value) (p : O) → IsValue v → Reads (read_matched name none p) (encode v) p
    unfolding read_matched
    read_matched-unknown v p h =
        let describe = type_error name ReadStage.skip in
        Reads-map (describing_read describe skip_value) (λ _. p) (encode v) tt
          (Reads-describing describe skip_value (encode v) tt
            (λ failure consumed more. skip_value-passes v failure consumed more h))

    by-id :
        (id : ℕ) (o : Option (Field O)) (p : O)
        → 0 < id
        → find_field fs id ≡ o
        → read_by_id name fs p id ≡ read_matched name o p
    unfolding read_by_id
    by-id id o p pos e = let positive : (id == 0) ≡ false = ground arith in rw (positive, e) refl

    -- One member, whose value is read or skipped by `read_matched`.
    Reads-member :
        (id left : ℕ) (o : Option (Field O)) (p q q' : O) (xs ys : List ℕ)
        → 0 < id
        → id < 2 ^ 64
        → find_field fs id ≡ o
        → Reads (read_matched name o p) xs q
        → Reads (read_members name fs left q) ys q'
        → Reads (read_members name fs (suc left) p) (encode_uint id ++ (xs ++ ys)) q'
    unfolding read_members read_member
    Reads-member id left o p q q' xs ys pos small e h g failure consumed more =
        let describe = type_error name ReadStage.field_id in
        let m = describing_read describe read_uint in
        ap (λ t. read_members name fs (suc left) p (at failure consumed (t ++ more)))
          (sym (append_assoc (encode_uint id) xs ys))
        ∙ Reads-bind (m >>= read_by_id name fs p) (read_members name fs left) (encode_uint id ++ xs)
            ys q q'
            (Reads-bind m (read_by_id name fs p) (encode_uint id) xs id q
              (Reads-describing describe read_uint (encode_uint id) id (Reads-uint id small))
              (rw (by-id id o p pos e) h))
            g failure consumed more
        ∙ ap (λ t. (at failure (consumed + length t) more, done q'))
            (append_assoc (encode_uint id) xs ys)

    no-members : (p : O) → Reads (read_members name fs zero p) (encode_members no_members) p
    unfolding read_members encode
    no-members p = Reads-pure p

    -- The members of an object, in any order and with unknown ones among them.
    pub Reads-members :
        (es : List (Entry O)) (o p : O)
        → EntriesFit fs o es
        → Reads
            (read_members name fs (length es) p)
            (encode_members (members_of es o))
            (stored es o p)
    unfolding encode
    Reads-members [] o p fits = no-members p
    Reads-members (known l ∷ es) o p ((has_id, found, fits), rest) =
        let (positive, small) = id_of-positive l.field has_id in
        let q = l.field.set (l.field.get o) p in
        Reads-member (id_of l.field) (length es) (some l.field) p q (stored es o q)
          (encode (l.value_of (l.field.get o))) (encode_members (members_of es o)) positive small
          found (read_matched-known l o p fits) (Reads-members es o q rest)
    Reads-members (unknown id v ∷ es) o p ((missing, positive, small, h), rest) =
        Reads-member id (length es) none p p (stored es o p) (encode v)
          (encode_members (members_of es o)) positive small missing (read_matched-unknown v p h)
          (Reads-members es o p rest)

    -- An object is read from members that stand in any order, with values of unknown fields anywhere
    -- among them: each value of an unknown field is passed over, whatever it nests, and each known
    -- field that stands there is stored in the destination, which keeps the rest of what it held.
    -- Just the bytes of the object are taken, and there is no error.
    pub object-tolerates :
        (es : List (Entry O)) (o p : O) (failure : Option ReadError) (consumed : ℕ) (more : List ℕ)
        → EntriesFit fs o es
        → length es < 2 ^ 64
        → read_object name fs p
            (at failure consumed (encode (object_value (members_of es o)) ++ more))
          ≡ (
            at failure (consumed + length (encode (object_value (members_of es o)))) more,
            done (stored es o p),
          )
    unfolding read_object encode
    object-tolerates es o p failure consumed more fits small = rw (count-members_of es o) (
        Reads-header_then (type_error name ReadStage.object) ValueKind.object 0xa0 (length es)
          (λ count. read_members name fs count p) (encode_members (members_of es o)) (stored es o p)
          Sized.object small (Reads-members es o p fits) failure consumed more)
