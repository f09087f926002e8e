-- ===== src/Tests/Codecs.antt =====
-- The codecs of include/contract/adapters/binary/*.hpp at concrete values, and their guards on
-- concrete inputs.
use contract.Prelude.{
  ℕ, ◌<◌, ◌⊎◌, inl, inr, refl, arith, Bool, false, none, some, List, [], ◌∷◌, ltb, All, replicate,
  to_bytes,
}
use contract.Binary.Cipher.{Key}
use contract.Binary.Writer.{Writer, Descriptor}
use contract.Binary.Reader.{Reader}
use contract.Binary.Codec.{Codec}
use contract.Binary.Codec.Laws.{IsCodec, Writes}
use contract.Binary.Codec.Scalar.{byte_of, scalar, encode_scalar, FitsScalar, scalar-IsCodec}
use contract.Binary.Codec.Text.{string, encode_text, FitsText, string-IsCodec}
use contract.Binary.Codec.Vector.{vector, raw_vector}
use contract.Binary.Codec.Vector.Laws.{
  encode_vector, vector-IsCodec, raw_vector-IsCodec, encode_raw_vector,
}
use contract.Binary.Codec.Variant.{
  Alternatives, no_alternatives, no_alternatives-IsAlternatives, alternative, variant,
  IsAlternatives,
}
use contract.Binary.Codec.Variant.Laws.{
  alternative-IsAlternatives, encode_alternative, FitsAlternative, encode_variant, variant-IsCodec,
}
use contract.Binary.Codec.Map.{map, entry}
use contract.Binary.Codec.Map.Entries.{entry-IsCodec, encode_entry, FitsEntry}
use contract.Binary.Codec.Map.Laws.{map-IsCodec, encode_map}
use contract.Binary.Codec.Array.{Array, array}
use contract.Binary.Codec.Array.Laws.{array-IsCodec, encode_array}
use contract.Binary.Codec.Optional.{optional, optional-IsCodec, encode_optional}
use contract.Binary.Codec.Tuple.{
  tuple_nil, tuple_cons, tuple_nil-IsCodec, tuple_cons-IsCodec, encode_cons, FitsCons,
}
use contract.Binary.Codec.Sequence.{raw_bytes}
use contract.Binary.Object.Operators.{writer_over, reader_over}
use contract.Tests.Accounts.{test_key, name_field}

abbrev pub blank_writer : Writer
blank_writer = writer_over (replicate 40 0) test_key

abbrev pub blank_reader : Reader
blank_reader = reader_over [] test_key

abbrev pub numbers : Codec (List ℕ)
numbers = vector (scalar 4) 4

abbrev encode_numbers : Key → Bool → List ℕ → List ℕ
encode_numbers = encode_vector (encode_scalar 4)

vector-IsCodec_example :
    Writes
      (numbers.write none (5 ∷ 6 ∷ []))
      blank_writer
      (encode_numbers test_key false (5 ∷ 6 ∷ []))
unfolding writer_over
vector-IsCodec_example =
    (vector-IsCodec (scalar 4) (encode_scalar 4) (FitsScalar 4) (scalar-IsCodec 4) 4).writes none
      (5 ∷ 6 ∷ []) blank_writer
      (record {
        elements = (omega arith, (omega arith, tt));
        size = omega arith;
        word_size = omega arith;
        max_items = tt;
      })
      (unfold to_bytes in omega arith)

-- A variant of a number and a text.
abbrev pub pack : Alternatives (ℕ ⊎ List ℕ ⊎ ⊥)
pack = alternative (scalar 4) (alternative string no_alternatives)

abbrev text_pack-IsAlternatives :
    IsAlternatives
      (alternative string no_alternatives)
      (encode_alternative encode_text (λ key active v. []))
      (FitsAlternative FitsText (λ v. Unit))
text_pack-IsAlternatives =
    alternative-IsAlternatives string encode_text FitsText string-IsCodec no_alternatives
      (λ key active v. []) (λ v. Unit) no_alternatives-IsAlternatives

abbrev pub pack_encode : Key → Bool → ℕ ⊎ List ℕ ⊎ ⊥ → List ℕ
pack_encode =
    encode_alternative (encode_scalar 4) (encode_alternative encode_text (λ key active v. []))

abbrev pub PackFits : ℕ ⊎ List ℕ ⊎ ⊥ → Type 0
PackFits = FitsAlternative (FitsScalar 4) (FitsAlternative FitsText (λ v. Unit))

abbrev pub pack-IsAlternatives : IsAlternatives pack pack_encode PackFits
pack-IsAlternatives =
    alternative-IsAlternatives (scalar 4) (encode_scalar 4) (FitsScalar 4) (scalar-IsCodec 4)
      (alternative string no_alternatives) (encode_alternative encode_text (λ key active v. []))
      (FitsAlternative FitsText (λ v. Unit)) text_pack-IsAlternatives

abbrev chosen : ℕ ⊎ List ℕ ⊎ ⊥
chosen = inr (inl (7 ∷ []))

variant-IsCodec_example :
    Writes
      ((variant pack (inl 0)).write none chosen)
      blank_writer
      (encode_variant pack pack_encode test_key false chosen)
unfolding writer_over
variant-IsCodec_example =
    (variant-IsCodec pack pack_encode PackFits pack-IsAlternatives (inl 0)
        (unfold alternative no_alternatives in omega arith)).writes
      none chosen blank_writer
      (record { bytes = (omega arith, tt); size = omega arith; max_length = tt; max_bytes = tt })
      (unfold to_bytes in omega arith)

abbrev pub entry_law :
    IsCodec
      (entry (scalar 4) string)
      (encode_entry (encode_scalar 4) encode_text)
      (FitsEntry (FitsScalar 4) FitsText)
entry_law =
    entry-IsCodec (scalar 4) string (encode_scalar 4) encode_text (FitsScalar 4) FitsText
      (scalar-IsCodec 4) string-IsCodec

abbrev pub phone_book : List (ℕ × List ℕ)
phone_book = (3, 65 ∷ []) ∷ (7, 66 ∷ []) ∷ []

abbrev encode_book : Key → Bool → List (ℕ × List ℕ) → List ℕ
encode_book = encode_map (encode_entry (encode_scalar 4) encode_text)

pub letter : (n : ℕ) → n < 256 → FitsText none (n ∷ [])
letter n h = record { bytes = (h, tt); size = omega arith; max_length = tt; max_bytes = tt }

pub phone_book-fits : All (FitsEntry (FitsScalar 4) FitsText none) phone_book
phone_book-fits =
    ((omega arith, letter 65 (omega arith)), ((omega arith, letter 66 (omega arith)), tt))

map-IsCodec_example :
    Writes
      ((map ltb (scalar 4) string).write none phone_book)
      blank_writer
      (encode_book test_key false phone_book)
unfolding writer_over
map-IsCodec_example =
    (map-IsCodec ltb (scalar 4) string (encode_entry (encode_scalar 4) encode_text)
        (FitsEntry (FitsScalar 4) FitsText) entry_law).writes
      none phone_book blank_writer
      (record {
        sorted = (((refl, refl), tt), (tt, tt));
        items = phone_book-fits;
        size = omega arith;
        max_items = tt;
      })
      (unfold to_bytes in omega arith)

abbrev pub byte_limited : Descriptor
byte_limited = record name_field.descriptor { max_items = none; max_bytes = some 16 }

raw_vector-IsCodec_example :
    Writes
      ((raw_vector 4).write (some byte_limited) (1 ∷ 70000 ∷ []))
      blank_writer
      (encode_raw_vector 4 test_key false (1 ∷ 70000 ∷ []))
unfolding writer_over
raw_vector-IsCodec_example =
    (raw_vector-IsCodec 4).writes (some byte_limited) (1 ∷ 70000 ∷ []) blank_writer
      (record {
        elements = (omega arith, (omega arith, tt));
        size = omega arith;
        word_size = omega arith;
        total = omega arith;
        max_items = tt;
        max_bytes = omega arith;
      })
      (unfold to_bytes raw_bytes in omega arith)

abbrev three_numbers : Array ℕ 3
three_numbers = (1, (2, (3, tt)))

array-IsCodec_example :
    Writes
      ((array (scalar 4) 3).write none three_numbers)
      blank_writer
      (encode_array (encode_scalar 4) 3 test_key false three_numbers)
unfolding writer_over
array-IsCodec_example =
    (array-IsCodec (scalar 4) (encode_scalar 4) (FitsScalar 4) (scalar-IsCodec 4) 3).writes none
      three_numbers blank_writer
      (record { elements = (omega arith, (omega arith, (omega arith, tt))); max_items = tt })
      (unfold to_bytes in omega arith)

optional-IsCodec_example :
    Writes
      ((optional string).write none (some (8 ∷ [])))
      blank_writer
      (encode_optional encode_text test_key false (some (8 ∷ [])))
unfolding writer_over
optional-IsCodec_example =
    (optional-IsCodec string encode_text FitsText string-IsCodec).writes none (some (8 ∷ []))
      blank_writer (letter 8 (omega arith)) (unfold to_bytes byte_of in omega arith)

abbrev pair : Codec (ℕ × (List ℕ × Unit {0}))
pair = tuple_cons (scalar 4) (tuple_cons string tuple_nil)

abbrev text_tail-IsCodec :
    IsCodec
      (tuple_cons string tuple_nil)
      (encode_cons encode_text (λ key active v. []))
      (FitsCons FitsText (λ d v. Unit))
text_tail-IsCodec =
    tuple_cons-IsCodec string tuple_nil encode_text (λ key active v. []) FitsText (λ d v. Unit)
      string-IsCodec tuple_nil-IsCodec

pair_stored : Writes (pair.write none (9, (8 ∷ [], tt))) blank_writer (
    encode_cons
      (encode_scalar 4)
      (encode_cons encode_text (λ key active v. []))
      test_key
      false
      (9, (8 ∷ [], tt)))
unfolding writer_over
pair_stored =
    (tuple_cons-IsCodec (scalar 4) (tuple_cons string tuple_nil) (encode_scalar 4)
        (encode_cons encode_text (λ key active v. [])) (FitsScalar 4)
        (FitsCons FitsText (λ d v. Unit)) (scalar-IsCodec 4) text_tail-IsCodec).writes
      none (9, (8 ∷ [], tt)) blank_writer (omega arith, (letter 8 (omega arith), tt))
      (unfold to_bytes in omega arith)
