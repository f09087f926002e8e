-- ===== src/Binary/Refusals.antt =====
-- What a refused read or write of binary.hpp and binary/*.hpp leaves: where the stream stands, and
-- every part of the error, for a reader or a writer that has none yet, as `operator>>` and
-- `operator<<` make sure of.
use contract.Prelude.{
  ℕ, suc, ◌+◌, ◌^◌, ◌≤◌, ◌<◌, ◌≡◌, refl, ◌∙◌, Bool, false, Option, none, some, List, [], ◌∷◌, ◌++◌,
  length, All, to_bytes, length-to_bytes,
}
use contract.Error.{
  AdapterError, ErrorField, fresh, from, empty_field, set_code, set_stage, set_sizes, set_field,
  set_element, keep_first,
}
use contract.Io.Byte.{CheckedInput}
use contract.Binary.Codes.{WriteErrorCode, ReadErrorCode, ReadStage, WriteStage}
use contract.Binary.Cipher.{Key}
use contract.Binary.Stream.{Source}
use contract.Binary.Stream.Sources.{Holds, IsPrefix, advance}
use contract.Binary.Writer.{
  Writer, Status, Descriptor, write_fails, current_write_error, write_limit_error,
}
use contract.Binary.Reader.{
  Reader, Outcome, ReadError, read_fails, current_read_error, raw_read_error, read_limit_error,
  string_max_size,
}
use contract.Binary.Codec.{Codec}
use contract.Binary.Codec.Laws.{IsCodec, Within, took}
use contract.Binary.Codec.Text.{string}
use contract.Binary.Codec.Vector.{vector}
use contract.Binary.Codec.Variant.{Alternatives, IsAlternatives, read_variant, variant_index_error}
use contract.Binary.Codec.Variant.Laws.{variant-refuses}
use contract.Binary.Codec.Map.{entry, Sorted, read_entries, duplicate_key_error}
use contract.Binary.Codec.Map.Laws.{map-refuses_duplicate}
use contract.Binary.Codec.Sequence.Laws.{encode_items}
use contract.Binary.Limits.{
  vector-limited_write, vector-limited_read, string-limited_read, string-truncated_read,
}

-- An error with a code, a stage, a field, the place of an element and two sizes, and nothing else.
abbrev pub refusal :
    {Code Stage : Type 0}
    → Code
    → Stage
    → Option ErrorField
    → Option ℕ
    → Option ℕ
    → Option ℕ
    → Option ℕ
    → AdapterError Code Stage
refusal code stage field index total expected actual = record {
  code = code;
  type_name = none;
  field = field;
  stage = some stage;
  offset = none;
  element_index = index;
  element_total = total;
  expected_size = expected;
  actual_size = actual;
}

-- The reader has taken `n` bytes and failed with this error.
abbrev pub refused_after : {A : Type 0} → ℕ → ReadError → Reader → Reader × Outcome A
refused_after n e r = (record r { input = advance r.input n; failure = some e }, Outcome.error)

first_read_error :
    {A : Type 0} (describe : ReadError → ReadError) (r : Reader) (n : ℕ)
    → r.failure ≡ none
    → read_fails {A = A} describe (took r n)
      ≡ refused_after n (describe (fresh ReadErrorCode.unknown)) r
unfolding read_fails current_read_error
first_read_error describe r n h = rw h refl

module _ {V : Type 0} (a : Alternatives V) (encode : Key → Bool → V → List ℕ) (Fits : V → Type 0)
    (law : IsAlternatives a encode Fits) where
  -- Where the next 8 bytes hold an index that no alternative of lawful alternatives has, reading the
  -- variant takes just those bytes and fails with variant_index_out_of_range in the stage variant; the
  -- sizes are the number of alternatives and the index.
  pub unknown_alternative-refused :
      (index : ℕ) (r : Reader)
      → a.count ≤ index
      → index < 2 ^ 64
      → Holds r.input (to_bytes 8 index)
      → r.failure ≡ none
      → read_variant a r
        ≡ refused_after 8
            (refusal ReadErrorCode.variant_index_out_of_range ReadStage.variant none none none
              (some a.count)
              (some index))
            r
  unfolding variant_index_error set_code set_stage set_sizes keep_first
  unknown_alternative-refused index r past small h clear =
      rw length-to_bytes at (variant-refuses a encode Fits law index r past small h)
      ∙ first_read_error (variant_index_error a.count index) r 8 clear

module _ {K V : Type 0} (less : K → K → Bool) (key_codec : Codec K) (mapped_codec : Codec V)
    (encode : Key → Bool → K × V → List ℕ) (Fits : Option Descriptor → K × V → Type 0)
    (law : IsCodec (entry key_codec mapped_codec) encode Fits) where
  -- The loop of a map of `total` entries that reads the entries `front`, `f` and `back`, in the order
  -- of their keys, and then an entry with the key of `f`, stops behind that entry, however many were
  -- still to come, with duplicate_key in the stage container and the place of the entry.
  pub duplicate-refused :
      (total left : ℕ) (front back : List (K × V)) (f e : K × V) (r : Reader)
      → Sorted less (front ++ (f ∷ back))
      → All (Fits none) (front ++ (f ∷ back))
      → Fits none e
      → e.0 ≡ f.0
      → less f.0 f.0 ≡ false
      → Holds r.input (
          encode_items encode r.encrypt_key r.encrypt_active (front ++ (f ∷ back))
          ++ encode r.encrypt_key r.encrypt_active e)
      → r.failure ≡ none
      → read_entries less key_codec mapped_codec total 0
          (length (front ++ (f ∷ back)) + suc left)
          []
          r
        ≡ refused_after
            (length (
              encode_items encode r.encrypt_key r.encrypt_active (front ++ (f ∷ back))
              ++ encode r.encrypt_key r.encrypt_active e))
            (refusal ReadErrorCode.duplicate_key ReadStage.container none
              (some (length (front ++ (f ∷ back))))
              (some total)
              none
              none)
            r
  unfolding duplicate_key_error set_code set_stage set_element keep_first
  duplicate-refused total left front back f e r sorted fits fits_e same irrefl h clear =
      map-refuses_duplicate less key_codec mapped_codec encode Fits law total left front back f e r
        sorted fits fits_e same irrefl h
      ∙ first_read_error (duplicate_key_error (length (front ++ (f ∷ back))) total) r
          (length (
            encode_items encode r.encrypt_key r.encrypt_active (front ++ (f ∷ back))
            ++ encode r.encrypt_key r.encrypt_active e))
          clear

-- Where the input claims a length above the field's max_length, reading the string takes just the 8
-- bytes of the claim, so that nothing is allocated for it, and fails with max_length_exceeded in the
-- stage attribute_guard, the field, and as sizes the limit and the claim.
pub long_string-refused :
    (d : Descriptor) (limit size : ℕ) (old : List ℕ) (r : Reader)
    → d.max_length ≡ some limit
    → limit < size
    → size < 2 ^ 64
    → Holds r.input (to_bytes 8 size)
    → r.failure ≡ none
    → string.read (some d) old r
      ≡ refused_after 8
          (refusal ReadErrorCode.max_length_exceeded ReadStage.attribute_guard
            (some (from empty_field d.info))
            none
            none
            (some limit)
            (some size))
          r
unfolding read_limit_error set_code set_stage set_sizes set_field keep_first
long_string-refused d limit size old r e h small held clear =
    rw length-to_bytes at (string-limited_read d limit size old r e h small held)
    ∙ first_read_error (read_limit_error ReadErrorCode.max_length_exceeded d limit size) r 8 clear

-- Where the input claims a length that the limits of the field and `max_size()` allow, but has fewer
-- bytes than that left behind the claim, reading the string takes just the 8 bytes of the claim and
-- fails with truncated in the stage raw, and as sizes the length and 0.
pub short_string-refused :
    (d : Option Descriptor) (n : ℕ) (old : List ℕ) (r : Reader) (i : CheckedInput)
    → Within (λ f. f.max_length) d (suc n)
    → Within (λ f. f.max_bytes) d (suc n)
    → suc n ≤ string_max_size
    → IsPrefix (to_bytes 8 (suc n)) i.rest
    → length i.rest < 8 + suc n
    → r.failure ≡ none
    → string.read d old (record r { input = Source.checked i })
      ≡ refused_after 8
          (refusal ReadErrorCode.truncated ReadStage.raw none none none (some (suc n)) (some 0))
          (record r { input = Source.checked i })
unfolding raw_read_error set_code set_stage set_sizes keep_first advance
short_string-refused d n old r i max_length max_bytes size held short clear =
    string-truncated_read d n old r i max_length max_bytes size held short
    ∙ first_read_error (raw_read_error ReadErrorCode.truncated ReadStage.raw (suc n))
        (record r { input = Source.checked i }) 8 clear

module _ {A : Type 0} (c : Codec A) (element_size : ℕ) where
  -- Where the input claims a number of elements above the field's max_items, reading the vector takes
  -- just the 8 bytes of the claim, so that no element is read and no memory reserved, and fails with
  -- max_items_exceeded in the stage attribute_guard, the field, and as sizes the limit and the claim.
  pub long_vector-refused :
      (d : Descriptor) (limit size : ℕ) (old : List A) (r : Reader)
      → d.max_items ≡ some limit
      → limit < size
      → size < 2 ^ 64
      → Holds r.input (to_bytes 8 size)
      → r.failure ≡ none
      → (vector c element_size).read (some d) old r
        ≡ refused_after 8
            (refusal ReadErrorCode.max_items_exceeded ReadStage.attribute_guard
              (some (from empty_field d.info))
              none
              none
              (some limit)
              (some size))
            r
  unfolding read_limit_error set_code set_stage set_sizes set_field keep_first
  long_vector-refused d limit size old r e h small held clear =
      rw length-to_bytes at (vector-limited_read c element_size d limit size old r e h small held)
      ∙ first_read_error (read_limit_error ReadErrorCode.max_items_exceeded d limit size) r 8 clear

  -- Writing a vector with more elements than the field's max_items leaves the output as it is and fails
  -- with max_items_exceeded in the stage attribute_guard, the field, and as sizes the limit and the
  -- number of elements.
  pub long_vector-unwritten :
      (d : Descriptor) (limit : ℕ) (v : List A) (w : Writer)
      → d.max_items ≡ some limit
      → limit < length v
      → w.failure ≡ none
      → (vector c element_size).write (some d) v w ≡ (
        record w {
          failure = some (
              refusal WriteErrorCode.max_items_exceeded WriteStage.attribute_guard
                (some (from empty_field d.info))
                none
                none
                (some limit)
                (some (length v)));
        },
        Status.error,
      )
  unfolding write_fails current_write_error write_limit_error set_code set_stage set_sizes set_field
      keep_first
  long_vector-unwritten d limit v w e h clear =
      vector-limited_write c element_size d limit v w e h ∙ rw clear refl
