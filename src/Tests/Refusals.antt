-- ===== src/Tests/Refusals.antt =====
-- Inputs that the codecs of include/contract/adapters/binary/*.hpp refuse.
use contract.Prelude.{
  ℕ, ◌^◌, ◌≡◌, refl, arith, false, none, some, List, [], ◌∷◌, ◌++◌, replicate, ltb, length,
  to_bytes,
}
use contract.Io.Byte.{CheckedInput}
use contract.Binary.Codes.{WriteErrorCode, ReadErrorCode, ReadStage}
use contract.Binary.Stream.{Source}
use contract.Binary.Stream.Sources.{Holds, IsPrefix-append}
use contract.Binary.Reader.{Reader, Outcome}
use contract.Binary.Codec.Laws.{took}
use contract.Binary.Codec.Scalar.{scalar, encode_scalar, FitsScalar}
use contract.Binary.Codec.Text.{string, encode_text, FitsText}
use contract.Binary.Codec.Vector.{raw_vector}
use contract.Binary.Codec.Map.{read_entries}
use contract.Binary.Codec.Map.Entries.{encode_entry, FitsEntry}
use contract.Binary.Codec.Sequence.Laws.{encode_items}
use contract.Binary.Object.Operators.{
  reader_over, reader_over-Holds, writer_over, shift_out, shift_in, stored_bytes, Received,
}
use contract.Binary.Object.Thrown.{no_room, refused_size, stored_before, too_short, string-thrown}
use contract.Tests.Accounts.{test_key, name_field}
use contract.Error.{from, empty_field, fresh}
use contract.Binary.Limits.{raw_vector-wrapped_guard}
use contract.Binary.Refusals.{
  refusal, refused_after, duplicate-refused, long_string-refused, short_string-refused,
  long_vector-refused,
}
use contract.Tests.Codecs.{
  blank_reader, numbers, entry_law, phone_book, phone_book-fits, letter, byte_limited,
}

-- Input that begins with a claimed size or index.
abbrev claiming : ℕ → Reader
claiming size = reader_over (to_bytes 8 size ++ (1 ∷ 2 ∷ 3 ∷ [])) test_key

claiming-Holds : (size : ℕ) → Holds (claiming size).input (to_bytes 8 size)
claiming-Holds size = reader_over-Holds (to_bytes 8 size) (1 ∷ 2 ∷ 3 ∷ []) test_key

long_vector-refused_example :
    numbers.read (some name_field.descriptor) [] (claiming 1000000000)
    ≡ refused_after 8
        (refusal ReadErrorCode.max_items_exceeded ReadStage.attribute_guard
          (some (from empty_field name_field.descriptor.info))
          none
          none
          (some 2)
          (some 1000000000))
        (claiming 1000000000)
long_vector-refused_example =
    long_vector-refused (scalar 4) 4 name_field.descriptor 2 1000000000 [] (claiming 1000000000)
      refl (omega arith) (omega arith) (claiming-Holds 1000000000) (unfold reader_over in refl)

long_string-refused_example :
    string.read (some name_field.descriptor) [] (claiming 9)
    ≡ refused_after 8
        (refusal ReadErrorCode.max_length_exceeded ReadStage.attribute_guard
          (some (from empty_field name_field.descriptor.info))
          none
          none
          (some 8)
          (some 9))
        (claiming 9)
long_string-refused_example =
    long_string-refused name_field.descriptor 8 9 [] (claiming 9) refl (omega arith) (omega arith)
      (claiming-Holds 9) (unfold reader_over in refl)

abbrev four_claimed : CheckedInput
four_claimed = record { consumed = 0; rest = to_bytes 8 4 ++ (1 ∷ 2 ∷ 3 ∷ []) }

short_string-refused_example :
    string.read none [] (record blank_reader { input = Source.checked four_claimed })
    ≡ refused_after 8
        (refusal ReadErrorCode.truncated ReadStage.raw none none none (some 4) (some 0))
        (record blank_reader { input = Source.checked four_claimed })
short_string-refused_example =
    short_string-refused none 3 [] blank_reader four_claimed tt tt (omega arith)
      (IsPrefix-append (to_bytes 8 4) (1 ∷ 2 ∷ 3 ∷ [])) (unfold to_bytes in omega arith)
      (unfold reader_over in refl)

-- 2 ^ 62 elements of 4 bytes: the number of bytes is 2 ^ 64, which wraps to 0.
raw_vector-wrapped_guard_example :
    (raw_vector 4).read (some byte_limited) [] (claiming (2 ^ 62))
    ≡ (took (claiming (2 ^ 62)) (length (to_bytes 8 (2 ^ 62))), Outcome.length_error)
raw_vector-wrapped_guard_example =
    raw_vector-wrapped_guard 4 16 (2 ^ 62) byte_limited [] (claiming (2 ^ 62)) refl refl
      (omega arith) (omega arith) (omega arith) (claiming-Holds (2 ^ 62))

abbrev duplicate : ℕ × List ℕ
duplicate = (3, 67 ∷ [])

abbrev book_bytes : List ℕ
book_bytes =
    encode_items (encode_entry (encode_scalar 4) encode_text) test_key false phone_book
    ++ encode_entry (encode_scalar 4) encode_text test_key false duplicate

abbrev book_reader : Reader
book_reader = reader_over (book_bytes ++ []) test_key

duplicate-refused_example :
    read_entries ltb (scalar 4) string 5 0 5 [] book_reader
    ≡ refused_after
        (length book_bytes)
        (refusal ReadErrorCode.duplicate_key ReadStage.container none (some 2) (some 5) none none)
        book_reader
unfolding reader_over
duplicate-refused_example =
    duplicate-refused ltb (scalar 4) string (encode_entry (encode_scalar 4) encode_text)
      (FitsEntry (FitsScalar 4) FitsText) entry_law 5 2 [] ((7, 66 ∷ []) ∷ []) (3, 65 ∷ [])
      duplicate book_reader (((refl, refl), tt), (tt, tt)) phone_book-fits
      (omega arith, letter 67 (omega arith)) refl refl (reader_over-Holds book_bytes [] test_key)
      refl

-- Nine bytes are free for the 10 bytes of "ab".
string-thrown_example :
    let (w, thrown) =
      shift_out string (97 ∷ 98 ∷ []) (record (writer_over (replicate 9 0) test_key) {
        failure = some (fresh WriteErrorCode.invalid_size);
      }) in
    ((thrown ≡ some (no_room (refused_size (97 ∷ 98 ∷ []) (replicate 9 0))))
      × (w.failure ≡ thrown)
      × (stored_bytes w.out ≡ stored_before (97 ∷ 98 ∷ []) (replicate 9 0)))
    × (shift_in string (7 ∷ []) (record (reader_over (to_bytes 8 3 ++ (1 ∷ 2 ∷ [])) test_key) {
      failure = some (fresh ReadErrorCode.duplicate_key);
    })
        ≡ (
          record (reader_over (to_bytes 8 3 ++ (1 ∷ 2 ∷ [])) test_key) {
            input = Source.checked (record { consumed = 8; rest = 1 ∷ 2 ∷ [] });
            failure = some (too_short 3);
          },
          Received.failed (too_short 3),
        ))
string-thrown_example =
    string-thrown (97 ∷ 98 ∷ []) (replicate 9 0) (7 ∷ []) (1 ∷ 2 ∷ []) 2 test_key
      (some (fresh WriteErrorCode.invalid_size)) (some (fresh ReadErrorCode.duplicate_key))
      (omega arith) (omega arith) (omega arith)
