-- ===== src/Tests/Compact.antt =====
-- The compact adapter at concrete values: an object with a number, a name and a map.
use contract.Prelude.{
  ℕ, ◌≡◌, ◌≢◌, ◌≤◌, ◌<◌, ◌^◌, ◌-◌, ◌+◌, to_bytes, refl, arith, true, false, Option, none, some,
  List, [], ◌∷◌, ◌++◌, length, ltb, replicate, take, ℤ,
}
use contract.Error.{FieldKind, fresh}
use contract.Compact.Codes.{ReadErrorCode, WriteErrorCode}
use contract.Compact.Object.Sent.{full, no_room, nothing_left, object-sent_received}
use contract.Base.{trim_trailing_zeros, trim_trailing_zeros-lossless}
use contract.Compact.Headers.{compact_byte_count, count_bytes}
use contract.Compact.Count.{compact_byte_count-least}
use contract.Compact.Reader.{Reader, done, out_of_fuel}
use contract.Compact.Wire.{
  Value, uint, negative, null, string, array, map as map_value, object as object_value, no_items,
  item, no_pairs, pair, no_members, member, encode, encode_size, encode_negative, IsValue,
}
use contract.Compact.Steps.{Writes, over, at, Reads}
use contract.Compact.Skip.{skip_value}
use contract.Compact.Skip.Laws.{skip_value-passes}
use contract.Compact.Skip.Ends.{bytes_left}
use contract.Compact.Skip.Terminates.{skip_value-ends}
use contract.Compact.Codec.{Codec}
use contract.Compact.Codec.Laws.{IsCodec}
use contract.Compact.Codec.Scalar.{
  Width, unsigned_codec, unsigned-IsCodec, FitsUnsigned, signed_codec, signed-IsCodec, FitsSigned,
  int_value,
}
use contract.Compact.Codec.Text.{string_codec, string-IsCodec, FitsText, string_max_size}
use contract.Compact.Codec.Map.{map}
use contract.Compact.Codec.Map.Laws.{pairs_of, FitsMap, map-IsCodec}
use contract.Compact.Codec.Optional.{
  optional, optional_value, FitsOptional, optional-IsCodec, write_optional, read_optional,
  optional-loses_null,
}
use contract.Compact.Object.{Field, find_field, wire_id, read_object, object}
use contract.Compact.Object.Members.{
  LawfulField, fields, Entry, known, unknown, members_of, stored, object-tolerates,
}
use contract.Compact.Operators.{writer_over, reader_over, shift_out, shift_in, Received}
use contract.Compact.Object.Laws.{entries, FieldsFit, object-IsCodec_by_id}

abbrev Scores : Type 0
Scores = List (ℕ × ℤ)

pub record Player : Type 0 where
  pub number : ℕ
  pub name : List ℕ
  pub scores : Scores

abbrev number_field : Field Player
number_field = record {
  descriptor = record {
    info = record {
      name = "number";
      id = 1;
      kind = FieldKind.member;
      is_base_import = false;
      base_offset = 0;
    };
    id = ℤ.pos 1;
    max_items = none;
  };
  Value = ℕ;
  get = λ p. p.number;
  set = λ v p. record { number = v; name = p.name; scores = p.scores };
  direct = true;
  codec = unsigned_codec Width.int;
}

abbrev name_field : Field Player
name_field = record {
  descriptor = record {
    info = record {
      name = "name";
      id = 70;
      kind = FieldKind.property;
      is_base_import = false;
      base_offset = 0;
    };
    id = ℤ.pos 70;
    max_items = none;
  };
  Value = List ℕ;
  get = λ p. p.name;
  set = λ v p. record { number = p.number; name = v; scores = p.scores };
  direct = false;
  codec = string_codec;
}

abbrev scores_codec : Codec Scores
scores_codec = map ltb (unsigned_codec Width.byte) (signed_codec Width.long)

scores-IsCodec :
    IsCodec scores_codec
      (λ m. map_value (pairs_of uint int_value m))
      (FitsMap ltb
        (unsigned_codec Width.byte)
        (signed_codec Width.long)
        uint
        int_value
        (FitsUnsigned Width.byte)
        (FitsSigned Width.long)
        (unsigned-IsCodec Width.byte)
        (signed-IsCodec Width.long))
scores-IsCodec =
    map-IsCodec ltb (unsigned_codec Width.byte) (signed_codec Width.long) uint int_value
      (FitsUnsigned Width.byte) (FitsSigned Width.long) (unsigned-IsCodec Width.byte)
      (signed-IsCodec Width.long)

abbrev scores_field : Field Player
scores_field = record {
  descriptor = record {
    info = record {
      name = "scores";
      id = 3;
      kind = FieldKind.member;
      is_base_import = false;
      base_offset = 0;
    };
    id = ℤ.pos 3;
    max_items = some 5;
  };
  Value = Scores;
  get = λ p. p.scores;
  set = λ v p. record { number = p.number; name = p.name; scores = v };
  direct = true;
  codec = scores_codec;
}

abbrev number : LawfulField Player
number = record {
  field = number_field;
  value_of = uint;
  Fits = FitsUnsigned Width.int;
  law = unsigned-IsCodec Width.int;
}

abbrev name : LawfulField Player
name = record {
  field = name_field;
  value_of = string;
  Fits = FitsText string_max_size;
  law = string-IsCodec;
}

abbrev scores : LawfulField Player
scores = record {
  field = scores_field;
  value_of = λ m. map_value (pairs_of uint int_value m);
  Fits =
      FitsMap ltb (unsigned_codec Width.byte) (signed_codec Width.long) uint int_value
        (FitsUnsigned Width.byte) (FitsSigned Width.long) (unsigned-IsCodec Width.byte)
        (signed-IsCodec Width.long);
  law = scores-IsCodec;
}

abbrev player_fields : List (LawfulField Player)
player_fields = number ∷ name ∷ scores ∷ []

abbrev player : Player
player = record {
  number = 300;
  name = 97 ∷ 98 ∷ [];
  scores = (1, ℤ.negsuc 4) ∷ (7, ℤ.pos 1000) ∷ [];
}

abbrev blank : Player
blank = record { number = 9; name = 0 ∷ []; scores = [] }

-- A value that nests others, for a field that the reader does not know.
abbrev nested : Value
nested = object_value (
    member 5 (array (item (negative 99) (item null no_items)))
      (member 6 (map_value (pair (uint 1) (string (65 ∷ [])) no_pairs)) no_members))

-- The name comes before the number, unknown fields stand around them, and the scores are missing.
abbrev sent : List (Entry Player)
sent = unknown 2 nested ∷ known name ∷ unknown 900 null ∷ known number ∷ []

nested-IsValue : IsValue nested
unfolding IsValue
nested-IsValue = omega arith

-- 300 takes two bytes behind its header, and 70 one.
player_bytes :
    encode (object_value (members_of (entries player_fields) player))
    ≡ 0xa3 ∷ 0x01 ∷ 0x51 ∷ 44 ∷ 1 ∷ 0x50 ∷ 70 ∷ 0x72 ∷ 97 ∷ 98 ∷ 0x03 ∷ 0x92 ∷ 1 ∷ 0x44 ∷ 7 ∷ 0x51
      ∷ 232 ∷ 3 ∷ []
unfolding encode wire_id encode_size compact_byte_count to_bytes count_bytes encode_negative
player_bytes = refl

object-tolerates_example :
    read_object "Player"
      (fields player_fields)
      blank
      (at none 0 (encode (object_value (members_of sent player)) ++ (1 ∷ [])))
    ≡ (
      at none (0 + length (encode (object_value (members_of sent player)))) (1 ∷ []),
      done (stored sent player blank),
    )
unfolding find_field wire_id IsValue
object-tolerates_example =
    object-tolerates "Player" (fields player_fields) sent player blank none 0 (1 ∷ [])
      (
        (refl, omega arith, omega arith, nested-IsValue),
        (
          ((69, refl, omega arith), refl, omega arith),
          ((refl, omega arith, omega arith, tt), (((0, refl, omega arith), refl, omega arith), tt)),
        ),
      )
      (omega arith)

object-IsCodec_by_id_example :
    IsCodec
      (object "Player" (fields player_fields) blank)
      (λ o. object_value (members_of (entries player_fields) o))
      (λ d o. FieldsFit player_fields o)
unfolding find_field wire_id
object-IsCodec_by_id_example =
    object-IsCodec_by_id "Player" player_fields blank
      (
        ((0, refl, omega arith), refl),
        (((69, refl, omega arith), refl), (((2, refl, omega arith), refl), tt)),
      )
      (λ o p. refl) (omega arith)

skip_value-passes_example :
    skip_value (at none 4 (encode nested ++ (7 ∷ [])))
    ≡ (at none (4 + length (encode nested)) (7 ∷ []), done tt)
skip_value-passes_example = skip_value-passes nested none 4 (7 ∷ []) nested-IsValue

-- An array that claims 200 arrays, which are not there.
abbrev hostile : Reader
hostile = at none 0 (0x8f ∷ 0x50 ∷ 200 ∷ 0x8e ∷ 0x8e ∷ [])

skip_value-ends_example :
    let (r', outcome) = skip_value hostile in
    (outcome ≢ out_of_fuel) × (bytes_left r' ≤ bytes_left hostile)
skip_value-ends_example = skip_value-ends hostile

compact_byte_count-least_example :
    (1 ≤ compact_byte_count 65536)
    × (compact_byte_count 65536 ≤ 8)
    × (65536 < 256 ^ compact_byte_count 65536)
    × (256 ^ (compact_byte_count 65536 - 1) ≤ 65536)
compact_byte_count-least_example = compact_byte_count-least 65536 (omega arith) (omega arith)

abbrev padded : List ℕ
padded = 5 ∷ 0 ∷ 6 ∷ 0 ∷ 0 ∷ []

trim_trailing_zeros-lossless_example :
    let kept = trim_trailing_zeros padded 5 in
    (kept ≤ 5) × (take kept padded ++ replicate (5 - kept) 0 ≡ padded)
trim_trailing_zeros-lossless_example = trim_trailing_zeros-lossless padded

abbrev inner : Codec (Option (List ℕ))
inner = optional string_codec

optional-loses_null_example :
    Writes (write_optional inner (some none)) (0xb2 ∷ [])
    × Reads (read_optional inner) (0xb2 ∷ []) none
optional-loses_null_example =
    optional-loses_null inner (optional_value string)
      (FitsOptional string (FitsText string_max_size)) none
      (optional-IsCodec string_codec string (FitsText string_max_size) string-IsCodec) tt refl

player-FieldsFit : FieldsFit player_fields player
player-FieldsFit = (
  omega arith,
  (
    omega arith,
    (
      (
        omega arith,
        omega arith,
        (((refl, refl), tt), (tt, tt)),
        ((omega arith, omega arith), ((omega arith, omega arith), tt)),
      ),
      tt,
    ),
  ),
)

object-sent_received_example :
    let c = object "Player" (fields player_fields) blank in
    let (w, thrown) =
      shift_out c player
        (record (writer_over (replicate 20 0)) { failure = some (fresh WriteErrorCode.unknown) }) in
    ((thrown ≡ none)
      × (w.failure ≡ none)
      × (w.out.written ≡ encode (object_value (members_of (entries player_fields) player)))
      × (shift_in c blank (record (reader_over (w.out.written ++ (8 ∷ []))) {
        failure = some (fresh ReadErrorCode.invalid_header);
      })
          ≡ (at none (length w.out.written) (8 ∷ []), Received.value player)))
    × (shift_out c player (over (some (fresh WriteErrorCode.unknown)) (full (4 ∷ [])))
        ≡ (over (some (no_room "Player" 1)) (full (4 ∷ [])), some (no_room "Player" 1)))
    × (shift_in c blank (at (some (fresh ReadErrorCode.invalid_header)) 7 [])
        ≡ (at (some (nothing_left "Player" 7)) 7 [], Received.failed (nothing_left "Player" 7)))
unfolding find_field wire_id
object-sent_received_example =
    object-sent_received "Player" player_fields blank player blank (replicate 20 0) (8 ∷ [])
      (4 ∷ []) 7 (some (fresh WriteErrorCode.unknown)) (some (fresh ReadErrorCode.invalid_header))
      (
        ((0, refl, omega arith), refl),
        (((69, refl, omega arith), refl), (((2, refl, omega arith), refl), tt)),
      )
      (λ o p. refl) (omega arith) player-FieldsFit
      (unfold encode encode_size compact_byte_count to_bytes count_bytes encode_negative in
        omega arith)
