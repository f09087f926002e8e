-- ===== src/Tests/Messages.antt =====
-- Messages of include/contract/adapters/protobuf.hpp at concrete values: a shape with a nested point.
use contract.Prelude.{
  ℕ, ℤ, ◌≡◌, ◌≢◌, ◌^◌, ◌+◌, ◌<◌, to_bytes, refl, arith, true, false, none, some, List, [], ◌∷◌,
  ◌++◌, length, replicate,
}
use contract.Error.{FieldInfo, FieldKind}
use contract.Protobuf.Codes.{wire_of}
use contract.Protobuf.Varint.{varint_bytes}
use contract.Protobuf.Reader.{Reader, ReadError, Outcome, done, out_of_fuel}
use contract.Protobuf.Sent.{writer_over, reader_over, target_bytes}
use contract.Protobuf.Scalar.{Width, Scalar, extend, signed_scalar}
use contract.Protobuf.Integers.{Survives, signed-Survives}
use contract.Protobuf.Steps.{at, tag_bytes, Writes}
use contract.Protobuf.Codec.{scalar_codec}
use contract.Protobuf.Codec.Laws.{IsCodec, scalar-IsCodec}
use contract.Protobuf.Codec.Floats.{Precision, float_codec, float-IsCodec}
use contract.Protobuf.Codec.Text.{
  string_codec, string-IsCodec, FitsText, text_bytes, c_string, shown, write_string_field,
  write_c_string_field, c_string-as_string,
}
use contract.Protobuf.Message.{find_field, read_message, read_message_field, message}
use contract.Protobuf.Message.Fields.{
  LawfulField, Entry, fields, message_bytes, stored, message-accepts,
}
use contract.Protobuf.Message.Nested.{
  FieldsFit, Numbered, payload, framed, MessageFits, message-IsCodec_by_size,
}
use contract.Protobuf.Ends.{bytes_left, scalar-Finite}
use contract.Protobuf.Message.Terminates.{read_message-ends}
use contract.Protobuf.Message.Refusals.{stray_error, stray-refused, located, nested-located}
use contract.Protobuf.Message.Mismatch.{wrong_wire_error, wrong_wire-refused}
use contract.Protobuf.Operators.{shift_out, shift_in, Received, message-sent_received}

pub record Point : Type 0 where
  pub x : ℤ
  pub y : ℤ

pub record Shape : Type 0 where
  pub name : List ℕ
  pub centre : Point
  pub weight : ℕ

abbrev info_of : ℕ → FieldInfo
info_of id = record {
  name = "field";
  id = id;
  kind = FieldKind.member;
  is_base_import = false;
  base_offset = 0;
}

abbrev coordinate : Scalar ℤ
coordinate = signed_scalar Width.int

abbrev coordinate_bytes : ℤ → List ℕ
coordinate_bytes z = varint_bytes 10 (coordinate.to_raw z)

abbrev x_of : LawfulField Point
x_of = record {
  field = record {
    info = info_of 1;
    id = ℤ.pos 1;
    Value = ℤ;
    get = λ p. p.x;
    set = λ v p. record { x = v; y = p.y };
    direct = true;
    codec = scalar_codec coordinate (ℤ.pos 0);
  };
  wire = 0;
  payload = coordinate_bytes;
  framed = coordinate_bytes;
  Fits = Survives coordinate;
  law = scalar-IsCodec coordinate (ℤ.pos 0);
}

abbrev y_of : LawfulField Point
y_of = record {
  field = record {
    info = info_of 2;
    id = ℤ.pos 2;
    Value = ℤ;
    get = λ p. p.y;
    set = λ v p. record { x = p.x; y = v };
    direct = false;
    codec = scalar_codec coordinate (ℤ.pos 0);
  };
  wire = 0;
  payload = coordinate_bytes;
  framed = coordinate_bytes;
  Fits = Survives coordinate;
  law = scalar-IsCodec coordinate (ℤ.pos 0);
}

abbrev point_fields : List (LawfulField Point)
point_fields = x_of ∷ y_of ∷ []

abbrev origin : Point
origin = record { x = ℤ.pos 0; y = ℤ.pos 0 }

point-Numbered : Numbered (fields point_fields) point_fields
unfolding find_field extend
point-Numbered = (((0, refl, refl, omega arith), refl), (((1, refl, refl, omega arith), refl), tt))

message-IsCodec_by_size_example :
    IsCodec
      (message "Point" (fields point_fields) origin)
      2
      (payload point_fields)
      (framed point_fields)
      (MessageFits point_fields)
message-IsCodec_by_size_example =
    message-IsCodec_by_size "Point" point_fields point-Numbered (λ o p. refl) origin

point_law :
    IsCodec
      (message "Point" (fields point_fields) origin)
      2
      (payload point_fields)
      (framed point_fields)
      (MessageFits point_fields)
point_law = message-IsCodec_by_size "Point" point_fields point-Numbered (λ o p. refl) origin

abbrev name_of : LawfulField Shape
name_of = record {
  field = record {
    info = info_of 1;
    id = ℤ.pos 1;
    Value = List ℕ;
    get = λ s. s.name;
    set = λ v s. record { name = v; centre = s.centre; weight = s.weight };
    direct = true;
    codec = string_codec;
  };
  wire = 2;
  payload = text_bytes;
  framed = text_bytes;
  Fits = FitsText;
  law = string-IsCodec;
}

abbrev centre_of : LawfulField Shape
centre_of = record {
  field = record {
    info = info_of 20;
    id = ℤ.pos 20;
    Value = Point;
    get = λ s. s.centre;
    set = λ v s. record { name = s.name; centre = v; weight = s.weight };
    direct = true;
    codec = message "Point" (fields point_fields) origin;
  };
  wire = 2;
  payload = payload point_fields;
  framed = framed point_fields;
  Fits = MessageFits point_fields;
  law = point_law;
}

abbrev weight_of : LawfulField Shape
weight_of = record {
  field = record {
    info = info_of 3;
    id = ℤ.pos 3;
    Value = ℕ;
    get = λ s. s.weight;
    set = λ v s. record { name = s.name; centre = s.centre; weight = v };
    direct = false;
    codec = float_codec Precision.float;
  };
  wire = 5;
  payload = to_bytes 4;
  framed = to_bytes 4;
  Fits = λ bits. bits < 256 ^ 4;
  law = float-IsCodec Precision.float;
}

abbrev shape_fields : List (LawfulField Shape)
shape_fields = name_of ∷ centre_of ∷ weight_of ∷ []

abbrev shape : Shape
shape = record {
  name = 97 ∷ 98 ∷ [];
  centre = record { x = ℤ.pos 300; y = ℤ.pos 5 };
  weight = 0x3f800000;
}

abbrev blank : Shape
blank = record { name = 7 ∷ []; centre = record { x = ℤ.pos 1; y = ℤ.negsuc 1 }; weight = 9 }

shape-Numbered : Numbered (fields shape_fields) shape_fields
unfolding find_field extend
shape-Numbered = (
  ((0, refl, refl, omega arith), refl),
  (((19, refl, refl, omega arith), refl), (((2, refl, refl, omega arith), refl), tt)),
)

-- The nested point takes 5 bytes, which the counting writer has found.
shape_bytes :
    payload shape_fields shape
    ≡ 0x0A ∷ 2 ∷ 97 ∷ 98 ∷ 0xA2 ∷ 1 ∷ 5 ∷ 8 ∷ 0xAC ∷ 2 ∷ 0x10 ∷ 5 ∷ 0x1D ∷ 0 ∷ 0 ∷ 0x80 ∷ 0x3F ∷ []
unfolding varint_bytes extend signed_scalar to_bytes
shape_bytes = refl

shape-Fits : FieldsFit shape_fields shape
shape-Fits = (
  omega arith,
  (
    (
      (
        signed-Survives Width.int (ℤ.pos 300) (omega arith),
        (signed-Survives Width.int (ℤ.pos 5) (omega arith), tt),
      ),
      (unfold varint_bytes extend signed_scalar in omega arith),
    ),
    (omega arith, tt),
  ),
)

message-sent_received_example :
    let (w, thrown) =
      shift_out "Shape" (fields shape_fields) shape (writer_over (replicate 20 0)) in
    (thrown ≡ none)
    × (target_bytes w.out ≡ payload shape_fields shape)
    × (shift_in "Shape" (fields shape_fields) blank (reader_over (target_bytes w.out))
        ≡ (at none (length (target_bytes w.out)) [], Received.value shape))
message-sent_received_example =
    message-sent_received "Shape" shape_fields shape-Numbered (λ o p. refl) shape blank
      (replicate 20 0) shape-Fits (unfold varint_bytes extend signed_scalar to_bytes in omega arith)

abbrev name_is : List ℕ → Entry Shape
name_is value = record { lawful = name_of; value = value }

-- The weight comes first, the name twice, and the centre is missing.
abbrev arrived : List (Entry Shape)
arrived = record { lawful = weight_of; value = 77 } ∷ name_is (1 ∷ 2 ∷ []) ∷ name_is (3 ∷ []) ∷ []

last_kept : stored arrived blank ≡ record { name = 3 ∷ []; centre = blank.centre; weight = 77 }
last_kept = refl

message-accepts_example :
    read_message "Shape" (fields shape_fields) blank (at none 4 (message_bytes arrived))
    ≡ (at none (4 + length (message_bytes arrived)) [], done (stored arrived blank))
unfolding find_field extend
message-accepts_example = message-accepts "Shape" (fields shape_fields) arrived blank none 4 (
  ((2, refl, refl, omega arith), refl, omega arith),
  (
    ((0, refl, refl, omega arith), refl, omega arith),
    (((0, refl, refl, omega arith), refl, omega arith), tt),
  ),
)

-- A tag with the number 9 after the name.
stray-refused_example :
    let named = name_is (4 ∷ 5 ∷ []) ∷ [] in
    let position = 0 + length (message_bytes named) + length (tag_bytes 9 0) in
    read_message "Shape"
      (fields shape_fields)
      blank
      (at none 0 (message_bytes named ++ (tag_bytes 9 0 ++ (1 ∷ []))))
    ≡ (at (some (stray_error "Shape" 9 (wire_of 0) position)) position (1 ∷ []), Outcome.error)
unfolding find_field extend
stray-refused_example =
    stray-refused "Shape" (fields shape_fields) (name_is (4 ∷ 5 ∷ []) ∷ []) 9 0 0 blank none
      (1 ∷ []) (((0, refl, refl, omega arith), refl, omega arith), tt) refl (omega arith)
      (omega arith)

-- A point with y = 5 and then a tag with the number 0 and the wire type fixed32.
abbrev bad_point : List ℕ
bad_point = 0x10 ∷ 5 ∷ 5 ∷ []

abbrev bad_error : ReadError
bad_error = stray_error "Point" 0 (wire_of 5) 3

bad_point-refused :
    read_message "Point" (fields point_fields) origin (at none 0 bad_point)
    ≡ (at (some bad_error) 3 [], Outcome.error)
unfolding varint_bytes find_field extend signed_scalar
bad_point-refused =
    stray-refused "Point" (fields point_fields) (record { lawful = y_of; value = ℤ.pos 5 } ∷ []) 0 5
      0 origin none []
      (((1, refl, refl, omega arith), refl, signed-Survives Width.int (ℤ.pos 5) (omega arith)), tt)
      tt (omega arith) (omega arith)

nested-located_example :
    let start = 40 + length (varint_bytes 10 (length bad_point)) in
    read_message_field "Point"
      (fields point_fields)
      (info_of 20)
      (wire_of 2)
      origin
      (at none 40 (varint_bytes 10 (length bad_point) ++ (bad_point ++ (6 ∷ []))))
    ≡ (
      at (some (located start (info_of 20) 3 bad_error)) (start + length bad_point) (6 ∷ []),
      Outcome.error,
    )
nested-located_example =
    nested-located "Point" (fields point_fields) (info_of 20) 40 3 3 bad_point (6 ∷ []) [] origin
      bad_error (omega arith) bad_point-refused refl

-- The coordinate x with the wire type fixed32, behind y.
wrong_wire-refused_example :
    let y_is : List (Entry Point) = record { lawful = y_of; value = ℤ.pos 5 } ∷ [] in
    let position = 2 + length (message_bytes y_is) + length (tag_bytes 1 5) in
    read_message "Point"
      (fields point_fields)
      origin
      (at none 2 (message_bytes y_is ++ (tag_bytes 1 5 ++ (1 ∷ 2 ∷ 3 ∷ 4 ∷ []))))
    ≡ (
      at
          (some (wrong_wire_error "Point" (info_of 1) (wire_of 5) position))
          position
          (1 ∷ 2 ∷ 3 ∷ 4 ∷ []),
      Outcome.error,
    )
unfolding find_field extend
wrong_wire-refused_example =
    wrong_wire-refused "Point" (fields point_fields) coordinate (ℤ.pos 0) (info_of 1) (ℤ.pos 1)
      (λ p. p.x) (λ v p. record { x = v; y = p.y }) (record { lawful = y_of; value = ℤ.pos 5 } ∷ [])
      5 2 origin none (1 ∷ 2 ∷ 3 ∷ 4 ∷ [])
      (((1, refl, refl, omega arith), refl, signed-Survives Width.int (ℤ.pos 5) (omega arith)), tt)
      (0, refl, refl, omega arith) refl (omega arith) (omega arith)

-- A tag, and no value.
abbrev cut_off : Reader
cut_off = at none 0 (8 ∷ [])

read_message-ends_example :
    let (r', outcome) = read_message "Point" (fields point_fields) origin cut_off in
    (outcome ≢ out_of_fuel) × ((p : Point) → outcome ≡ done p → bytes_left r' ≡ 0)
read_message-ends_example =
    read_message-ends "Point" (fields point_fields)
      (scalar-Finite coordinate (ℤ.pos 0), (scalar-Finite coordinate (ℤ.pos 0), tt)) origin cut_off

-- "hi", the byte 0 and what stands behind it in the memory.
abbrev memory : List ℕ
memory = 104 ∷ 105 ∷ 0 ∷ 55 ∷ []

c_string-as_string_example :
    Writes
      (write_c_string_field (info_of 4) (some memory))
      (tag_bytes 4 2 ++ text_bytes (shown (some memory)))
    × Writes
        (write_string_field (info_of 4) (shown (some memory)))
        (tag_bytes 4 2 ++ text_bytes (shown (some memory)))
c_string-as_string_example =
    c_string-as_string (info_of 4) (some memory) (omega arith) (unfold c_string in omega arith)
