-- ===== src/Tests/Wire.antt =====
-- The wire layer of include/contract/adapters/protobuf.hpp at concrete values.
use contract.Prelude.{
  ◌≡◌, ◌<◌, ◌≤◌, refl, arith, none, some, [], ◌∷◌, ◌++◌, length, replicate, ap, All, inl,
}
use contract.Io.Window.{WindowOutput}
use contract.Protobuf.Codes.{wire_of, ReadErrorCode}
use contract.Protobuf.Varint.{varint_bytes}
use contract.Protobuf.Reader.{Reader, Outcome, done, read_varint, read_tag}
use contract.Protobuf.Writer.{ok, window, write_varint, write_varint_payload, write_tag}
use contract.Io.Window.Stored.{stored, input_of}
use contract.Protobuf.RoundTrip.{write_varint_payload-stored}
use contract.Protobuf.Sent.{
  writer_over, reader_over, target_bytes, varint-sent_received, tag-sent_received,
}
use contract.Protobuf.Unterminated.{
  Continues, wire_refusal, unterminated_code, unterminated-refused, long_varint-refused,
}

-- 300 takes two bytes.
three_hundred : varint_bytes 10 300 ≡ 0xAC ∷ 2 ∷ []
unfolding varint_bytes
three_hundred = refl

varint-sent_received_example :
    let (w, status) = write_varint 300 (writer_over (replicate 12 0)) in
    (status ≡ ok)
    × (read_varint (reader_over (target_bytes w.out ++ (7 ∷ []))) ≡ (
      record (reader_over (target_bytes w.out ++ (7 ∷ []))) {
        input = input_of (length (target_bytes w.out)) (7 ∷ []);
      },
      done 300,
    ))
varint-sent_received_example =
    varint-sent_received 300 (replicate 12 0) (7 ∷ []) (omega arith) (omega arith)

tag-sent_received_example :
    let (w, status) = write_tag 70000 (wire_of 2) (writer_over (replicate 12 0)) in
    (status ≡ ok)
    × (read_tag (reader_over (target_bytes w.out ++ [])) ≡ (
      record (reader_over (target_bytes w.out ++ [])) {
        input = input_of (length (target_bytes w.out)) [];
      },
      done (70000, wire_of 2),
    ))
tag-sent_received_example =
    tag-sent_received 70000 2 (replicate 12 0) [] (omega arith) (omega arith) (omega arith)

-- Three bytes free: the number goes through the buffer.
abbrev three_free : WindowOutput
three_free = record { written = 1 ∷ []; free = 0 ∷ 0 ∷ 0 ∷ [] }

write_varint_payload-stored_example :
    write_varint_payload 300 (record { out = window three_free; failure = none })
    ≡ (record { out = window (stored three_free (varint_bytes 10 300)); failure = none }, ok)
write_varint_payload-stored_example =
    write_varint_payload-stored 300 three_free (record { out = window three_free; failure = none })
      (omega (arith, size))
  where
    size : length (varint_bytes 10 300) ≡ 2
    size = ap length three_hundred

abbrev cut_off : Reader
cut_off = reader_over (0x80 ∷ 0xFF ∷ [])

unterminated-refused_example :
    read_varint cut_off
    ≡ (record cut_off { failure = some (wire_refusal (unterminated_code 2) 0 10 2) }, Outcome.error)
unfolding reader_over
unterminated-refused_example =
    unterminated-refused cut_off (0x80 ∷ 0xFF ∷ []) [] refl
      ((omega arith, omega arith), ((omega arith, omega arith), tt)) (inl (omega arith, refl)) refl

abbrev endless : Reader
endless = reader_over (replicate 10 0x80 ++ (1 ∷ []))

endless_refused : read_varint endless ≡ (
  record endless { failure = some (wire_refusal ReadErrorCode.invalid_varint 0 10 10) },
  Outcome.error,
)
unfolding reader_over
endless_refused =
    long_varint-refused endless (replicate 10 0x80) (1 ∷ []) refl refl ten_continue refl
  where
    more : (128 ≤ 0x80) × (0x80 < 256)
    more = (omega arith, omega arith)

    ten_continue : All Continues (replicate 10 0x80)
    ten_continue =
        (more, (more, (more, (more, (more, (more, (more, (more, (more, (more, tt))))))))))
