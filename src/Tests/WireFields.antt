-- ===== src/Tests/WireFields.antt =====
-- Fields and fixed-size values of include/contract/adapters/protobuf.hpp at concrete values.
use contract.Prelude.{ℤ, ◌≡◌, refl, arith, some, [], ◌∷◌, ◌++◌, length, replicate}
use contract.Error.{FieldInfo}
use contract.Protobuf.Varint.{varint_bytes}
use contract.Protobuf.Reader.{done}
use contract.Io.Window.{WindowOutput}
use contract.Protobuf.Overrun.{filled, overrun_error, overrun-refused}
use contract.Protobuf.Writer.{Writer, Status, ok, window, write_bytes}
use contract.Io.Window.Stored.{input_of}
use contract.Protobuf.Sent.{writer_over, reader_over, target_bytes}
use contract.Protobuf.Scalar.{Width, extend, signed_scalar, write_scalar_field}
use contract.Protobuf.Integers.{signed-Survives}
use contract.Protobuf.Fields.{read_tagged, field-sent_received}
use contract.Tests.Accounts.{name_field}

abbrev info : FieldInfo
info = name_field.descriptor.info

-- A negative number takes all 10 bytes.
minus_two :
    varint_bytes 10 (extend (ℤ.negsuc 1))
    ≡ 0xFE ∷ 0xFF ∷ 0xFF ∷ 0xFF ∷ 0xFF ∷ 0xFF ∷ 0xFF ∷ 0xFF ∷ 0xFF ∷ 1 ∷ []
unfolding varint_bytes extend
minus_two = refl

field-sent_received_example :
    let (w, status) =
      write_scalar_field
        (signed_scalar Width.int)
        info
        (ℤ.negsuc 1)
        (writer_over (replicate 20 0)) in
    (status ≡ ok)
    × (read_tagged (signed_scalar Width.int) info (reader_over (target_bytes w.out ++ (7 ∷ []))) ≡ (
      record (reader_over (target_bytes w.out ++ (7 ∷ []))) {
        input = input_of (length (target_bytes w.out)) (7 ∷ []);
      },
      done (2, ℤ.negsuc 1),
    ))
field-sent_received_example =
    field-sent_received (signed_scalar Width.int) info (ℤ.negsuc 1) (replicate 20 0) (7 ∷ [])
      (omega arith) (signed-Survives Width.int (ℤ.negsuc 1) (omega arith)) (omega arith)

abbrev two_left : WindowOutput
two_left = record { written = 9 ∷ []; free = 0 ∷ 0 ∷ [] }

abbrev ready : Writer
ready = writer_over []

overrun-refused_example : write_bytes (1 ∷ 2 ∷ 3 ∷ []) (record ready { out = window two_left }) ≡ (
  record ready {
    out = window (filled two_left (1 ∷ 2 ∷ 3 ∷ []));
    failure = some (overrun_error 3 3 2);
  },
  Status.error,
)
unfolding writer_over
overrun-refused_example = overrun-refused (1 ∷ 2 ∷ 3 ∷ []) two_left ready (omega arith) refl
