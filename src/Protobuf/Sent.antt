-- ===== src/Protobuf/Sent.antt =====
-- Varints and tags of protobuf.hpp, from a writer over free memory to a reader over what it stored.
use Prim.Native.Nat.{bit_and}
use contract.Prelude.{
  ℕ, zero, suc, ◌+◌, ◌*◌, ◌/◌, ◌%◌, ◌^◌, ◌≤◌, ◌<◌, ◌≡◌, refl, ap, ap₂, ◌∙◌, none, List, [], ◌++◌,
  arith, length, word, bit_and_mask, bit_or_below,
}
use contract.Protobuf.Codes.{wire_of, wire_value}
use contract.Protobuf.Varint.{varint_bytes, length-varint_bytes}
use contract.Protobuf.Writer.{
  Writer, ok, Target, window, write_varint, write_varint_payload, tag_key, write_tag,
}
use contract.Protobuf.Reader.{Reader, done, next_read, pure, read_varint, parse_tag, read_tag}
use contract.Io.Window.Stored.{stored, input_of}
use contract.Protobuf.RoundTrip.{write_varint_payload-stored, read_varint-finds}

-- writer{window_output{data, size}} and reader{window_input{data, size}}
unfoldable pub writer_over : List ℕ → Writer
writer_over free = record { out = window (record { written = []; free = free }); failure = none }

unfoldable pub reader_over : List ℕ → Reader
reader_over bytes = record { input = input_of 0 bytes; failure = none }

-- The bytes that a target has taken; a counting output keeps none.
abbrev pub target_bytes : Target → List ℕ
target_bytes (window o) = o.written
target_bytes (Target.counting n) = []

-- The writer over `free` once it holds the varint of `v`.
abbrev holding : ℕ → List ℕ → Writer
holding v free = record (writer_over free) {
  out = window (stored (record { written = []; free = free }) (varint_bytes 10 v));
}

payload-stored :
    (v : ℕ) (free : List ℕ)
    → 10 ≤ length free
    → write_varint_payload v (writer_over free) ≡ (holding v free, ok)
unfolding writer_over
payload-stored v free room =
    write_varint_payload-stored v (record { written = []; free = free }) (writer_over free)
      (omega (arith, (length-varint_bytes 10 v).1))

varint-found :
    (v : ℕ) (more : List ℕ)
    → v < word
    → read_varint (reader_over (varint_bytes 10 v ++ more)) ≡ (
      record (reader_over (varint_bytes 10 v ++ more)) {
        input = input_of (length (varint_bytes 10 v)) more;
      },
      done v,
    )
unfolding reader_over
varint-found v more h =
    read_varint-finds v 0 more (reader_over (varint_bytes 10 v ++ more)) h
    ∙ ap
        (λ n.
          (record (reader_over (varint_bytes 10 v ++ more)) { input = input_of n more }, done v))
        (omega arith)

-- A 64-bit number that is written as a varint to a window with 10 bytes free is stored without an
-- error, and a reader over the bytes stored, whatever follows them, gives it back and has taken just
-- those bytes.
pub varint-sent_received :
    (v : ℕ) (free more : List ℕ)
    → v < 2 ^ 64
    → 10 ≤ length free
    → let (w, status) = write_varint v (writer_over free) in
      (status ≡ ok)
      × (read_varint (reader_over (target_bytes w.out ++ more)) ≡ (
        record (reader_over (target_bytes w.out ++ more)) {
          input = input_of (length (target_bytes w.out)) more;
        },
        done v,
      ))
unfolding write_varint
varint-sent_received v free more h room = rw payload-stored (refl, varint-found v more h)

-- The 3 bits of a wire type are its value, whether it has an enumerator or not.
wire_value-wire_of : (n : ℕ) → n < 8 → wire_value (wire_of n) ≡ n
unfolding wire_value wire_of
wire_value-wire_of zero h = refl
wire_value-wire_of (suc zero) h = refl
wire_value-wire_of (suc (suc zero)) h = refl
wire_value-wire_of (suc (suc (suc zero))) h = refl
wire_value-wire_of (suc (suc (suc (suc zero)))) h = refl
wire_value-wire_of (suc (suc (suc (suc (suc zero))))) h = refl
wire_value-wire_of (suc (suc (suc (suc (suc (suc zero)))))) h = refl
wire_value-wire_of (suc (suc (suc (suc (suc (suc (suc zero))))))) h = refl
wire_value-wire_of (suc (suc (suc (suc (suc (suc (suc (suc n)))))))) h = absurd (omega arith)

pub key-value :
    (field_number n : ℕ) → n < 8 → tag_key field_number (wire_of n) ≡ field_number * 8 + n
unfolding tag_key
key-value field_number n h =
    let value = wire_value-wire_of n h in
    bit_or_below 3 (wire_value (wire_of n)) field_number (omega arith) ∙ omega arith

pub parse_tag-key :
    (field_number n : ℕ)
    → field_number < 2 ^ 32
    → n < 8
    → parse_tag (field_number * 8 + n) ≡ (field_number, wire_of n)
unfolding parse_tag
parse_tag-key field_number n h small =
    let number : (field_number * 8 + n) / 8 % 2 ^ 32 ≡ field_number = omega arith in
    let wire : bit_and (field_number * 8 + n) 0x7 ≡ n =
      omega (arith, bit_and_mask 3 (field_number * 8 + n)) in
    ap₂ (λ f t. (f, wire_of t)) number wire

-- A tag that is written to a window with 10 bytes free, with a field number of 32 bits and any of the
-- 8 wire types that 3 bits can give, is stored without an error, and a reader over the bytes stored,
-- whatever follows them, gives the field number and the wire type back and has taken just those
-- bytes.
pub tag-sent_received :
    (field_number n : ℕ) (free more : List ℕ)
    → field_number < 2 ^ 32
    → n < 8
    → 10 ≤ length free
    → let (w, status) = write_tag field_number (wire_of n) (writer_over free) in
      (status ≡ ok)
      × (read_tag (reader_over (target_bytes w.out ++ more)) ≡ (
        record (reader_over (target_bytes w.out ++ more)) {
          input = input_of (length (target_bytes w.out)) more;
        },
        done (field_number, wire_of n),
      ))
unfolding write_tag read_tag
tag-sent_received field_number n free more h small room =
    let key = field_number * 8 + n in
    let r = reader_over (varint_bytes 10 key ++ more) in
    rw (key-value field_number n small, payload-stored)
      (
        refl,
        ap (next_read (λ k. pure (parse_tag k))) (varint-found key more (omega arith))
            ∙ ap (λ t. (record r { input = input_of (length (varint_bytes 10 key)) more }, done t))
                (parse_tag-key field_number n h small),
      )
