-- ===== src/Binary/Object/Thrown.antt =====
-- What the stream operators of include/contract/adapters/binary.hpp throw for a string: `operator<<` to
-- checked memory with too little room, and `operator>>` from memory with too few bytes.
use contract.Prelude.{
  ℕ, suc, ◌+◌, ◌≤◌, ◌<◌, ◌≡◌, refl, ap, ◌∙◌, false, Bool-cases, inl, inr, Option, none, some, List,
  [], ◌∷◌, ◌++◌, arith, ltb, lt→ltb, ◌==◌, suc-==-zero, if◌then◌else◌, length, length-append, drop,
  drop-length, length-drop, to_bytes, length-to_bytes,
}
use contract.Error.{set_code, set_stage, set_sizes, keep_first}
use contract.Io.Byte.{CheckedOutput, CheckedInput, checked_write, available_size}
use contract.Binary.Codes.{WriteErrorCode, ReadErrorCode, ReadStage, WriteStage}
use contract.Binary.Cipher.{Key}
use contract.Binary.Stream.{Sink, Source, sink_write}
use contract.Binary.Stream.Sinks.{push}
use contract.Binary.Stream.Sources.{IsPrefix-append, advance}
use contract.Binary.Writer.{
  Writer, Status, WriteError, next_write, write_raw, written_all, write_fails, raw_size_error,
  write_scalar, write_size, check_write_limit, current_write_error,
}
use contract.Binary.Reader.{ReadError, string_max_size, current_read_error}
use contract.Binary.Codec.Laws.{Writes-scalar}
use contract.Binary.Codec.Text.{string, write_text, write_counted, write_body}
use contract.Binary.Refusals.{refusal, short_string-refused}
use contract.Binary.Object.Operators.{
  writer_over, reader_over, shift_out, thrown_write, shift_in, thrown_read, Received, stored_bytes,
}

-- Checked memory with too little room takes nothing.
raw-refused :
    (n : ℕ) (bytes : List ℕ) (o : CheckedOutput) (w : Writer)
    → length o.free < suc n
    → write_raw (some bytes) (suc n) (record w { out = Sink.checked o })
      ≡ write_fails
          (raw_size_error WriteErrorCode.output_error (suc n))
          (record w { out = Sink.checked o })
unfolding write_raw written_all sink_write checked_write available_size
raw-refused n bytes o w tight =
    let nothing : (0 == suc n) ≡ false = ground arith in
    rw (suc-==-zero, lt→ltb (length o.free) (suc n) tight, nothing) refl

abbrev over : List ℕ → List ℕ → Key → Writer
over written free key = record {
  out = Sink.checked (record { written = written; free = free });
  encrypt_key = key;
  encrypt_active = false;
  failure = none;
}

-- The error of a write of this many bytes that found no room.
abbrev pub no_room : ℕ → WriteError
no_room size =
    refusal WriteErrorCode.output_error WriteStage.raw none none none (some size) (some 0)

abbrev stopped : List ℕ → List ℕ → Key → ℕ → Writer × Status
stopped written free key size =
    (record (over written free key) { failure = some (no_room size) }, Status.error)

raw-stopped :
    (n : ℕ) (bytes written free : List ℕ) (key : Key)
    → length free < suc n
    → write_raw (some bytes) (suc n) (over written free key) ≡ stopped written free key (suc n)
unfolding write_fails current_write_error raw_size_error set_code set_stage set_sizes keep_first
raw-stopped n bytes written free key tight =
    raw-refused n bytes (record { written = written; free = free }) (over written free key) tight

-- Where the length finds no room, and where only the text does not.
text-stopped_at_length :
    (text free : List ℕ) (key : Key)
    → length free < 8
    → string.write none text (over [] free key) ≡ stopped [] free key 8
unfolding string write_text check_write_limit write_counted write_size write_scalar
text-stopped_at_length text free key tight =
    ap (next_write (write_body text)) (raw-stopped 7 (to_bytes 8 (length text)) [] free key tight)

text-stopped_at_text :
    (text free : List ℕ) (key : Key)
    → 8 ≤ length free
    → length free < 8 + length text
    → string.write none text (over [] free key)
      ≡ stopped (to_bytes 8 (length text)) (drop 8 free) key (length text)
unfolding string write_text check_write_limit write_counted write_size write_body
text-stopped_at_text [] free key some_room tight = absurd (omega arith)
text-stopped_at_text (b ∷ text) free key some_room tight =
    let size = length (b ∷ text) in
    let left : length (drop 8 free) < suc (length text) = omega (arith, length-drop 8 free) in
    ap (next_write (write_body (b ∷ text))) (Writes-scalar (over [] free key) 8 size some_room)
    ∙ (unfold push to_bytes in
        rw suc-==-zero
          (raw-stopped (length text) (b ∷ text) (to_bytes 8 size) (drop 8 free) key left))

-- How many bytes the write that finds no room has, and what is stored before it.
abbrev pub refused_size : List ℕ → List ℕ → ℕ
refused_size text free = if ltb (length free) 8 then 8 else length text

abbrev pub stored_before : List ℕ → List ℕ → List ℕ
stored_before text free = if ltb (length free) 8 then [] else to_bytes 8 (length text)

module _ (text free : List ℕ) (key : Key) where
  out-stopped :
      (written left : List ℕ) (size : ℕ) (earlier : Option WriteError)
      → string.write none text (over [] free key) ≡ stopped written left key size
      → let (w, thrown) =
          shift_out string text (record (writer_over free key) { failure = earlier }) in
        (thrown ≡ some (no_room size)) × (w.failure ≡ thrown) × (stored_bytes w.out ≡ written)
  unfolding shift_out writer_over
  out-stopped written left size earlier e =
      rw e (unfold thrown_write current_write_error in (refl, refl, refl))

  out-refused :
      (earlier : Option WriteError)
      → length free < 8 + length text
      → let (w, thrown) =
          shift_out string text (record (writer_over free key) { failure = earlier }) in
        (thrown ≡ some (no_room (refused_size text free)))
        × (w.failure ≡ thrown)
        × (stored_bytes w.out ≡ stored_before text free)
  out-refused earlier tight = elim (Bool-cases (ltb (length free) 8)) [
    | inl short ↦
        rw short
          (out-stopped [] free 8 earlier (text-stopped_at_length text free key (ground arith)))
    | inr enough ↦ rw enough (
        out-stopped (to_bytes 8 (length text)) (drop 8 free) (length text) earlier
          (text-stopped_at_text text free key (ground arith) tight))
  ]

-- The error of a read of this many bytes that are not there.
abbrev pub too_short : ℕ → ReadError
too_short size = refusal ReadErrorCode.truncated ReadStage.raw none none none (some size) (some 0)

in-refused :
    (n : ℕ) (old more : List ℕ) (key : Key) (earlier : Option ReadError)
    → suc n ≤ string_max_size
    → length more < suc n
    → shift_in string old
        (record (reader_over (to_bytes 8 (suc n) ++ more) key) { failure = earlier })
      ≡ (
        record (reader_over (to_bytes 8 (suc n) ++ more) key) {
          input = Source.checked (record { consumed = 8; rest = more });
          failure = some (too_short (suc n));
        },
        Received.failed (too_short (suc n)),
      )
unfolding shift_in reader_over
in-refused n old more key earlier small tight =
    let bytes = to_bytes 8 (suc n) in
    let i : CheckedInput = record { consumed = 0; rest = bytes ++ more } in
    let size = length-to_bytes 8 (suc n) in
    let past : drop 8 (bytes ++ more) ≡ more = drop-length 8 bytes more size in
    ap thrown_read (
      short_string-refused none n old (reader_over (bytes ++ more) key) i tt tt small
        (IsPrefix-append bytes more) (omega (arith, length-append bytes more)) refl)
    ∙ (unfold thrown_read current_read_error advance in
        ap
          (λ t. (
            record (reader_over (bytes ++ more) key) {
              input = Source.checked (record { consumed = 8; rest = t });
              failure = some (too_short (suc n));
            },
            Received.failed (too_short (suc n)),
          ))
          past)

-- A string that is written by `operator<<` to checked memory with too little room is refused with an
-- exception: where the 8 bytes of its length find no room nothing is stored, and else only they are; the
-- error is output_error in the stage raw, with the number of bytes that found no room and 0, and the
-- writer keeps it. A string whose length is read by `operator>>` from memory with fewer bytes behind the
-- length is refused with an exception too: just the 8 bytes are taken, and the error, which the
-- reader keeps, is truncated in the stage raw, with the length and 0. An error of an earlier write or
-- read is cleared and leaves nothing in either.
pub string-thrown :
    (text free old more : List ℕ) (n : ℕ) (key : Key) (earlier_write : Option WriteError)
    (earlier_read : Option ReadError)
    → length free < 8 + length text
    → suc n ≤ string_max_size
    → length more < suc n
    → let (w, thrown) =
        shift_out string text (record (writer_over free key) { failure = earlier_write }) in
      ((thrown ≡ some (no_room (refused_size text free)))
        × (w.failure ≡ thrown)
        × (stored_bytes w.out ≡ stored_before text free))
      × (shift_in string old
            (record (reader_over (to_bytes 8 (suc n) ++ more) key) { failure = earlier_read })
          ≡ (
            record (reader_over (to_bytes 8 (suc n) ++ more) key) {
              input = Source.checked (record { consumed = 8; rest = more });
              failure = some (too_short (suc n));
            },
            Received.failed (too_short (suc n)),
          ))
string-thrown text free old more n key earlier_write earlier_read tight small short = (
  out-refused text free key earlier_write tight,
  in-refused n old more key earlier_read small short,
)
