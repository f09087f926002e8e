-- ===== src/Binary/Limits.antt =====
-- The guards of the codecs: what a limit of the field, the memory and the bytes that are there
-- refuse.
use contract.Prelude.{
  ℕ, suc, ◌+◌, ◌*◌, ◌%◌, ◌^◌, ◌≤◌, ◌<◌, ◌≡◌, refl, ap, ◌∙◌, false, Option, none, some, List, [],
  arith, lt→ltb, le→ltb, length, length-drop, drop, ◌==◌, to_bytes, length-to_bytes, suc-==-zero,
}
use contract.Io.Byte.{CheckedInput, checked_read, checked_read_view, copied}
use contract.Binary.Codes.{WriteErrorCode, ReadErrorCode, ReadStage}
use contract.Binary.Stream.{Source, source_read}
use contract.Binary.Stream.Sources.{Holds, IsPrefix, advance}
use contract.Binary.Writer.{
  Writer, Status, Descriptor, ◌⟫◌, write_fails, within_limit, check_write_limit, write_limit_error,
  write_size,
}
use contract.Binary.Reader.{
  Reader, Outcome, ReadM, ◌>>◌, next_read, read_fails, read_size, read_raw, read_whole,
  within_read_limit, check_read_limit, read_limit_error, raw_read_error, check_max_size, max_size,
  string_max_size,
}
use contract.Binary.Codec.{Codec}
use contract.Binary.Codec.Laws.{Reads-size, Reads-limit, took, Within}
use contract.Binary.Codec.Sequence.{byte_count, write_items}
use contract.Binary.Codec.Text.{
  string, read_text, read_limited, read_max_length, read_max_bytes, read_string_body,
}
use contract.Binary.Codec.Vector.{
  vector, write_vector, read_vector_max_items, read_vector_body, raw_vector, read_raw_max_items,
  read_raw_max_bytes, read_raw_body,
}

-- A size above the limit stops the write before anything is written.
stopped_write :
    (code : WriteErrorCode) (limit_of : Descriptor → Option ℕ) (d : Descriptor) (limit size : ℕ)
    (k : Writer → Writer × Status) (w : Writer)
    → limit_of d ≡ some limit
    → limit < size
    → (check_write_limit code limit_of (some d) size ⟫ k) w
      ≡ write_fails (write_limit_error code d limit size) w
unfolding check_write_limit within_limit write_fails
stopped_write code limit_of d limit size k w e h = rw (e, lt→ltb limit size h) refl

stopped_read :
    {A : Type 0} (code : ReadErrorCode) (limit_of : Descriptor → Option ℕ) (d : Descriptor)
    (limit size : ℕ) (k : ReadM A) (r : Reader)
    → limit_of d ≡ some limit
    → limit < size
    → (check_read_limit code limit_of (some d) size >> k) r
      ≡ read_fails (read_limit_error code d limit size) r
unfolding check_read_limit within_read_limit read_fails
stopped_read code limit_of d limit size k r e h = rw (e, lt→ltb limit size h) refl

-- A limit that is kept, or none, lets the rest go on.
passed_read :
    {A : Type 0} (code : ReadErrorCode) (limit_of : Descriptor → Option ℕ) (d : Option Descriptor)
    (size : ℕ) (k : ReadM A) (r : Reader)
    → Within limit_of d size
    → (check_read_limit code limit_of d size >> k) r ≡ k r
unfolding advance
passed_read code limit_of d size k r h =
    ap (next_read (λ _. k)) (Reads-limit code limit_of d size r h)

module _ {A : Type 0} (c : Codec A) (n : ℕ) where
  -- Writing a vector with more elements than the field's max_items fails with max_items_exceeded,
  -- the field, the limit and the number of elements, and nothing is written.
  pub vector-limited_write :
      (d : Descriptor) (limit : ℕ) (v : List A) (w : Writer)
      → d.max_items ≡ some limit
      → limit < length v
      → (vector c n).write (some d) v w
        ≡ write_fails (write_limit_error WriteErrorCode.max_items_exceeded d limit (length v)) w
  unfolding vector write_vector
  vector-limited_write d limit v w e h =
      stopped_write WriteErrorCode.max_items_exceeded (λ f. f.max_items) d limit (length v)
        (write_size (length v) ⟫ write_items c (length v) 0 v) w e h

  -- Where the input claims a number of elements above the field's max_items, reading the vector
  -- takes the 8 bytes of the claim and fails with max_items_exceeded, the field, the limit and the
  -- claim: no element is read, and no memory is reserved for them.
  pub vector-limited_read :
      (d : Descriptor) (limit size : ℕ) (old : List A) (r : Reader)
      → d.max_items ≡ some limit
      → limit < size
      → size < 2 ^ 64
      → Holds r.input (to_bytes 8 size)
      → (vector c n).read (some d) old r
        ≡ read_fails
            (read_limit_error ReadErrorCode.max_items_exceeded d limit size)
            (took r (length (to_bytes 8 size)))
  unfolding vector read_vector_max_items
  vector-limited_read d limit size old r e h small held =
      ap (next_read (read_vector_max_items c n (some d))) (Reads-size r size small held)
      ∙ stopped_read ReadErrorCode.max_items_exceeded (λ f. f.max_items) d limit size
          (read_vector_body c n size) (took r (length (to_bytes 8 size))) e h

-- Where the input claims a length above the field's max_length, reading the string takes the 8 bytes
-- of the claim and fails with max_length_exceeded, the field, the limit and the claim: nothing is
-- allocated for the string.
pub string-limited_read :
    (d : Descriptor) (limit size : ℕ) (old : List ℕ) (r : Reader)
    → d.max_length ≡ some limit
    → limit < size
    → size < 2 ^ 64
    → Holds r.input (to_bytes 8 size)
    → string.read (some d) old r
      ≡ read_fails
          (read_limit_error ReadErrorCode.max_length_exceeded d limit size)
          (took r (length (to_bytes 8 size)))
unfolding string read_text read_limited read_max_length
string-limited_read d limit size old r e h small held =
    ap (next_read (read_max_length (some d) read_string_body)) (Reads-size r size small held)
    ∙ stopped_read ReadErrorCode.max_length_exceeded (λ f. f.max_length) d limit size
        (read_max_bytes (some d) read_string_body size) (took r (length (to_bytes 8 size))) e h

-- A checked input that has less than what is asked for gives nothing and stays where it is.
short_checked :
    (i : CheckedInput) (n : ℕ)
    → length i.rest < suc n
    → source_read (Source.checked i) false (suc n) ≡ (Source.checked i, [], 0)
unfolding source_read checked_read checked_read_view copied
short_checked i n h = ground arith

short_read :
    (i : CheckedInput) (r : Reader) (n : ℕ)
    → length i.rest < suc n
    → read_raw false (suc n) (record r { input = Source.checked i })
      ≡ read_fails
          (raw_read_error ReadErrorCode.truncated ReadStage.raw (suc n))
          (record r { input = Source.checked i })
unfolding read_raw read_whole
short_read i r n h =
    let nothing : (0 == suc n) ≡ false = ground arith in
    rw suc-==-zero (
      ap (read_whole (suc n) (record r { input = Source.checked i })) (short_checked i n h)
      ∙ rw nothing refl)

Reads-claim :
    (r : Reader) (i : CheckedInput) (n : ℕ)
    → suc n ≤ string_max_size
    → IsPrefix (to_bytes 8 (suc n)) i.rest
    → read_size (record r { input = Source.checked i }) ≡ (
      record r {
        input = Source.checked (record { consumed = i.consumed + 8; rest = drop 8 i.rest });
      },
      Outcome.done (suc n),
    )
unfolding advance
Reads-claim r i n small h =
    rw length-to_bytes at
      (Reads-size (record r { input = Source.checked i }) (suc n) (omega arith) h)

-- Where the input claims a length that the limits of the field and `max_size()` allow, but has fewer
-- bytes than that left, reading the string takes the 8 bytes of the claim and fails with truncated
-- and the length; no byte of the text is taken.
pub string-truncated_read :
    (d : Option Descriptor) (n : ℕ) (old : List ℕ) (r : Reader) (i : CheckedInput)
    → Within (λ f. f.max_length) d (suc n)
    → Within (λ f. f.max_bytes) d (suc n)
    → suc n ≤ string_max_size
    → IsPrefix (to_bytes 8 (suc n)) i.rest
    → length i.rest < 8 + suc n
    → string.read d old (record r { input = Source.checked i })
      ≡ read_fails (raw_read_error ReadErrorCode.truncated ReadStage.raw (suc n)) (record r {
        input = Source.checked (record { consumed = i.consumed + 8; rest = drop 8 i.rest });
      })
unfolding string read_text read_limited read_max_length read_max_bytes read_string_body
    check_max_size
string-truncated_read d n old r i max_length max_bytes size held short =
    let bytes = to_bytes 8 (suc n) in
    let r' = record r {
      input = Source.checked (record { consumed = i.consumed + 8; rest = drop 8 i.rest });
    } in
    ap (next_read (read_max_length d read_string_body)) (Reads-claim r i n size held)
    ∙ passed_read ReadErrorCode.max_length_exceeded (λ f. f.max_length) d (suc n)
        (read_max_bytes d read_string_body (suc n)) r' max_length
    ∙ passed_read ReadErrorCode.max_bytes_exceeded (λ f. f.max_bytes) d (suc n)
        (read_string_body (suc n)) r' max_bytes
    ∙ rw (suc-==-zero, le→ltb string_max_size (suc n) size)
        (short_read (record { consumed = i.consumed + 8; rest = drop 8 i.rest }) r n
          (omega (arith, length-drop 8 i.rest)))

-- A claimed size of a vector of raw elements that is at most max_bytes only because its number of
-- bytes wraps at 2 ^ 64, and is above the vector's `max_size()`, passes the max_bytes guard: the read
-- ends in the std::length_error of `resize`, which is no read_status and carries no code.
pub raw_vector-wrapped_guard :
    (n limit size : ℕ) (d : Descriptor) (old : List ℕ) (r : Reader)
    → d.max_items ≡ none
    → d.max_bytes ≡ some limit
    → size * n % 2 ^ 64 ≤ limit
    → max_size n < size
    → size < 2 ^ 64
    → Holds r.input (to_bytes 8 size)
    → (raw_vector n).read (some d) old r ≡ (took r (length (to_bytes 8 size)), Outcome.length_error)
unfolding raw_vector read_raw_max_items read_raw_max_bytes read_raw_body byte_count check_max_size
raw_vector-wrapped_guard n limit size d old r no_items e guard above small held =
    let r' = took r (length (to_bytes 8 size)) in
    let items : Within (λ f. f.max_items) (some d) size = rw no_items tt in
    let bytes : Within (λ f. f.max_bytes) (some d) (size * n % 2 ^ 64) = rw e guard in
    ap (next_read (read_raw_max_items n (some d))) (Reads-size r size small held)
    ∙ passed_read ReadErrorCode.max_items_exceeded (λ f. f.max_items) (some d) size
        (read_raw_max_bytes n (some d) size) r' items
    ∙ passed_read ReadErrorCode.max_bytes_exceeded (λ f. f.max_bytes) (some d) (size * n % 2 ^ 64)
        (read_raw_body n size) r' bytes
    ∙ rw (lt→ltb (max_size n) size above) refl
