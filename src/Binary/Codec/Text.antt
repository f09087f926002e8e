-- ===== src/Binary/Codec/Text.antt =====
-- `codec<std::string>`, `codec<std::string_view>` and `codec<const char*>` of binary.hpp: the size
-- as a `std::size_t`, then the bytes.
use contract.Prelude.{
  ℕ, suc-==-zero, ◌≤◌, refl, ap, Bool, false, Option, none, some, List, [], ◌∷◌, ◌++◌, arith, ◌==◌,
  if◌then◌else◌, length, All, All-append, IsByte, to_bytes, to_bytes-IsByte,
}
use contract.Binary.Codes.{WriteErrorCode, ReadErrorCode}
use contract.Binary.Cipher.{Key}
use contract.Binary.Stream.Sinks.{HasRoom, push}
use contract.Binary.Stream.Sources.{Holds, advance, source_read_view-Holds}
use contract.Binary.Writer.{
  Writer, Status, Descriptor, ◌⟫◌, write_ok, write_raw, write_size, check_write_limit,
}
use contract.Binary.Reader.{
  Reader, ReadM, pure, ◌>>=◌, ◌>>◌, check_max_size, string_max_size, read_raw, read_view, seen,
  read_size, check_read_limit,
}
use contract.Binary.Codec.{Codec}
use contract.Binary.Codec.Laws.{
  IsCodec, Writes, Reads, Within, Writes-limit_then, Reads-limit_then, Writes-size_then,
  Reads-size_then, Reads-max_size_then, Writes-raw, Reads-raw, wrote, took,
}

-- `write(out, value)`: an empty string has no bytes behind its size.
unfoldable pub write_body : List ℕ → Writer → Writer × Status
write_body value = if length value == 0 then write_ok else write_raw (some value) (length value)

unfoldable pub write_counted : List ℕ → Writer → Writer × Status
write_counted value = write_size (length value) ⟫ write_body value

unfoldable pub write_text : Option Descriptor → List ℕ → Writer → Writer × Status
unfolding write_counted
write_text d value =
    check_write_limit WriteErrorCode.max_length_exceeded (λ f. f.max_length) d (length value)
    ⟫ check_write_limit WriteErrorCode.max_bytes_exceeded (λ f. f.max_bytes) d (length value)
    ⟫ write_counted value

-- `value.resize(size); return in.read(value.data(), size);`
unfoldable pub read_string_body : ℕ → ReadM (List ℕ)
read_string_body size =
    if size == 0 then pure [] else (check_max_size string_max_size size >> read_raw false size)

-- A view refers to the input's memory; here it is the bytes that it shows.
unfoldable pub read_view_body : ℕ → ReadM (List ℕ)
read_view_body size = if size == 0 then pure [] else read_view size

-- The limits are tested against the size that the input claims, before anything is allocated.
unfoldable pub read_max_bytes : Option Descriptor → (ℕ → ReadM (List ℕ)) → ℕ → ReadM (List ℕ)
read_max_bytes d body size = do
  check_read_limit ReadErrorCode.max_bytes_exceeded (λ f. f.max_bytes) d size
  body size

unfoldable pub read_max_length : Option Descriptor → (ℕ → ReadM (List ℕ)) → ℕ → ReadM (List ℕ)
unfolding read_max_bytes
read_max_length d body size = do
  check_read_limit ReadErrorCode.max_length_exceeded (λ f. f.max_length) d size
  read_max_bytes d body size

unfoldable pub read_limited : Option Descriptor → (ℕ → ReadM (List ℕ)) → ReadM (List ℕ)
unfolding read_max_length
read_limited d body = read_size >>= read_max_length d body

unfoldable pub read_text : Option Descriptor → ReadM (List ℕ)
unfolding read_limited
read_text d = read_limited d read_string_body

unfoldable pub read_text_view : Option Descriptor → ReadM (List ℕ)
unfolding read_limited
read_text_view d = read_limited d read_view_body

unfoldable pub string : Codec (List ℕ)
string = record { write = write_text; read = λ d old. read_text d; initial = [] }

unfoldable pub string_view : Codec (List ℕ)
string_view = record { write = write_text; read = λ d old. read_text_view d; initial = [] }

-- `const char*` is written with its terminator, and cannot be read. `none` is the null pointer.
unfoldable pub write_c_string : Option (List ℕ) → Writer → Writer × Status
write_c_string none = write_size 0 ⟫ write_ok ⟫ write_raw (some (0 ∷ [])) 1
write_c_string (some text) =
    write_size (length text) ⟫ write_body text ⟫ write_raw (some (0 ∷ [])) 1

abbrev pub encode_text : Key → Bool → List ℕ → List ℕ
encode_text key active v = to_bytes 8 (length v) ++ v

pub record FitsText (d : Option Descriptor) (v : List ℕ) : Type 0 where
  pub bytes : All IsByte v
  pub size : length v ≤ string_max_size
  pub max_length : Within (λ f. f.max_length) d (length v)
  pub max_bytes : Within (λ f. f.max_bytes) d (length v)

Writes-body : (w : Writer) (v : List ℕ) → HasRoom w.out (length v) → Writes (write_body v) w v
unfolding write_body
Writes-body w [] room = unfold push in refl
Writes-body w (x ∷ xs) room = rw suc-==-zero (Writes-raw w (x ∷ xs) (length (x ∷ xs)) refl room)

Writes-text :
    (d : Option Descriptor) (v : List ℕ) (w : Writer)
    → FitsText d v
    → HasRoom w.out (length (encode_text w.encrypt_key w.encrypt_active v))
    → Writes (write_text d v) w (encode_text w.encrypt_key w.encrypt_active v)
unfolding write_text
Writes-text d v w fits room =
    let bounded =
      check_write_limit WriteErrorCode.max_bytes_exceeded (λ f. f.max_bytes) d (length v)
      ⟫ write_counted v in
    let bytes = to_bytes 8 (length v) ++ v in
    Writes-limit_then WriteErrorCode.max_length_exceeded (λ f. f.max_length) d (length v) bounded w
      bytes fits.max_length
      (Writes-limit_then WriteErrorCode.max_bytes_exceeded (λ f. f.max_bytes) d (length v)
        (write_counted v) w bytes fits.max_bytes
        (Writes-size_then (length v) (write_body v) w v room
          (Writes-body (wrote w (to_bytes 8 (length v))) v)))

Reads-limited :
    (d : Option Descriptor) (body : ℕ → ReadM (List ℕ)) (v : List ℕ) (r : Reader)
    → FitsText d v
    → Holds r.input (encode_text r.encrypt_key r.encrypt_active v)
    → ((r : Reader) → Holds r.input v → Reads (body (length v)) r v v)
    → Reads (read_limited d body) r (encode_text r.encrypt_key r.encrypt_active v) v
unfolding read_limited
Reads-limited d body v r fits h g =
    let r' = took r (length (to_bytes 8 (length v))) in
    Reads-size_then (length v) (read_max_length d body) r v v (omega (arith, fits.size)) h λ ahead.
      Reads-limit_then ReadErrorCode.max_length_exceeded (λ f. f.max_length) d (length v)
        (read_max_bytes d body (length v)) r' v v fits.max_length
        (Reads-limit_then ReadErrorCode.max_bytes_exceeded (λ f. f.max_bytes) d (length v)
          (body (length v)) r' v v fits.max_bytes (g r' ahead))

Reads-string_body :
    (v : List ℕ) (r : Reader)
    → length v ≤ string_max_size
    → Holds r.input v
    → Reads (read_string_body (length v)) r v v
unfolding read_string_body
Reads-string_body [] r fits h = unfold advance in refl
Reads-string_body (x ∷ xs) r fits h = rw suc-==-zero (
    Reads-max_size_then string_max_size (length (x ∷ xs)) (read_raw false (length (x ∷ xs))) r
      (x ∷ xs) (x ∷ xs) fits (Reads-raw r (x ∷ xs) (length (x ∷ xs)) refl h))

Reads-view_body :
    (v : List ℕ) (r : Reader) → Holds r.input v → Reads (read_view_body (length v)) r v v
unfolding read_view_body read_view seen
Reads-view_body [] r h = unfold advance in refl
Reads-view_body (x ∷ xs) r h =
    rw suc-==-zero
      (ap (seen (length (x ∷ xs)) r) (source_read_view-Holds r.input (length xs) (x ∷ xs) refl h))

text-IsByte :
    (d : Option Descriptor) (v : List ℕ) → FitsText d v → All IsByte (to_bytes 8 (length v) ++ v)
text-IsByte d v fits =
    All-append IsByte (to_bytes 8 (length v)) v (to_bytes-IsByte 8 (length v)) fits.bytes

-- A string of bytes that is within `max_size()` and the limits of the field is stored as its length in
-- 8 bytes and its bytes, where the sink has room, and is read back as the same string, with exactly
-- those bytes taken.
pub string-IsCodec : IsCodec string encode_text FitsText
unfolding string read_text
string-IsCodec = record {
  writes = Writes-text;
  reads = λ d v old r fits h.
      Reads-limited d read_string_body v r fits h (λ r. Reads-string_body v r fits.size);
  bytes = λ key active d v k. text-IsByte d v;
}

-- A view is stored as the string it shows, under the same conditions, and reading it shows the same
-- bytes again.
pub string_view-IsCodec : IsCodec string_view encode_text FitsText
unfolding string_view read_text_view
string_view-IsCodec = record {
  writes = Writes-text;
  reads = λ d v old r fits h. Reads-limited d read_view_body v r fits h (λ r. Reads-view_body v r);
  bytes = λ key active d v k. text-IsByte d v;
}
