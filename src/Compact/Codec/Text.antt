-- ===== src/Compact/Codec/Text.antt =====
-- The codecs of compact.hpp for `std::string` and `std::string_view`: bytes behind a header with their
-- number.
use contract.Prelude.{
  ℕ, ◌-◌, ◌^◌, ◌≤◌, ◌<◌, refl, false, Option, none, some, List, [], ◌∷◌, arith, ◌==◌, suc-==-zero,
  if◌then◌else◌, length,
}
use contract.Compact.Codes.{ValueKind, ReadStage}
use contract.Compact.Writer.{Writer, Status, ◌⟫◌, write_ok, write, write_size_header}
use contract.Compact.Reader.{
  ReadM, pure, ◌>>=◌, read_window, read, read_size_header, check_max_size,
}
use contract.Compact.Wire.{string, encode, encode_size, IsValue}
use contract.Compact.Steps.{
  Writes, Writes-ok, Writes-then, Writes-bytes, Reads, Reads-bind, Reads-pure, Reads-bytes,
  Reads-window,
}
use contract.Compact.Sizes.{Sized, Writes-size, Reads-size}
use contract.Compact.Codec.{Codec, Descriptor, check_size}
use contract.Compact.Codec.Laws.{IsCodec, Reads-size_then, Reads-max_size_then}

-- value.empty() or the bytes
unfoldable pub write_text : List ℕ → Writer → Writer × Status
write_text value = if length value == 0 then write_ok else write (some value) (length value)

unfoldable pub write_string : List ℕ → Writer → Writer × Status
write_string value = write_size_header ValueKind.string (length value) ⟫ write_text value

-- `max_size()` of a std::string
abbrev pub string_max_size : ℕ
string_max_size = 2 ^ 63 - 2

-- value.clear(), or value.resize(byte_size) and the bytes
unfoldable pub read_string_body : ℕ → ReadM (List ℕ)
read_string_body size =
    if size == 0 then pure [] else (check_max_size string_max_size size >>= λ _. read false size)

unfoldable pub read_string_sized : ℕ → ReadM (List ℕ)
read_string_sized size = check_size none ReadStage.size size >>= λ _. read_string_body size

unfoldable pub read_string : ReadM (List ℕ)
read_string = read_size_header ValueKind.string >>= read_string_sized

unfoldable pub string_codec : Codec (List ℕ)
string_codec = record { write = λ d. write_string; read = λ d old. read_string; initial = [] }

-- A view is the bytes that it shows.
unfoldable pub read_view_body : ℕ → ReadM (List ℕ)
read_view_body size = if size == 0 then pure [] else read_window size

unfoldable pub read_view_sized : ℕ → ReadM (List ℕ)
read_view_sized size = check_size none ReadStage.size size >>= λ _. read_view_body size

unfoldable pub read_string_view : ReadM (List ℕ)
read_string_view = read_size_header ValueKind.string >>= read_view_sized

unfoldable pub string_view_codec : Codec (List ℕ)
string_view_codec = record {
  write = λ d. write_string;
  read = λ d old. read_string_view;
  initial = [];
}

abbrev pub FitsText : ℕ → Option Descriptor → List ℕ → Type 0
FitsText limit d value = length value ≤ limit

Writes-text : (value : List ℕ) → Writes (write_text value) value
unfolding write_text
Writes-text [] failure o room = Writes-ok failure o room
Writes-text (b ∷ value) failure o room = rw suc-==-zero (Writes-bytes (b ∷ value) failure o room)

Writes-string :
    (value : List ℕ) → length value < 2 ^ 64 → Writes (write_string value) (encode (string value))
unfolding write_string encode
Writes-string value h =
    Writes-then (write_size_header ValueKind.string (length value)) (write_text value)
      (encode_size 0x70 (length value)) value
      (Writes-size ValueKind.string 0x70 Sized.string (length value) h) (Writes-text value)

Reads-string_body :
    (value : List ℕ)
    → length value ≤ string_max_size
    → Reads (read_string_body (length value)) value value
unfolding read_string_body
Reads-string_body [] h failure consumed more = Reads-pure [] failure consumed more
Reads-string_body (b ∷ value) h failure consumed more = rw suc-==-zero (
    Reads-max_size_then string_max_size (length (b ∷ value)) (read false (length (b ∷ value)))
      (b ∷ value) (b ∷ value) h (Reads-bytes (length (b ∷ value)) (b ∷ value) refl) failure consumed
      more)

Reads-string :
    (value : List ℕ)
    → length value ≤ string_max_size
    → Reads read_string (encode (string value)) value
unfolding read_string read_string_sized encode
Reads-string value h =
    Reads-bind (read_size_header ValueKind.string) read_string_sized
      (encode_size 0x70 (length value)) value (length value) value
      (Reads-size ValueKind.string 0x70 Sized.string (length value) (omega arith))
      (Reads-size_then none ReadStage.size (length value) (read_string_body (length value)) value
        value (omega arith) (Reads-string_body value h))

pub string-IsCodec : IsCodec string_codec string (FitsText string_max_size)
unfolding string_codec IsValue
string-IsCodec = record {
  writes = λ d value fits. Writes-string value (omega arith);
  reads = λ d value old fits. Reads-string value fits;
  is_value = λ d value fits. omega arith;
}

Reads-view_body : (value : List ℕ) → Reads (read_view_body (length value)) value value
unfolding read_view_body
Reads-view_body [] failure consumed more = Reads-pure [] failure consumed more
Reads-view_body (b ∷ value) failure consumed more =
    rw suc-==-zero (Reads-window (length (b ∷ value)) (b ∷ value) refl failure consumed more)

Reads-string_view :
    (value : List ℕ)
    → length value ≤ 2 ^ 64 - 1
    → Reads read_string_view (encode (string value)) value
unfolding read_string_view read_view_sized encode
Reads-string_view value h =
    Reads-bind (read_size_header ValueKind.string) read_view_sized (encode_size 0x70 (length value))
      value (length value) value
      (Reads-size ValueKind.string 0x70 Sized.string (length value) (omega arith))
      (Reads-size_then none ReadStage.size (length value) (read_view_body (length value)) value
        value (omega arith) (Reads-view_body value))

pub string_view-IsCodec : IsCodec string_view_codec string (FitsText (2 ^ 64 - 1))
unfolding string_view_codec IsValue
string_view-IsCodec = record {
  writes = λ d value fits. Writes-string value (omega arith);
  reads = λ d value old fits. Reads-string_view value fits;
  is_value = λ d value fits. omega arith;
}
