-- ===== src/Compact/Integers.antt =====
-- Unsigned integers of the compact adapter: what `write_uint` stores, and that `read_uint` takes it back;
-- and the steps that the signed ones share.
use Prim.Native.Nat.{bit_and, bit_or}
use contract.Prelude.{
  ℕ, suc, ◌+◌, ◌-◌, ◌*◌, ◌%◌, ◌^◌, ◌≤◌, ◌<◌, ◌≡◌, refl, ap, ap₂, ◌∙◌, Bool, true, false, Bool-cases,
  inl, inr, Option, List, [], ◌∷◌, ◌++◌, arith, ltb, leb, ◌==◌, le→ltb, length, length-append, take,
  take-length, to_bytes, of_bytes, length-to_bytes, of_bytes-to_bytes, bit_and_mask, bit_and_octet,
  bit_or_below,
}
use contract.Io.Window.{peek, consume}
use contract.Io.Window.Stored.{input_of, peek-more, consume-ahead}
use contract.Compact.Headers.{compact_byte_count}
use contract.Compact.Count.{compact_byte_count-Fits}
use contract.Compact.Writer.{
  header_stage, write_little_uint, payload_header, write_integer_payload, write_uint,
}
use contract.Compact.Reader.{
  ReadError, done, read_small, payload_count, read_payload, read_uint_header, uint_of_view,
  read_uint,
}
use contract.Compact.Steps.{Writes, Writes-window, Writes-byte, at, Reads}
use contract.Compact.Wire.{encode_payload, encode_uint}

-- x <= limit, as a test.
pub le→leb : (a b : ℕ) → a ≤ b → leb a b ≡ true
le→leb a b h = ground arith

pub gt→leb : (a b : ℕ) → b < a → leb a b ≡ false
gt→leb a b h = ground arith

payload_header-unsigned : (n : ℕ) → n < 8 → payload_header false (suc n) ≡ 0x50 + n
unfolding payload_header
payload_header-unsigned n h =
    let base : bit_or 0x50 0 ≡ 10 * 2 ^ 3 = refl in
    let low : suc n - 1 ≡ n = omega arith in
    ap₂ bit_or base low ∙ bit_or_below 3 n 10 h ∙ omega arith

pub payload_header-signed : (n : ℕ) → n < 8 → payload_header true (suc n) ≡ 0x58 + n
unfolding payload_header
payload_header-signed n h =
    let base : bit_or 0x50 0x08 ≡ 11 * 2 ^ 3 = refl in
    let low : suc n - 1 ≡ n = omega arith in
    ap₂ bit_or base low ∙ bit_or_below 3 n 11 h ∙ omega arith

pub payload_count-of : (base n : ℕ) → base % 8 ≡ 0 → n < 8 → payload_count (base + n) ≡ suc n
unfolding payload_count
payload_count-of base n aligned h =
    let low : bit_and (base + n) 0x07 ≡ n = omega (arith, bit_and_mask 3 (base + n)) in
    omega (arith, low)

pub Writes-payload :
    (negative : Bool) (base magnitude : ℕ)
    → ((n : ℕ) → n < 8 → payload_header negative (suc n) ≡ base + n)
    → magnitude < 2 ^ 64
    → Writes (write_integer_payload negative magnitude) (encode_payload base magnitude)
unfolding write_integer_payload write_little_uint encode_payload
Writes-payload negative base magnitude header h failure o room =
    let n = compact_byte_count magnitude in
    let (positive, bounded, fits) = compact_byte_count-Fits magnitude h in
    let count : n ≡ suc (n - 1) = omega arith in
    let head : payload_header negative n ≡ base + (n - 1) =
      ap (payload_header negative) count ∙ header (n - 1) (omega arith) in
    rw head (
      Writes-window (header_stage (base + (n - 1))) ((base + (n - 1)) ∷ to_bytes n magnitude)
        (omega arith) failure o room)

pub Writes-uint : (v : ℕ) → v < 2 ^ 64 → Writes (write_uint v) (encode_uint v)
unfolding write_uint encode_uint
Writes-uint v h = elim (Bool-cases (leb v 63)) [
  | inl small ↦ rw small (Writes-byte v)
  | inr large ↦ rw large (Writes-payload false 0x50 v payload_header-unsigned h)
]

-- What peek(9) shows of a header with at most 8 bytes behind it.
pub view-ahead :
    (consumed header : ℕ) (bytes more : List ℕ)
    → length bytes ≤ 8
    → peek (input_of consumed ((header ∷ bytes) ++ more)) 9
      ≡ header ∷ (bytes ++ take (8 - length bytes) more)
view-ahead consumed header bytes more h =
    peek-more consumed 9 (header ∷ bytes) more (omega arith)
    ∙ ap (λ n. header ∷ (bytes ++ take n more)) (omega arith)

pub taken-payload :
    (n v : ℕ) (rest : List ℕ) → v < 256 ^ n → of_bytes (take n (to_bytes n v ++ rest)) ≡ v
taken-payload n v rest h =
    ap of_bytes (take-length n (to_bytes n v) rest (length-to_bytes n v)) ∙ of_bytes-to_bytes n v h

pub enough-payload : (n v : ℕ) (rest : List ℕ) → ltb (length (to_bytes n v ++ rest)) n ≡ false
enough-payload n v rest =
    le→ltb (length (to_bytes n v ++ rest)) n
      (omega (arith, length-append (to_bytes n v) rest, length-to_bytes n v))

pub consumed-payload :
    (n v header consumed : ℕ) (more : List ℕ)
    → consume (input_of consumed ((header ∷ to_bytes n v) ++ more)) (1 + n)
      ≡ input_of (consumed + length (header ∷ to_bytes n v)) more
consumed-payload n v header consumed more =
    let size = length-to_bytes n v in
    consume-ahead consumed (1 + n) (header ∷ to_bytes n v) more (omega arith)
    ∙ ap (λ k. input_of k more) (omega arith)

-- A header that holds its value.
pub Reads-small :
    {A : Type 0} (b : ℕ) (a : A) (failure : Option ReadError) (consumed : ℕ) (more : List ℕ)
    → read_small a (at failure consumed (b ∷ more)) ≡ (at failure (consumed + 1) more, done a)
Reads-small b a failure consumed more =
    ap (λ i. (record { input = i; failure = failure }, done a))
      (consume-ahead consumed 1 (b ∷ []) more refl)

payload-taken :
    (n v header : ℕ) (rest : List ℕ) (failure : Option ReadError) (consumed : ℕ) (more : List ℕ)
    → v < 256 ^ n
    → read_payload n (to_bytes n v ++ rest) (at failure consumed ((header ∷ to_bytes n v) ++ more))
      ≡ (at failure (consumed + length (header ∷ to_bytes n v)) more, done v)
unfolding read_payload
payload-taken n v header rest failure consumed more h = rw (enough-payload n v rest) (
    ap₂ (λ i x. (record { input = i; failure = failure }, done x))
      (consumed-payload n v header consumed more) (taken-payload n v rest h))

small-uint : (v : ℕ) (payload : List ℕ) → v ≤ 63 → read_uint_header v payload ≡ read_small v
unfolding read_uint_header
small-uint v payload h = rw (le→leb v 63 h) refl

payload-uint :
    (n : ℕ) (payload : List ℕ)
    → n < 8
    → read_uint_header (0x50 + n) payload ≡ read_payload (suc n) payload
unfolding read_uint_header
payload-uint n payload h =
    let octet : (bit_and (0x50 + n) 0xf8 == 0x50) ≡ true =
      ground (arith, (bit_and_octet (0x50 + n) (omega arith)).0) in
    rw (gt→leb (0x50 + n) 63 (omega arith), octet, payload_count-of 0x50 n (omega arith) h) refl

-- Where the view is known, the reader goes by the header in front of it.
uint-view :
    (header : ℕ) (payload : List ℕ) (failure : Option ReadError) (consumed : ℕ) (rest : List ℕ)
    → peek (input_of consumed rest) 9 ≡ header ∷ payload
    → read_uint (at failure consumed rest)
      ≡ read_uint_header header payload (at failure consumed rest)
unfolding read_uint uint_of_view
uint-view header payload failure consumed rest e =
    ap (λ v. uint_of_view v (at failure consumed rest)) e

Reads-payload_uint : (v : ℕ) → v < 2 ^ 64 → Reads read_uint (encode_payload 0x50 v) v
unfolding encode_payload
Reads-payload_uint v h failure consumed more =
    let n = compact_byte_count v in
    let (positive, bounded, fits) = compact_byte_count-Fits v h in
    let header = 0x50 + (n - 1) in
    let size = length-to_bytes n v in
    let rest = take (8 - length (to_bytes n v)) more in
    let count : suc (n - 1) ≡ n = omega arith in
    uint-view header (to_bytes n v ++ rest) failure consumed ((header ∷ to_bytes n v) ++ more)
      (view-ahead consumed header (to_bytes n v) more (omega arith))
    ∙ ap (λ m. m (at failure consumed ((header ∷ to_bytes n v) ++ more)))
        (payload-uint (n - 1) (to_bytes n v ++ rest) (omega arith)
          ∙ ap (λ k. read_payload k (to_bytes n v ++ rest)) count)
    ∙ payload-taken n v header rest failure consumed more fits

Reads-small_uint : (v : ℕ) → v ≤ 63 → Reads read_uint (v ∷ []) v
Reads-small_uint v h failure consumed more =
    uint-view v (take 8 more) failure consumed (v ∷ more)
      (view-ahead consumed v [] more (omega arith))
    ∙ ap (λ m. m (at failure consumed (v ∷ more))) (small-uint v (take 8 more) h)
    ∙ Reads-small v v failure consumed more

pub Reads-uint : (v : ℕ) → v < 2 ^ 64 → Reads read_uint (encode_uint v) v
unfolding encode_uint
Reads-uint v h failure consumed more = elim (Bool-cases (leb v 63)) [
  | inl small ↦ rw small (Reads-small_uint v (ground arith) failure consumed more)
  | inr large ↦ rw large (Reads-payload_uint v h failure consumed more)
]
