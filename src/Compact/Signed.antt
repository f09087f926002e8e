-- ===== src/Compact/Signed.antt =====
-- Signed integers of the compact adapter: what `write_int` stores, and that `read_int` takes it back.
use Prim.Native.Nat.{bit_and}
use contract.Prelude.{
  ℕ, suc, ◌+◌, ◌-◌, ◌%◌, ◌^◌, ◌≤◌, ◌<◌, ◌≡◌, refl, ap, ◌∙◌, true, false, Bool-cases, inl, inr,
  Option, List, [], ◌∷◌, ◌++◌, arith, leb, le→ltb, length, take, to_bytes, length-to_bytes,
  bit_and_octet, ℤ,
}
use contract.Io.Window.{peek}
use contract.Io.Window.Stored.{input_of}
use contract.Compact.Headers.{compact_byte_count}
use contract.Compact.Count.{compact_byte_count-Fits}
use contract.Compact.Writer.{write_int}
use contract.Compact.Reader.{
  ReadError, done, read_small, negated, read_signed, read_int_header, int_of_view, read_int,
}
use contract.Compact.Steps.{Writes, Writes-byte, at, Reads}
use contract.Compact.Wire.{encode_payload, encode_uint, encode_negative}
use contract.Compact.Integers.{
  le→leb, gt→leb, payload_header-signed, payload_count-of, Writes-payload, Writes-uint, view-ahead,
  taken-payload, enough-payload, consumed-payload, Reads-small,
}

int-view :
    (header : ℕ) (payload : List ℕ) (failure : Option ReadError) (consumed : ℕ) (rest : List ℕ)
    → peek (input_of consumed rest) 9 ≡ header ∷ payload
    → read_int (at failure consumed rest)
      ≡ read_int_header header payload (at failure consumed rest)
unfolding read_int int_of_view
int-view header payload failure consumed rest e =
    ap (λ v. int_of_view v (at failure consumed rest)) e

-- The bit of the sign, in the headers of either sign.
sign-of : (n : ℕ) → n < 8 → (bit_and (0x50 + n) 0x08 ≡ 0) × (bit_and (0x58 + n) 0x08 ≡ 8)
sign-of n h = (
  omega (arith, (bit_and_octet (0x50 + n) (omega arith)).1),
  omega (arith, (bit_and_octet (0x58 + n) (omega arith)).1),
)

signed-taken :
    (n v header : ℕ) (rest : List ℕ) (failure : Option ReadError) (consumed : ℕ) (more : List ℕ)
    → v < 256 ^ n
    → v < 2 ^ 63
    → bit_and header 0x08 ≡ 0
    → read_signed header n
        (to_bytes n v ++ rest)
        (at failure consumed ((header ∷ to_bytes n v) ++ more))
      ≡ (at failure (consumed + length (header ∷ to_bytes n v)) more, done (ℤ.pos v))
unfolding read_signed
signed-taken n v header rest failure consumed more fits small sign =
    rw
      (
        enough-payload n v rest,
        sign,
        taken-payload n v rest fits,
        le→ltb (2 ^ 63 - 1) v (omega arith),
      )
      (ap (λ i. (record { input = i; failure = failure }, done (ℤ.pos v)))
        (consumed-payload n v header consumed more))

negated-suc : (v : ℕ) → negated (v + 1) ≡ ℤ.negsuc v
unfolding negated
negated-suc v = ground arith

negative-taken :
    (n v header : ℕ) (rest : List ℕ) (failure : Option ReadError) (consumed : ℕ) (more : List ℕ)
    → v + 1 < 256 ^ n
    → v < 2 ^ 63
    → bit_and header 0x08 ≡ 8
    → read_signed header n
        (to_bytes n (v + 1) ++ rest)
        (at failure consumed ((header ∷ to_bytes n (v + 1)) ++ more))
      ≡ (at failure (consumed + length (header ∷ to_bytes n (v + 1))) more, done (ℤ.negsuc v))
unfolding read_signed
negative-taken n v header rest failure consumed more fits small sign =
    rw
      (
        enough-payload n (v + 1) rest,
        sign,
        taken-payload n (v + 1) rest fits,
        le→ltb (2 ^ 63) (v + 1) (omega arith),
        negated-suc v,
      )
      (ap (λ i. (record { input = i; failure = failure }, done (ℤ.negsuc v)))
        (consumed-payload n (v + 1) header consumed more))

small-int : (v : ℕ) (payload : List ℕ) → v ≤ 63 → read_int_header v payload ≡ read_small (ℤ.pos v)
unfolding read_int_header
small-int v payload h = rw (le→leb v 63 h) refl

small-negative :
    (v : ℕ) (payload : List ℕ)
    → v ≤ 15
    → read_int_header (0x40 + v) payload ≡ read_small (ℤ.negsuc v)
unfolding read_int_header
small-negative v payload h =
    let back : 0x40 + v - 0x40 ≡ v = omega arith in
    rw (gt→leb (0x40 + v) 63 (omega arith), le→leb (0x40 + v) 0x4f (omega arith), back) refl

payload-int :
    (base n : ℕ) (payload : List ℕ)
    → base % 8 ≡ 0
    → 0x50 ≤ base
    → base ≤ 0x58
    → n < 8
    → read_int_header (base + n) payload ≡ read_signed (base + n) (suc n) payload
unfolding read_int_header
payload-int base n payload aligned low high h =
    rw
      (
        gt→leb (base + n) 63 (omega arith),
        gt→leb (base + n) 0x4f (omega arith),
        le→ltb 0x5f (base + n) (omega arith),
        payload_count-of base n aligned h,
      )
      refl

-- A header that is followed by a magnitude of 64 bits, up to what the header's sign decides.
Reads-magnitude :
    (base magnitude : ℕ) (z : ℤ)
    → magnitude < 2 ^ 64
    → base % 8 ≡ 0
    → 0x50 ≤ base
    → base ≤ 0x58
    → ((n k : ℕ) (rest : List ℕ) (failure : Option ReadError) (consumed : ℕ) (more : List ℕ)
        → magnitude < 256 ^ n
        → k < 8
        → read_signed
            (base + k)
            n
            (to_bytes n magnitude ++ rest)
            (at failure consumed (((base + k) ∷ to_bytes n magnitude) ++ more))
          ≡ (at failure (consumed + length ((base + k) ∷ to_bytes n magnitude)) more, done z))
    → Reads read_int (encode_payload base magnitude) z
unfolding encode_payload
Reads-magnitude base magnitude z h aligned low high taken failure consumed more =
    let n = compact_byte_count magnitude in
    let (positive, bounded, fits) = compact_byte_count-Fits magnitude h in
    let header = base + (n - 1) in
    let bytes = to_bytes n magnitude in
    let size = length-to_bytes n magnitude in
    let rest = take (8 - length bytes) more in
    let count : suc (n - 1) ≡ n = omega arith in
    int-view header (bytes ++ rest) failure consumed ((header ∷ bytes) ++ more)
      (view-ahead consumed header bytes more (omega arith))
    ∙ ap (λ m. m (at failure consumed ((header ∷ bytes) ++ more)))
        (payload-int base (n - 1) (bytes ++ rest) aligned low high (omega arith)
          ∙ ap (λ k. read_signed header k (bytes ++ rest)) count)
    ∙ taken n (n - 1) rest failure consumed more fits (omega arith)

Reads-one :
    (b : ℕ) (z : ℤ)
    → ((payload : List ℕ) → read_int_header b payload ≡ read_small z)
    → Reads read_int (b ∷ []) z
Reads-one b z header failure consumed more =
    int-view b (take 8 more) failure consumed (b ∷ more)
      (view-ahead consumed b [] more (omega arith))
    ∙ ap (λ m. m (at failure consumed (b ∷ more))) (header (take 8 more))
    ∙ Reads-small b z failure consumed more

-- The values of a std::int64_t, and the bytes of each.
abbrev pub IsInt64 : ℤ → Type 0
IsInt64 (ℤ.pos n) = n < 2 ^ 63
IsInt64 (ℤ.negsuc n) = n < 2 ^ 63

abbrev pub encode_int : ℤ → List ℕ
encode_int (ℤ.pos n) = encode_uint n
encode_int (ℤ.negsuc n) = encode_negative n

pub Writes-int : (z : ℤ) → IsInt64 z → Writes (write_int z) (encode_int z)
unfolding write_int encode_negative
Writes-int (ℤ.pos n) h = Writes-uint n (omega arith)
Writes-int (ℤ.negsuc n) h = elim (Bool-cases (leb n 15)) [
  | inl small ↦
      let test : leb (n + 1) 16 ≡ true = ground arith in
      let value : n + 1 - 1 ≡ n = omega arith in rw (small, test, value) (Writes-byte (0x40 + n))
  | inr large ↦
      let test : leb (n + 1) 16 ≡ false = ground arith in
      rw (large, test) (Writes-payload true 0x58 (n + 1) payload_header-signed (omega arith))
]

pub Reads-int : (z : ℤ) → IsInt64 z → Reads read_int (encode_int z) z
unfolding encode_uint encode_negative
Reads-int (ℤ.pos n) h failure consumed more = elim (Bool-cases (leb n 63)) [
  | inl small ↦
      let tiny : n ≤ 63 = ground arith in
      rw small (Reads-one n (ℤ.pos n) (λ payload. small-int n payload tiny) failure consumed more)
  | inr large ↦ rw large (
      Reads-magnitude 0x50 n (ℤ.pos n) (omega arith) (omega arith) (omega arith) (omega arith)
        (λ m k rest failure' consumed' more' fits lt.
          signed-taken m n (0x50 + k) rest failure' consumed' more' fits h (sign-of k lt).0)
        failure consumed more)
]
Reads-int (ℤ.negsuc n) h failure consumed more = elim (Bool-cases (leb n 15)) [
  | inl small ↦
      let tiny : n ≤ 15 = ground arith in
      rw small (
        Reads-one (0x40 + n) (ℤ.negsuc n) (λ payload. small-negative n payload tiny) failure
          consumed more)
  | inr large ↦ rw large (
      Reads-magnitude 0x58 (n + 1) (ℤ.negsuc n) (omega arith) (omega arith) (omega arith)
        (omega arith)
        (λ m k rest failure' consumed' more' fits lt.
          negative-taken m n (0x58 + k) rest failure' consumed' more' fits h (sign-of k lt).1)
        failure consumed more)
]
