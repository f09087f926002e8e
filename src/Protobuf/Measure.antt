-- ===== src/Protobuf/Measure.antt =====
-- `varint_byte_count` of protobuf.hpp, by which the counting output measures a nested message: it is
-- the number of bytes that the loop makes.
use Prim.Native.Nat.{bit_or}
use native.Mathlib.Nat.{pow-suc}
use contract.Prelude.{
  ℕ, zero, suc, ◌+◌, ◌*◌, ◌/◌, ◌^◌, ◌≤◌, ◌<◌, ◌≡◌, refl, sym, ap, ◌∙◌, false, Bool-cases, inl, inr,
  arith, ltb, ◌==◌, length, bit_or_one,
}
use contract.Protobuf.Varint.{next_shift, varint_bytes, varint_bytes-more, varint_bytes-last}
use contract.Protobuf.Writer.{bit_width, varint_byte_count}

bit_width-half : (bits v : ℕ) → 0 < v → bit_width (suc bits) v ≡ suc (bit_width bits (v / 2))
unfolding bit_width
bit_width-half bits v h = let positive : (v == 0) ≡ false = ground arith in rw positive refl

bit_width-zero : (bits : ℕ) → bit_width bits 0 ≡ 0
unfolding bit_width
bit_width-zero zero = refl
bit_width-zero (suc bits) = refl

bit_width-none : (v : ℕ) → bit_width zero v ≡ 0
unfolding bit_width
bit_width-none v = refl

bit_width-le : (bits k v : ℕ) → v < 2 ^ k → bit_width bits v ≤ k
bit_width-le zero k v h = rw bit_width-none (omega arith)
bit_width-le (suc bits) k zero h = rw bit_width-zero (omega arith)
bit_width-le (suc bits) zero (suc v) h = absurd (omega arith)
bit_width-le (suc bits) (suc k) (suc v) h =
    let half : suc v / 2 < 2 ^ k = omega (arith, pow-suc 2 k) in
    rw (bit_width-half bits (suc v) (omega arith))
      (omega (arith, bit_width-le bits k (suc v / 2) half))

-- The lowest bit does not change the width of a number that is not 0.
bit_width-bit_or : (bits v : ℕ) → 0 < v → bit_width (suc bits) (bit_or v 1) ≡ bit_width (suc bits) v
bit_width-bit_or bits v h =
    let half : (v / 2 * 2 + 1) / 2 ≡ v / 2 = omega arith in
    rw (bit_or_one v, bit_width-half bits (v / 2 * 2 + 1) (omega arith), half)
      (sym (bit_width-half bits v h))

seven_bits :
    (bits v : ℕ)
    → 128 ≤ v
    → bit_width (suc (suc (suc (suc (suc (suc (suc bits))))))) v ≡ 7 + bit_width bits (v / 128)
seven_bits bits v h =
    let v1 = v / 2 in
    let v2 = v1 / 2 in
    let v3 = v2 / 2 in
    let v4 = v3 / 2 in
    let v5 = v4 / 2 in
    let v6 = v5 / 2 in
    let last : v6 / 2 ≡ v / 128 = omega arith in
    let s0 = bit_width-half (suc (suc (suc (suc (suc (suc bits)))))) v (omega arith) in
    let s1 = bit_width-half (suc (suc (suc (suc (suc bits))))) v1 (omega arith) in
    let s2 = bit_width-half (suc (suc (suc (suc bits)))) v2 (omega arith) in
    let s3 = bit_width-half (suc (suc (suc bits))) v3 (omega arith) in
    let s4 = bit_width-half (suc (suc bits)) v4 (omega arith) in
    let s5 = bit_width-half (suc bits) v5 (omega arith) in
    let s6 = bit_width-half bits v6 (omega arith) in
    omega (arith, s0, s1, s2, s3, s4, s5, s6, ap (bit_width bits) last)

one_byte :
    (bits n v : ℕ)
    → v < 128
    → (bit_width (suc bits) (bit_or v 1) + 6) / 7 ≡ length (varint_bytes (suc n) v)
one_byte bits n v h =
    let low = bit_or v 1 in
    let odd = bit_or_one v in
    let least = bit_width-half bits low (omega arith) in
    let most = bit_width-le (suc bits) 7 low (omega arith) in
    rw (varint_bytes-last n v h) (omega (arith, least, most))

one_more :
    (bits n v : ℕ)
    → 128 ≤ v
    → (bit_width (suc bits) (bit_or (v / 128) 1) + 6) / 7 ≡ length (varint_bytes (suc n) (v / 128))
    → (bit_width (suc (suc (suc (suc (suc (suc (suc (suc bits)))))))) (bit_or v 1) + 6) / 7
      ≡ length (varint_bytes (suc (suc n)) v)
one_more bits n v h rest =
    let low = bit_or v 1 in
    let odd = bit_or_one v in
    let above : 128 ≤ low = omega arith in
    let same : low / 128 ≡ v / 128 = omega arith in
    let wide = seven_bits (suc bits) low above in
    let whole = bit_width-bit_or bits (v / 128) (omega arith) in
    rw (varint_bytes-more (suc n) v h)
      (omega (arith, wide, ap (bit_width (suc bits)) same, whole, rest))

-- A loop of `n + 1` bytes against a register of `7 * n + 1` bits.
counted :
    (n v : ℕ)
    → v < 2 ^ (7 * n + 1)
    → (bit_width (7 * n + 1) (bit_or v 1) + 6) / 7 ≡ length (varint_bytes (suc n) v)
counted zero v h = one_byte 0 0 v (omega arith)
counted (suc n) v h =
    let longer : 7 * suc n + 1 ≡ suc (suc (suc (suc (suc (suc (suc (suc (7 * n)))))))) =
      omega arith in
    let shifted : 7 * suc n + 1 ≡ 7 * n + 1 + 7 = omega arith in
    let register : 7 * n + 1 ≡ suc (7 * n) = omega arith in
    let power = ap (λ (t : ℕ). 2 ^ t) shifted ∙ next_shift (7 * n + 1) in
    rw longer (elim (Bool-cases (ltb v 128)) [
      | inl small ↦
          one_byte (suc (suc (suc (suc (suc (suc (suc (7 * n)))))))) (suc n) v (ground arith)
      | inr large ↦
          one_more (7 * n) n v (ground arith) (rw register at (counted n (v / 128) (omega arith)))
    ])

-- The number of bytes that is computed for a 64-bit number is the number that its varint has.
pub varint_byte_count-exact :
    (v : ℕ) → v < 2 ^ 64 → varint_byte_count v ≡ length (varint_bytes 10 v)
unfolding varint_byte_count
varint_byte_count-exact v h = counted 9 v h
