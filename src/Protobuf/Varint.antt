-- ===== src/Protobuf/Varint.antt =====
-- The loops of protobuf.hpp that turn a number into a varint and back, and what they come to.
use Prim.Native.Nat.{bit_and, bit_or}
use native.Mathlib.Nat.{pow-suc, mul-le-mul_right, div-add-mod, mod-eq_of_lt}
use contract.Prelude.{
  ℕ, zero, suc, ◌+◌, ◌*◌, ◌/◌, ◌%◌, ◌^◌, ◌≤◌, ◌<◌, ◌≡◌, refl, ap, ap₂, ◌∙◌, false, true, Option,
  none, some, List, [], ◌∷◌, ◌++◌, arith, ltb, le→ltb, lt→ltb, ◌==◌, if◌then◌else◌, length, word,
  bit_and_mask, bit_or_above, bit_and_top, Bool-cases, inl, inr,
}

-- while (v >= 0x80) { … } and the byte after it: at most `fuel` bytes, of which 10 are enough.
unfoldable pub varint_bytes : ℕ → ℕ → List ℕ
varint_bytes zero v = []
varint_bytes (suc fuel) v =
    let rest = varint_bytes fuel (v / 128) in
    if ltb v 128 then v ∷ [] else (bit_or (bit_and v 0x7f) 0x80 ∷ rest)

-- for (i = i; i < window.size(); ++i) {…}: the value and the number of bytes that are consumed, or
-- none when no byte ends the varint. `value` is a std::uint64_t.
unfoldable pub scan_varint : List ℕ → ℕ → ℕ → ℕ → Option (ℕ × ℕ)
scan_varint [] shift value i = none
scan_varint (b ∷ bytes) shift value i =
    let value' = bit_or value (bit_and b 0x7f * 2 ^ shift % word) in
    let later = scan_varint bytes (shift + 7) value' (i + 1) in
    if bit_and b 0x80 == 0 then some (value', i + 1) else later

low_bits : (v : ℕ) → bit_and v 0x7f ≡ v % 128
low_bits v = bit_and_mask 7 v

marked : (v : ℕ) → bit_or (bit_and v 0x7f) 0x80 ≡ v % 128 + 128
marked v = rw low_bits (bit_or_above 7 (v % 128) 1 (omega arith))

-- A byte that goes on, and one that ends.
more_bit : (v : ℕ) → (bit_and (v % 128 + 128) 0x80 == 0) ≡ false
more_bit v = ground (arith, bit_and_top (v % 128 + 128) (omega arith))

last_bit : (v : ℕ) → v < 128 → (bit_and v 0x80 == 0) ≡ true
last_bit v h = ground (arith, bit_and_top v (omega arith))

-- Seven bits more, below those that are still to come.
split_shift : (v p : ℕ) → v % 128 * p + v / 128 * (p * 128) ≡ v * p
split_shift v p = omega (arith, ap (λ (t : ℕ). t * p) (div-add-mod v 128))

joined_bits :
    (value shift v : ℕ)
    → value < 2 ^ shift
    → v * 2 ^ shift < word
    → bit_or value (v * 2 ^ shift % word) ≡ value + v * 2 ^ shift
joined_bits value shift v low fit =
    ap (bit_or value) (mod-eq_of_lt fit) ∙ bit_or_above shift value v low

pub varint_bytes-more :
    (fuel v : ℕ)
    → 128 ≤ v
    → varint_bytes (suc fuel) v ≡ (v % 128 + 128) ∷ varint_bytes fuel (v / 128)
unfolding varint_bytes
varint_bytes-more fuel v h =
    rw (le→ltb v 128 h) (ap (λ b. b ∷ varint_bytes fuel (v / 128)) (marked v))

pub varint_bytes-last : (fuel v : ℕ) → v < 128 → varint_bytes (suc fuel) v ≡ v ∷ []
unfolding varint_bytes
varint_bytes-last fuel v h = rw (lt→ltb v 128 h) refl

scan_varint-more :
    (v shift value i : ℕ) (bytes : List ℕ)
    → value < 2 ^ shift
    → v % 128 * 2 ^ shift < word
    → scan_varint ((v % 128 + 128) ∷ bytes) shift value i
      ≡ scan_varint bytes (shift + 7) (value + v % 128 * 2 ^ shift) (i + 1)
unfolding scan_varint
scan_varint-more v shift value i bytes low fit =
    let seven : bit_and (v % 128 + 128) 0x7f ≡ v % 128 = omega (arith, low_bits (v % 128 + 128)) in
    rw (more_bit v, seven, joined_bits value shift (v % 128) low fit) refl

scan_varint-last :
    (v shift value i : ℕ) (bytes : List ℕ)
    → v < 128
    → value < 2 ^ shift
    → v * 2 ^ shift < word
    → scan_varint (v ∷ bytes) shift value i ≡ some (value + v * 2 ^ shift, i + 1)
unfolding scan_varint
scan_varint-last v shift value i bytes small low fit =
    let whole : bit_and v 0x7f ≡ v = low_bits v ∙ mod-eq_of_lt small in
    rw (last_bit v small, whole, joined_bits value shift v low fit) refl

-- Seven bits more make a number below the next power.
pub next_shift : (shift : ℕ) → 2 ^ (shift + 7) ≡ 2 ^ shift * 128
next_shift shift =
    let e : shift + 7 ≡ suc (suc (suc (suc (suc (suc (suc shift)))))) = omega arith in
    rw e (
      omega (
        arith,
        pow-suc 2 shift,
        pow-suc 2 (suc shift),
        pow-suc 2 (suc (suc shift)),
        pow-suc 2 (suc (suc (suc shift))),
        pow-suc 2 (suc (suc (suc (suc shift)))),
        pow-suc 2 (suc (suc (suc (suc (suc shift))))),
        pow-suc 2 (suc (suc (suc (suc (suc (suc shift)))))),
      ))

-- Scanning what was written from a shift on adds the number at that shift.
pub scan_varint-varint_bytes :
    (fuel v shift value i : ℕ) (more : List ℕ)
    → v < 128 ^ suc fuel
    → value < 2 ^ shift
    → v * 2 ^ shift < word
    → scan_varint (varint_bytes (suc fuel) v ++ more) shift value i
      ≡ some (value + v * 2 ^ shift, i + length (varint_bytes (suc fuel) v))
scan_varint-varint_bytes zero v shift value i more h low fit =
    rw (varint_bytes-last 0 v (omega arith))
      (scan_varint-last v shift value i more (omega arith) low fit)
scan_varint-varint_bytes (suc fuel) v shift value i more h low fit = elim (Bool-cases (ltb v 128)) [
  | inl small ↦
      let below : v < 128 = ground arith in
      rw (varint_bytes-last (suc fuel) v below)
        (scan_varint-last v shift value i more below low fit)
  | inr large ↦
      let above : 128 ≤ v = ground arith in
      let split = split_shift v (2 ^ shift) in
      let p = next_shift shift in
      let r_fit : v % 128 * 2 ^ shift ≤ 127 * 2 ^ shift =
        mul-le-mul_right (2 ^ shift) (omega arith) in
      let q_small : v / 128 < 128 ^ suc fuel = omega (arith, pow-suc 128 (suc fuel)) in
      let rest = varint_bytes (suc fuel) (v / 128) in
      let q_fit : v / 128 * 2 ^ (shift + 7) < word = rw p (omega arith) in
      let v_low : value + v % 128 * 2 ^ shift < 2 ^ (shift + 7) = omega arith in
      rw (varint_bytes-more (suc fuel) v above) (
        scan_varint-more v shift value i (rest ++ more) low (omega arith)
        ∙ scan_varint-varint_bytes fuel (v / 128) (shift + 7) (value + v % 128 * 2 ^ shift) (i + 1)
            more q_small v_low q_fit
        ∙ ap₂ (λ n k. some (n, k)) (omega (arith, ap (λ (t : ℕ). v / 128 * t) p)) (omega arith))
]

varint_bytes-none : (v : ℕ) → varint_bytes zero v ≡ []
unfolding varint_bytes
varint_bytes-none v = refl

-- A number of 64 bits takes at most 10 bytes, and at least 1.
pub length-varint_bytes :
    (fuel v : ℕ) → (1 ≤ length (varint_bytes (suc fuel) v)) × (length (varint_bytes fuel v) ≤ fuel)
length-varint_bytes fuel v = (at_least fuel v, at_most fuel v)
  where
    at_least : (fuel v : ℕ) → 1 ≤ length (varint_bytes (suc fuel) v)
    at_least fuel v = elim (Bool-cases (ltb v 128)) [
      | inl small ↦ rw (varint_bytes-last fuel v (ground arith)) (omega arith)
      | inr large ↦ rw (varint_bytes-more fuel v (ground arith)) (omega arith)
    ]

    at_most : (fuel v : ℕ) → length (varint_bytes fuel v) ≤ fuel
    at_most zero v = rw varint_bytes-none (omega arith)
    at_most (suc fuel) v = elim (Bool-cases (ltb v 128)) [
      | inl small ↦ rw (varint_bytes-last fuel v (ground arith)) (omega arith)
      | inr large ↦
          rw (varint_bytes-more fuel v (ground arith)) (omega (arith, at_most fuel (v / 128)))
    ]
