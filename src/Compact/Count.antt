-- ===== src/Compact/Count.antt =====
-- `compact_byte_count` of compact.hpp: the least number of bytes that a number takes.
use native.Mathlib.Nat.{pow-suc}
use contract.Prelude.{
  ℕ, zero, suc, ◌-◌, ◌/◌, ◌^◌, ◌≤◌, ◌<◌, ◌≡◌, refl, ap, ◌∙◌, arith, ◌==◌, Bool-cases, inl, inr,
}
use contract.Compact.Headers.{count_bytes, compact_byte_count}

count_bytes-last : (fuel v : ℕ) → v < 256 → count_bytes fuel v ≡ 1
unfolding count_bytes
count_bytes-last zero v h = refl
count_bytes-last (suc fuel) v h = let e : v / 256 ≡ 0 = omega arith in rw e refl

count_bytes-more :
    (fuel v : ℕ) → 256 ≤ v → count_bytes (suc fuel) v ≡ suc (count_bytes fuel (v / 256))
unfolding count_bytes
count_bytes-more fuel v h = ground arith

-- Neither more bytes than a number of k + 1 bytes has, nor fewer than it needs.
count_bytes-Fits :
    (fuel k v : ℕ)
    → k ≤ fuel
    → v < 256 ^ suc k
    → (1 ≤ count_bytes fuel v) × (count_bytes fuel v ≤ suc k) × (v < 256 ^ count_bytes fuel v)
count_bytes-Fits fuel zero v le h = rw (count_bytes-last fuel v (omega arith)) (omega arith)
count_bytes-Fits zero (suc k) v le h = absurd (omega arith)
count_bytes-Fits (suc fuel) (suc k) v le h = elim (Bool-cases (v / 256 == 0)) [
  | inl small ↦ rw (count_bytes-last (suc fuel) v (ground arith)) (ground arith)
  | inr large ↦
      let q = v / 256 in
      let below : q < 256 ^ suc k = omega (arith, pow-suc 256 (suc k)) in
      let (positive, bounded, fits) = count_bytes-Fits fuel k q (omega arith) below in
      let n = count_bytes fuel q in
      let larger : v < 256 ^ suc n = omega (arith, pow-suc 256 n) in
      rw (count_bytes-more fuel v (ground arith)) (omega arith, omega arith, larger)
]

count_bytes-zero : (v : ℕ) → count_bytes zero v ≡ 1
unfolding count_bytes
count_bytes-zero v = refl

-- One byte less would not do; the count is a successor, given with the bound.
count_bytes-Needed : (fuel v : ℕ) → 0 < v → (n : ℕ) × (count_bytes fuel v ≡ suc n) × (256 ^ n ≤ v)
count_bytes-Needed zero v pos = (0, count_bytes-zero v, omega arith)
count_bytes-Needed (suc fuel) v pos = elim (Bool-cases (v / 256 == 0)) [
  | inl small ↦ (0, count_bytes-last (suc fuel) v (ground arith), omega arith)
  | inr large ↦
      let (n, counted, least) = count_bytes-Needed fuel (v / 256) (ground arith) in
      (
        suc n,
        count_bytes-more fuel v (ground arith) ∙ ap (λ (t : ℕ). suc t) counted,
        omega (arith, pow-suc 256 n),
      )
]

-- A number of 64 bits gets between 1 and 8 bytes, which are enough for it.
pub compact_byte_count-Fits :
    (v : ℕ)
    → v < 2 ^ 64
    → (1 ≤ compact_byte_count v) × (compact_byte_count v ≤ 8) × (v < 256 ^ compact_byte_count v)
unfolding compact_byte_count
compact_byte_count-Fits v h = count_bytes-Fits 8 7 v (omega arith) h

-- The number of bytes that a positive number of 64 bits gets behind its header is the least that
-- holds it: between 1 and 8, enough for the number, and with one byte less the number would not fit.
pub compact_byte_count-least :
    (v : ℕ)
    → 0 < v
    → v < 2 ^ 64
    → (1 ≤ compact_byte_count v)
      × (compact_byte_count v ≤ 8)
      × (v < 256 ^ compact_byte_count v)
      × (256 ^ (compact_byte_count v - 1) ≤ v)
compact_byte_count-least v pos h =
    let (positive, bounded, fits) = compact_byte_count-Fits v h in
    let (n, counted, least) = needed v pos in
    let one_less : compact_byte_count v - 1 ≡ n = omega (arith, counted) in
    (positive, bounded, fits, rw one_less least)
  where
    needed : (v : ℕ) → 0 < v → (n : ℕ) × (compact_byte_count v ≡ suc n) × (256 ^ n ≤ v)
    needed v pos = unfold compact_byte_count in count_bytes-Needed 8 v pos
