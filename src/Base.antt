-- ===== src/Base.antt =====
-- include/contract/adapters/base.hpp: `trim_trailing_zeros`, by which the adapters leave the zeros at the
-- end of a buffer of fixed size away.
use mathlib.Core.List.{append-nil, append_assoc}
use contract.Prelude.{
  ℕ, zero, suc, ◌-◌, ◌≤◌, ◌<◌, ◌≡◌, refl, sym, ap, ap₂, ◌∙◌, Bool-cases, inl, inr, List, [], ◌∷◌,
  ◌++◌, arith, ◌==◌, if◌then◌else◌, length, take, replicate, take_all,
}

-- data[i], and 0 outside the buffer, where the code does not look
abbrev pub byte_at : List ℕ → ℕ → ℕ
byte_at [] i = 0
byte_at (b ∷ bytes) zero = b
byte_at (b ∷ bytes) (suc i) = byte_at bytes i

-- while (count > 0 && data[count - 1] == T{}) { --count; }
unfoldable pub trim_trailing_zeros : List ℕ → ℕ → ℕ
trim_trailing_zeros bytes zero = 0
trim_trailing_zeros bytes (suc count) =
    let rest = trim_trailing_zeros bytes count in
    if byte_at bytes count == 0 then rest else suc count

pub trim_trailing_zeros-le : (bytes : List ℕ) (n : ℕ) → trim_trailing_zeros bytes n ≤ n
unfolding trim_trailing_zeros
trim_trailing_zeros-le bytes zero = omega arith
trim_trailing_zeros-le bytes (suc n) = ground (arith, trim_trailing_zeros-le bytes n)

replicate-last : (n : ℕ) → replicate {A = ℕ} (suc n) 0 ≡ replicate n 0 ++ (0 ∷ [])
replicate-last zero = refl
replicate-last (suc n) = ap (λ t. 0 ∷ t) (replicate-last n)

take-last :
    (n : ℕ) (bytes : List ℕ)
    → n < length bytes
    → take (suc n) bytes ≡ take n bytes ++ (byte_at bytes n ∷ [])
take-last n [] h = absurd (omega arith)
take-last zero (b ∷ bytes) h = refl
take-last (suc n) (b ∷ bytes) h = ap (λ t. b ∷ t) (take-last n bytes (omega arith))

trimmed_at :
    (n : ℕ) (bytes : List ℕ)
    → n ≤ length bytes
    → take (trim_trailing_zeros bytes n) bytes ++ replicate (n - trim_trailing_zeros bytes n) 0
      ≡ take n bytes
unfolding trim_trailing_zeros
trimmed_at zero bytes h = refl
trimmed_at (suc n) bytes h = elim (Bool-cases (byte_at bytes n == 0)) [
  | inl is_zero ↦
      let k = trim_trailing_zeros bytes n in
      let below = trim_trailing_zeros-le bytes n in
      let last : byte_at bytes n ≡ 0 = ground arith in
      let more : suc n - k ≡ suc (n - k) = omega arith in
      rw (is_zero, more, replicate-last (n - k))
        (sym (append_assoc (take k bytes) (replicate (n - k) 0) (0 ∷ []))
          ∙ ap₂ (λ t b. t ++ (b ∷ [])) (trimmed_at n bytes (omega arith)) (sym last)
          ∙ sym (take-last n bytes (omega arith)))
  | inr other ↦
      let none_left : suc n - suc n ≡ 0 = omega arith in
      rw (other, none_left) (append-nil (take (suc n) bytes))
]

-- The bytes that are kept, with as many zeros behind them as were left away, are the whole buffer,
-- whatever it holds: leaving the zeros at its end away loses nothing.
pub trim_trailing_zeros-lossless :
    (bytes : List ℕ)
    → let kept = trim_trailing_zeros bytes (length bytes) in
      (kept ≤ length bytes) × (take kept bytes ++ replicate (length bytes - kept) 0 ≡ bytes)
trim_trailing_zeros-lossless bytes = (
  trim_trailing_zeros-le bytes (length bytes),
  trimmed_at (length bytes) bytes (omega arith) ∙ take_all (length bytes) bytes refl,
)
