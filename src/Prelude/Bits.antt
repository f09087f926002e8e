-- ===== src/Prelude/Bits.antt =====
-- `&`, `|` and `^` on unsigned numbers as arithmetic: a low mask is a remainder, an or of disjoint
-- fields is a sum, and an exclusive or with the same byte twice gives the byte back.
use Prim.Native.Nat.{
  ℕ, zero, suc, ◌+◌, ◌-◌, ◌*◌, ◌/◌, ◌%◌, ◌^◌, ◌≤◌, ◌<◌, min, max, digits, bit_and, bit_or, bit_xor,
  bit_and-bitwise, bit_or-bitwise,
}
use mathlib.Core.Path.{◌≡◌, refl, ap, ◌∙◌}
use mathlib.Core.Bool.{Bool, true, ◌&&◌}
use native.Mathlib.Omega.{arith}
use native.Mathlib.Nat.{
  pow-suc, one-le-pow, mod-lt, mod-eq_of_lt, div-add-mod, mul-add-mod_self_right,
}
use contract.Prelude.Tests.{ltb, ◌==◌}

-- A law over a small range, checked at every value.
every_below : ℕ → (ℕ → Bool) → Bool
every_below zero p = true
every_below (suc n) p = p n && every_below n p

every_below-at : (n : ℕ) (p : ℕ → Bool) (x : ℕ) → every_below n p ≡ true → x < n → p x ≡ true
unfolding every_below
every_below-at zero p x h lt = absurd (omega arith)
every_below-at (suc n) p x h lt = ground (arith, every_below-at n p x)

-- Any two counts of digits that cover the first number give the same result.
module _ (z : ℕ → ℕ) (f : ℕ → ℕ → ℕ) where
  digits_agree : (a b k l : ℕ) → k ≤ l → a ≤ k → digits z f k a b ≡ digits z f l a b
  digits_agree zero b zero zero kl ak = refl
  digits_agree zero b zero (suc l) kl ak = refl
  digits_agree zero b (suc k) zero kl ak = refl
  digits_agree zero b (suc k) (suc l) kl ak = refl
  digits_agree (suc a) b zero l kl ak = absurd (omega arith)
  digits_agree (suc a) b (suc k) zero kl ak = absurd (omega arith)
  digits_agree (suc a) b (suc k) (suc l) kl ak =
      ap (λ (t : ℕ). t * 2 + f (suc a % 2) (b % 2))
        (digits_agree (suc a / 2) (b / 2) k l (omega arith) (omega arith))

and_step : (a b : ℕ) → bit_and a b ≡ bit_and (a / 2) (b / 2) * 2 + min (a % 2) (b % 2)
and_step zero b = omega (arith, bit_and-bitwise 0 b, bit_and-bitwise (0 / 2) (b / 2))
and_step (suc a) b = omega (
  arith,
  bit_and-bitwise (suc a) b,
  bit_and-bitwise (suc a / 2) (b / 2),
  digits_agree (λ b. zero) min (suc a / 2) (b / 2) (suc a / 2) a (omega arith) (omega arith),
)

or_step : (a b : ℕ) → bit_or a b ≡ bit_or (a / 2) (b / 2) * 2 + max (a % 2) (b % 2)
or_step zero b = omega (arith, bit_or-bitwise 0 b, bit_or-bitwise (0 / 2) (b / 2))
or_step (suc a) b = omega (
  arith,
  bit_or-bitwise (suc a) b,
  bit_or-bitwise (suc a / 2) (b / 2),
  digits_agree (λ b. b) max (suc a / 2) (b / 2) (suc a / 2) a (omega arith) (omega arith),
)

-- Against 0, by recursion on a bound of the number.
and-zero_below : (n a : ℕ) → a ≤ n → bit_and a 0 ≡ 0
and-zero_below zero a h =
    omega (arith, and_step a 0, bit_and-bitwise 0 0, ap (λ (t : ℕ). bit_and t 0) (zero_of a h))
  where
    zero_of : (a : ℕ) → a ≤ 0 → a ≡ 0
    zero_of a h = omega arith
and-zero_below (suc n) zero h = bit_and-bitwise 0 0
and-zero_below (suc n) (suc a) h =
    omega (arith, and_step (suc a) 0, and-zero_below n (suc a / 2) (omega arith))

or-zero_below : (n a : ℕ) → a ≤ n → bit_or a 0 ≡ a
or-zero_below zero zero h = bit_or-bitwise 0 0
or-zero_below zero (suc a) h = absurd (omega arith)
or-zero_below (suc n) zero h = bit_or-bitwise 0 0
or-zero_below (suc n) (suc a) h =
    omega (arith, or_step (suc a) 0, or-zero_below n (suc a / 2) (omega arith))

mod_double : (m a : ℕ) → 0 < m → a % (m * 2) ≡ a / 2 % m * 2 + a % 2
mod_double m a pos =
    let r : ℕ = a / 2 % m * 2 + a % 2 in
    let small : r < m * 2 = omega (arith, mod-lt (a / 2) pos) in
    let parts : a ≡ a / 2 / m * (m * 2) + r =
      omega (arith, ap (λ (t : ℕ). t * 2) (div-add-mod (a / 2) m)) in
    ap (λ t. t % (m * 2)) parts ∙ mul-add-mod_self_right (a / 2 / m) (m * 2) r ∙ mod-eq_of_lt small

-- `a & (2 ^ k - 1)`
pub bit_and_mask : (k a : ℕ) → bit_and a (2 ^ k - 1) ≡ a % 2 ^ k
bit_and_mask zero a = omega (arith, and-zero_below a a (omega arith))
bit_and_mask (suc k) a = ground (
  arith,
  and_step a (2 ^ suc k - 1),
  pow-suc 2 k,
  one-le-pow k 2,
  mod_double (2 ^ k) a,
  bit_and_mask k (a / 2),
)

-- `a | (b << k)`, where `a` has fewer than `k` bits
pub bit_or_above : (k a b : ℕ) → a < 2 ^ k → bit_or a (b * 2 ^ k) ≡ a + b * 2 ^ k
bit_or_above zero zero b h = omega (arith, bit_or-bitwise 0 (b * 2 ^ 0))
bit_or_above zero (suc a) b h = absurd (omega arith)
bit_or_above (suc k) a b h = ground (
  arith,
  or_step a (b * 2 ^ suc k),
  ap (λ (t : ℕ). b * t) (pow-suc 2 k),
  pow-suc 2 k,
  bit_or_above k (a / 2) b (omega (arith, pow-suc 2 k)),
)

-- `(b << k) | a`, where `a` has fewer than `k` bits
pub bit_or_below : (k a b : ℕ) → a < 2 ^ k → bit_or (b * 2 ^ k) a ≡ b * 2 ^ k + a
bit_or_below zero zero b h = omega (arith, or-zero_below (b * 2 ^ 0) (b * 2 ^ 0) (omega arith))
bit_or_below zero (suc a) b h = absurd (omega arith)
bit_or_below (suc k) a b h = ground (
  arith,
  or_step (b * 2 ^ suc k) a,
  ap (λ (t : ℕ). b * t) (pow-suc 2 k),
  pow-suc 2 k,
  bit_or_below k (a / 2) b (omega (arith, pow-suc 2 k)),
)

-- `a | 1`
pub bit_or_one : (a : ℕ) → bit_or a 1 ≡ a / 2 * 2 + 1
bit_or_one a = omega (arith, or_step a 1, or-zero_below (a / 2) (a / 2) (omega arith))

-- One byte: a table each.
top_bit_table : every_below 256 (λ x. bit_and x 0x80 == x / 128 * 128) ≡ true
unfolding every_below
top_bit_table = refl

pub bit_and_top : (x : ℕ) → x < 256 → bit_and x 0x80 ≡ x / 128 * 128
bit_and_top x h =
    ground (arith, every_below-at 256 (λ x. bit_and x 0x80 == x / 128 * 128) x top_bit_table h)

header_bits_table :
    every_below 256 (λ x. (bit_and x 0xf8 == x / 8 * 8) && (bit_and x 0x08 == x / 8 % 2 * 8)) ≡ true
unfolding every_below
header_bits_table = refl

-- All but the lowest three bits, and the fourth.
pub bit_and_octet :
    (x : ℕ) → x < 256 → (bit_and x 0xf8 ≡ x / 8 * 8) × (bit_and x 0x08 ≡ x / 8 % 2 * 8)
bit_and_octet x h = ground (
  arith,
  every_below-at 256 (λ x. (bit_and x 0xf8 == x / 8 * 8) && (bit_and x 0x08 == x / 8 % 2 * 8)) x
      header_bits_table h,
)

abbrev xor_twice : ℕ → ℕ → Bool
xor_twice x k = (bit_xor (bit_xor x k) k == x) && ltb (bit_xor x k) 256

xor_table : every_below 256 (λ k. every_below 256 (λ x. xor_twice x k)) ≡ true
unfolding every_below
xor_table = refl

pub bit_xor_twice :
    (x k : ℕ) → x < 256 → k < 256 → (bit_xor (bit_xor x k) k ≡ x) × (bit_xor x k < 256)
bit_xor_twice x k hx hk = ground (
  arith,
  every_below-at 256 (λ x. xor_twice x k) x
      (every_below-at 256 (λ k. every_below 256 (λ x. xor_twice x k)) k xor_table hk) hx,
)
