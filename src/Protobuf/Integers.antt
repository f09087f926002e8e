-- ===== src/Protobuf/Integers.antt =====
-- The integers of protobuf.hpp that survive the casts to the wire and back.
use contract.Prelude.{
  ℤ, ℕ, ◌-◌, ◌%◌, ◌^◌, ◌≤◌, ◌<◌, ◌≡◌, refl, Bool, true, false, arith, lt→ltb, le→ltb,
}
use contract.Protobuf.Scalar.{
  Scalar, bool_scalar, Width, bits, sign_bit, unsigned_scalar, extend, cast_signed, signed_scalar,
}

-- The value fits 64 bits on the wire, and the cast back gives it again.
abbrev pub Survives : {A : Type 0} → Scalar A → A → Type 0
Survives c value = (c.to_raw value < 2 ^ 64) × (c.of_raw (c.to_raw value) ≡ value)

pub bool-Survives : (b : Bool) → Survives bool_scalar b
unfolding bool_scalar
bool-Survives true = (omega arith, refl)
bool-Survives false = (omega arith, refl)

pub unsigned-Survives : (w : Width) (n : ℕ) → n < 2 ^ bits w → Survives (unsigned_scalar w) n
unfolding unsigned_scalar
unsigned-Survives Width.short n h = (omega arith, omega arith)
unsigned-Survives Width.int n h = (omega arith, omega arith)
unsigned-Survives Width.long n h = (omega arith, omega arith)

-- The values of a signed type of a width.
abbrev pub InRange : Width → ℤ → Type 0
InRange w (ℤ.pos n) = n < 2 ^ sign_bit w
InRange w (ℤ.negsuc n) = n < 2 ^ sign_bit w

cast_positive :
    (w : Width) (raw n : ℕ)
    → raw % 2 ^ bits w ≡ n
    → n < 2 ^ sign_bit w
    → cast_signed w raw ≡ ℤ.pos n
unfolding cast_signed
cast_positive w raw n e h = rw (e, lt→ltb n (2 ^ sign_bit w) h) refl

cast_negative :
    (w : Width) (raw low n : ℕ)
    → raw % 2 ^ bits w ≡ low
    → 2 ^ sign_bit w ≤ low
    → 2 ^ bits w - 1 - low ≡ n
    → cast_signed w raw ≡ ℤ.negsuc n
unfolding cast_signed
cast_negative w raw low n e h d = rw (e, le→ltb low (2 ^ sign_bit w) h, d) refl

-- Every value of a signed type survives the casts: one that is negative is stored with its sign
-- extended to 64 bits, and the low bits of that give it back.
pub signed-Survives : (w : Width) (z : ℤ) → InRange w z → Survives (signed_scalar w) z
unfolding signed_scalar extend
signed-Survives Width.short (ℤ.pos n) h =
    (omega arith, cast_positive Width.short n n (omega arith) h)
signed-Survives Width.int (ℤ.pos n) h = (omega arith, cast_positive Width.int n n (omega arith) h)
signed-Survives Width.long (ℤ.pos n) h = (omega arith, cast_positive Width.long n n (omega arith) h)
signed-Survives Width.short (ℤ.negsuc n) h = (
  omega arith,
  cast_negative Width.short (2 ^ 64 - 1 - n) (2 ^ 16 - 1 - n) n (omega arith) (omega arith)
      (omega arith),
)
signed-Survives Width.int (ℤ.negsuc n) h = (
  omega arith,
  cast_negative Width.int (2 ^ 64 - 1 - n) (2 ^ 32 - 1 - n) n (omega arith) (omega arith)
      (omega arith),
)
signed-Survives Width.long (ℤ.negsuc n) h = (
  omega arith,
  cast_negative Width.long (2 ^ 64 - 1 - n) (2 ^ 64 - 1 - n) n (omega arith) (omega arith)
      (omega arith),
)
