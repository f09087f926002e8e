-- ===== src/Prelude/Words.antt =====
-- Machine words as native numbers: the modulus of `std::size_t` and `std::uint64_t`, and the
-- little-endian object representation that `memcpy` copies.
use Prim.Native.Nat.{ℕ, zero, suc, ◌+◌, ◌*◌, ◌/◌, ◌%◌, ◌^◌, ◌<◌}
use mathlib.Core.Path.{◌≡◌, refl}
use mathlib.Core.List.{List, [], ◌∷◌}
use native.Mathlib.Omega.{arith}
use native.Mathlib.Nat.{pow-suc}
use contract.Prelude.Lists.{length, All}

abbrev pub word : ℕ
word = 2 ^ 64

abbrev pub IsByte : ℕ → Type 0
IsByte b = b < 256

-- The `n` bytes that a value of `sizeof == n` has in memory on a little-endian host.
unfoldable pub to_bytes : ℕ → ℕ → List ℕ
to_bytes zero v = []
to_bytes (suc n) v = (v % 256) ∷ to_bytes n (v / 256)

-- The value that such bytes stand for.
unfoldable pub of_bytes : List ℕ → ℕ
of_bytes [] = 0
of_bytes (b ∷ bs) = b + 256 * of_bytes bs

pub length-to_bytes : (n v : ℕ) → length (to_bytes n v) ≡ n
unfolding to_bytes
length-to_bytes zero v = refl
length-to_bytes (suc n) v = omega (arith, length-to_bytes n (v / 256))

pub to_bytes-IsByte : (n v : ℕ) → All IsByte (to_bytes n v)
unfolding to_bytes
to_bytes-IsByte zero v = tt
to_bytes-IsByte (suc n) v = (omega arith, to_bytes-IsByte n (v / 256))

pub of_bytes-to_bytes : (n v : ℕ) → v < 256 ^ n → of_bytes (to_bytes n v) ≡ v
unfolding to_bytes of_bytes
of_bytes-to_bytes zero v h = omega arith
of_bytes-to_bytes (suc n) v h =
    omega (arith, pow-suc 256 n, of_bytes-to_bytes n (v / 256) (omega (arith, pow-suc 256 n)))

pub of_bytes-lt : (bs : List ℕ) → All IsByte bs → of_bytes bs < 256 ^ length bs
unfolding of_bytes
of_bytes-lt [] h = omega arith
of_bytes-lt (b ∷ bs) h = omega (arith, pow-suc 256 (length bs), of_bytes-lt bs h.1)
