-- ===== src/Binary/Cipher.antt =====
-- The repeating key of `encrypting_output` and `decrypting_input`.
use Prim.Native.Nat.{bit_xor}
use contract.Prelude.{
  ℕ, suc, ◌+◌, ◌%◌, ◌≡◌, refl, ◌∙◌, ap, ap₂, List, [], ◌∷◌, ◌++◌, arith, ◌==◌, if◌then◌else◌, word,
  IsByte, All, length, bit_xor_twice,
}

-- std::array<std::uint8_t, 4>
pub record Key : Type 0 where
  pub k0 : ℕ
  pub k1 : ℕ
  pub k2 : ℕ
  pub k3 : ℕ
  pub bytes : IsByte k0 × IsByte k1 × IsByte k2 × IsByte k3

abbrev pub IsKey : Key → Type 0
IsKey k = IsByte k.k0 × IsByte k.k1 × IsByte k.k2 × IsByte k.k3

-- key_[i % key_.size()]
unfoldable pub key_at : Key → ℕ → ℕ
key_at k i =
    if i % 4 == 0 then k.k0 else if i % 4 == 1 then k.k1 else if i % 4 == 2 then k.k2 else k.k3

-- for (i = i; i < size; ++i) scratch_[i] = bytes[i] ^ key_[(offset_ + i) % key_.size()];
unfoldable pub scramble : Key → ℕ → ℕ → List ℕ → List ℕ
unfolding key_at
scramble k offset i [] = []
scramble k offset i (b ∷ bytes) =
    bit_xor b (key_at k ((offset + i) % word)) ∷ scramble k offset (i + 1) bytes

pub length-scramble : (k : Key) (o i : ℕ) (bs : List ℕ) → length (scramble k o i bs) ≡ length bs
unfolding scramble
length-scramble k o i [] = refl
length-scramble k o i (b ∷ bs) = ap suc (length-scramble k o (i + 1) bs)

key_at-IsByte : (k : Key) (i : ℕ) → IsKey k → IsByte (key_at k i)
unfolding key_at
key_at-IsByte k i h = ground arith

-- Scrambling bytes twice with the same key of four bytes, from the same offset, gives them back.
pub scramble-scramble :
    (k : Key) (o i : ℕ) (bs : List ℕ)
    → IsKey k
    → All IsByte bs
    → scramble k o i (scramble k o i bs) ≡ bs
unfolding scramble
scramble-scramble k o i [] h hb = refl
scramble-scramble k o i (b ∷ bs) h (hb, hbs) =
    ap₂ ◌∷◌ (bit_xor_twice b (key_at k ((o + i) % word)) hb (key_at-IsByte k ((o + i) % word) h)).0
      (scramble-scramble k o (i + 1) bs h hbs)

pub scramble-IsByte :
    (k : Key) (o i : ℕ) (bs : List ℕ) → IsKey k → All IsByte bs → All IsByte (scramble k o i bs)
unfolding scramble
scramble-IsByte k o i [] h hb = tt
scramble-IsByte k o i (b ∷ bs) h (hb, hbs) = (
  (bit_xor_twice b (key_at k ((o + i) % word)) hb (key_at-IsByte k ((o + i) % word) h)).1,
  scramble-IsByte k o (i + 1) bs h hbs,
)

-- The key goes round every 4 bytes, and 4 divides 2 ^ 64: only offset + i modulo 4 matters.
key_at-cong : (k : Key) (i j : ℕ) → i % 4 ≡ j % 4 → key_at k (i % word) ≡ key_at k (j % word)
unfolding key_at
key_at-cong k i j e =
    let l : i % word % 4 ≡ i % 4 = omega arith in
    let r : j % word % 4 ≡ j % 4 = omega arith in rw (l, r, e) refl

pub scramble-cong :
    (k : Key) (o i p j : ℕ) (bs : List ℕ)
    → (o + i) % 4 ≡ (p + j) % 4
    → scramble k o i bs ≡ scramble k p j bs
unfolding scramble
scramble-cong k o i p j [] e = refl
scramble-cong k o i p j (b ∷ bs) e =
    ap₂ ◌∷◌ (ap (bit_xor b) (key_at-cong k (o + i) (p + j) e))
      (scramble-cong k o (i + 1) p (j + 1) bs (omega arith))

-- What is scrambled in two writes, the offset moved on in between, is scrambled as one.
pub scramble-append :
    (k : Key) (o i : ℕ) (xs bs : List ℕ)
    → scramble k o i (xs ++ bs) ≡ scramble k o i xs ++ scramble k (o + i + length xs) 0 bs
unfolding scramble
scramble-append k o i [] bs = scramble-cong k o i (o + i + 0) 0 bs (omega arith)
scramble-append k o i (x ∷ xs) bs =
    ap (λ t. bit_xor x (key_at k ((o + i) % word)) ∷ t)
      (scramble-append k o (i + 1) xs bs
        ∙ ap (λ t. scramble k o (i + 1) xs ++ t)
            (scramble-cong k (o + (i + 1) + length xs) 0 (o + i + suc (length xs)) 0 bs
              (omega arith)))
