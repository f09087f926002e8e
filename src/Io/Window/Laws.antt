-- ===== src/Io/Window/Laws.antt =====
-- Windows are honest: what is lent lies in the range, and chunks put together give the bytes.
use contract.Prelude.{
  ◌==◌, Bool-cases, inl, inr, sym, take-length_le, take-append-drop_taken, ℕ, zero, suc, ◌+◌, ◌≡◌,
  refl, ap, ◌∙◌, List, [], ◌∷◌, ◌++◌, arith, length, take, drop, length-append,
}
use mathlib.Core.List.{append_assoc}
use native.Mathlib.Nat.{add-zero}
use contract.Io.Window.{WindowInput, peek, consume, input_position}

pub peek-eq-take : (i : WindowInput) (n : ℕ) → peek i n ≡ take n i.rest
unfolding peek
peek-eq-take i n = elim (Bool-cases (n == 0)) [
  | inl z ↦ let e : n ≡ 0 = ground arith in rw e refl
  | inr nz ↦ elim (Bool-cases (length i.rest == 0)) [
    | inl empty ↦ ground (arith, take-length_le n i.rest)
    | inr some_left ↦ ground (arith, take-length_le n i.rest, take-length_le (length i.rest) i.rest)
  ]
]

pub consume-eq-drop :
    (i : WindowInput) (n : ℕ)
    → consume i n ≡ record { consumed = i.consumed + n; rest = drop n i.rest }
unfolding consume
consume-eq-drop i zero = λ k. record { consumed = sym (add-zero i.consumed) k; rest = i.rest }
consume-eq-drop i (suc n) = ground arith

pub consume_window :
    (i : WindowInput) (n : ℕ)
    → (peek i n ++ (consume i (length (peek i n))).rest ≡ i.rest)
      × (input_position (consume i (length (peek i n))) ≡ input_position i + length (peek i n))
unfolding input_position
consume_window i n = rw (consume-eq-drop, peek-eq-take) (take-append-drop_taken n i.rest, refl)

-- A reader that asks for chunks of the given sizes, and consumes each window that it is lent.
pub read_chunks : WindowInput → List ℕ → List ℕ × WindowInput
read_chunks i [] = ([], i)
read_chunks i (n ∷ ns) =
    let (bytes, i') = read_chunks (consume i (length (peek i n))) ns in (peek i n ++ bytes, i')

-- Whatever the sizes of the chunks, the windows put together with what is left are the bytes that
-- were ahead, and the position has moved by the bytes read: none is lost, repeated or invented.
pub read_chunks_whole :
    (sizes : List ℕ) (i : WindowInput)
    → let (bytes, i') = read_chunks i sizes in
      (bytes ++ i'.rest ≡ i.rest) × (input_position i' ≡ input_position i + length bytes)
unfolding read_chunks
read_chunks_whole [] i = (refl, omega arith)
read_chunks_whole (n ∷ ns) i =
    let (whole, moved) = consume_window i n in
    let (bytes, position) = read_chunks_whole ns (consume i (length (peek i n))) in
    let (next, left) = read_chunks (consume i (length (peek i n))) ns in
    (
      append_assoc (peek i n) next left.rest ∙ ap (λ t. peek i n ++ t) bytes ∙ whole,
      omega (arith, position, moved, length-append (peek i n) next),
    )
