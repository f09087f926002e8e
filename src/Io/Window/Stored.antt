-- ===== src/Io/Window/Stored.antt =====
-- A window as its client leaves and meets it: an output with bytes stored behind what it held, and an
-- input with bytes ahead.
use mathlib.Core.List.{append_assoc}
use contract.Prelude.{
  ℕ, zero, suc, ◌+◌, ◌-◌, ◌≤◌, ◌<◌, ◌≡◌, refl, sym, ap, ap₂, ◌∙◌, List, [], ◌∷◌, ◌++◌, arith,
  length, length-append, take, drop, take-length, drop-length, drop-drop, suc-==-zero,
}
use contract.Io.Window.{WindowInput, WindowOutput, peek, consume, prepare, fill, commit}
use contract.Io.Window.Laws.{peek-eq-take, consume-eq-drop}

-- The output with these bytes behind what it holds.
abbrev pub stored : WindowOutput → List ℕ → WindowOutput
stored o bytes = record { written = o.written ++ bytes; free = drop (length bytes) o.free }

pub prepare-fits : (o : WindowOutput) (n : ℕ) → 0 < n → n ≤ length o.free → prepare o n ≡ n
unfolding prepare
prepare-fits o n pos fits = ground arith

pub commit-fill :
    (o : WindowOutput) (bytes : List ℕ)
    → 0 < length bytes
    → commit (fill o bytes) (length bytes) ≡ stored o bytes
unfolding commit fill
commit-fill o [] pos = absurd (omega arith)
commit-fill o (b ∷ bytes) pos = rw suc-==-zero (
    ap₂ (λ t u. record { written = o.written ++ t; free = u })
      (take-length (length (b ∷ bytes)) (b ∷ bytes) (drop (length (b ∷ bytes)) o.free) refl)
      (drop-length (length (b ∷ bytes)) (b ∷ bytes) (drop (length (b ∷ bytes)) o.free) refl))

abbrev pub input_of : ℕ → List ℕ → WindowInput
input_of consumed rest = record { consumed = consumed; rest = rest }

-- Bytes that are stored after others.
pub stored-append :
    (o : WindowOutput) (xs ys : List ℕ) → stored (stored o xs) ys ≡ stored o (xs ++ ys)
stored-append o xs ys =
    ap₂ (λ t u. record { written = t; free = u }) (append_assoc o.written xs ys)
      (drop-drop (length xs) (length ys) o.free
        ∙ ap (λ n. drop n o.free) (sym (length-append xs ys)))

pub peek-ahead :
    (consumed n : ℕ) (bytes more : List ℕ)
    → length bytes ≡ n
    → peek (input_of consumed (bytes ++ more)) n ≡ bytes
peek-ahead consumed n bytes more size =
    peek-eq-take (input_of consumed (bytes ++ more)) n ∙ take-length n bytes more size

pub consume-ahead :
    (consumed n : ℕ) (bytes more : List ℕ)
    → length bytes ≡ n
    → consume (input_of consumed (bytes ++ more)) n ≡ input_of (consumed + n) more
consume-ahead consumed n bytes more size =
    consume-eq-drop (input_of consumed (bytes ++ more)) n
    ∙ ap (input_of (consumed + n)) (drop-length n bytes more size)

pub take-append_le :
    (n : ℕ) (xs ys : List ℕ) → length xs ≤ n → take n (xs ++ ys) ≡ xs ++ take (n - length xs) ys
take-append_le n [] ys h = ap (λ k. take k ys) (omega arith)
take-append_le zero (x ∷ xs) ys h = absurd (omega arith)
take-append_le (suc n) (x ∷ xs) ys h =
    ap (λ t. x ∷ t) (take-append_le n xs ys (omega arith) ∙ ap (λ k. xs ++ take k ys) (omega arith))

pub peek-more :
    (consumed n : ℕ) (bytes more : List ℕ)
    → length bytes ≤ n
    → peek (input_of consumed (bytes ++ more)) n ≡ bytes ++ take (n - length bytes) more
peek-more consumed n bytes more h =
    peek-eq-take (input_of consumed (bytes ++ more)) n ∙ take-append_le n bytes more h
