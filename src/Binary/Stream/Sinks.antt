-- ===== src/Binary/Stream/Sinks.antt =====
-- What a sink holds after a write that fits, and that it depends only on the bytes, not on how they
-- are cut into writes.
use contract.Prelude.{
  ℕ, ◌+◌, ◌%◌, ◌≤◌, ◌<◌, ◌≡◌, refl, sym, ap, ap₂, ◌∙◌, some, List, [], ◌∷◌, ◌++◌, arith, length,
  drop, take_all, drop-drop, length-drop, length-append, word,
}
use native.Mathlib.Nat.{zero-add}
use mathlib.Core.List.{append-nil, append_assoc}
use contract.Binary.Cipher.{scramble, length-scramble, scramble-append, scramble-cong}
use contract.Binary.Stream.{Sink, sink_write}

-- Room for `n` bytes. An unchecked output is handed enough memory by its user.
abbrev pub HasRoom : Sink → ℕ → Type 0
HasRoom (Sink.plain o) n = Unit
HasRoom (Sink.checked o) n = n ≤ length o.free
HasRoom (Sink.encrypting s key offset) n = HasRoom s n

-- The sink once it holds `bytes` more.
unfoldable pub push : Sink → List ℕ → Sink
push s [] = s
push (Sink.plain o) (b ∷ bs) = Sink.plain (record { written = o.written ++ (b ∷ bs) })
push (Sink.checked o) (b ∷ bs) =
    Sink.checked (record { written = o.written ++ (b ∷ bs); free = drop (length (b ∷ bs)) o.free })
push (Sink.encrypting s key offset) (b ∷ bs) =
    Sink.encrypting (push s (scramble key offset 0 (b ∷ bs))) key
      ((offset + length (b ∷ bs)) % word)

-- A write that fits stores the bytes and reports them all.
pub sink_write-push :
    (s : Sink) (bs : List ℕ) (n : ℕ)
    → length bs ≡ n
    → HasRoom s n
    → 0 < n
    → sink_write s (some bs) n ≡ (push s bs, n)
unfolding sink_write push
sink_write-push s [] n e room pos = absurd (omega arith)
sink_write-push (Sink.plain o) (b ∷ bs) n e room pos =
    rw (← e) (ground (arith, take_all (length (b ∷ bs)) (b ∷ bs) refl))
sink_write-push (Sink.checked o) (b ∷ bs) n e room pos =
    rw (← e) (ground (arith, take_all (length (b ∷ bs)) (b ∷ bs) refl))
sink_write-push (Sink.encrypting s key offset) (b ∷ bs) n e room pos =
    let inner : sink_write s (some (scramble key offset 0 (b ∷ bs))) n
        ≡ (push s (scramble key offset 0 (b ∷ bs)), n) =
      sink_write-push s (scramble key offset 0 (b ∷ bs)) n
        (length-scramble key offset 0 (b ∷ bs) ∙ e) room pos in
    rw (take_all n (b ∷ bs) e, inner) (rw (← e) (ground arith))

pub push-append : (s : Sink) (xs ys : List ℕ) → push (push s xs) ys ≡ push s (xs ++ ys)
unfolding push
push-append s [] ys = refl
push-append s (x ∷ xs) [] = ap (push s) (sym (append-nil (x ∷ xs)))
push-append (Sink.plain o) (x ∷ xs) (y ∷ ys) =
    ap (λ t. Sink.plain (record { written = t })) (append_assoc o.written (x ∷ xs) (y ∷ ys))
push-append (Sink.checked o) (x ∷ xs) (y ∷ ys) =
    ap₂ (λ t u. Sink.checked (record { written = t; free = u }))
      (append_assoc o.written (x ∷ xs) (y ∷ ys))
      (drop-drop (length (x ∷ xs)) (length (y ∷ ys)) o.free
        ∙ ap (λ n. drop n o.free) (sym (length-append (x ∷ xs) (y ∷ ys))))
push-append (Sink.encrypting s key offset) (x ∷ xs) (y ∷ ys) =
    ap₂ (λ t n. Sink.encrypting t key n)
      (push-append s (scramble key offset 0 (x ∷ xs)) _ ∙ ap (push s) joined)
      (omega (arith, length-append (x ∷ xs) (y ∷ ys)))
  where
    joined :
        scramble key offset 0 (x ∷ xs)
          ++ scramble key ((offset + length (x ∷ xs)) % word) 0 (y ∷ ys)
        ≡ scramble key offset 0 (x ∷ xs ++ y ∷ ys)
    joined =
        ap (λ t. scramble key offset 0 (x ∷ xs) ++ t)
          (scramble-cong key ((offset + length (x ∷ xs)) % word) 0 (offset + 0 + length (x ∷ xs)) 0
            (y ∷ ys) (omega arith))
        ∙ sym (scramble-append key offset 0 (x ∷ xs) (y ∷ ys))

pub HasRoom-push :
    (s : Sink) (xs : List ℕ) (n : ℕ) → HasRoom s (length xs + n) → HasRoom (push s xs) n
unfolding push
HasRoom-push s [] n h = rw zero-add at h
HasRoom-push (Sink.plain o) (x ∷ xs) n h = tt
HasRoom-push (Sink.checked o) (x ∷ xs) n h = omega (arith, length-drop (length (x ∷ xs)) o.free)
HasRoom-push (Sink.encrypting s key offset) (x ∷ xs) n h =
    HasRoom-push s (scramble key offset 0 (x ∷ xs)) n (rw length-scramble h)

pub HasRoom-le : (s : Sink) (m n : ℕ) → m ≤ n → HasRoom s n → HasRoom s m
HasRoom-le (Sink.plain o) m n le h = tt
HasRoom-le (Sink.checked o) m n le h = omega arith
HasRoom-le (Sink.encrypting s key offset) m n le h = HasRoom-le s m n le h
