-- ===== src/Binary/Stream/Sources.antt =====
-- When given bytes stand ahead of a source, and that reading them gives them back.
use native.Mathlib.Nat.{zero-add, add-zero}
use contract.Prelude.{
  ℕ, zero, suc, ◌+◌, ◌%◌, ◌≤◌, ◌≡◌, refl, sym, ap, ap₂, ◌∙◌, false, some, List, [], ◌∷◌, ◌++◌,
  arith, length, take, drop, drop-drop, suc-==-zero, All-append_split as All-split, word, IsByte,
  All,
}
use mathlib.Core.Path.{subst₂}
use contract.Io.Byte.{bytes_at}
use contract.Binary.Cipher.{
  Key, IsKey, scramble, length-scramble, scramble-append, scramble-cong, scramble-scramble,
}
use contract.Binary.Stream.{Source, source_read, source_read_view, decrypted_view, viewed}

abbrev pub IsPrefix : List ℕ → List ℕ → Type 0
IsPrefix [] ys = Unit
IsPrefix (x ∷ xs) [] = ⊥
IsPrefix (x ∷ xs) (y ∷ ys) = (x ≡ y) × IsPrefix xs ys

-- `bytes` stand in memory from an address on.
abbrev pub StandsAt : (ℕ → ℕ) → ℕ → List ℕ → Type 0
StandsAt memory at [] = Unit
StandsAt memory at (b ∷ bs) = (memory at ≡ b) × StandsAt memory (at + 1) bs

-- `bytes` are what the source gives next.
abbrev pub Holds : Source → List ℕ → Type 0
Holds (Source.plain i) bs = StandsAt i.memory i.current bs
Holds (Source.checked i) bs = IsPrefix bs i.rest
Holds (Source.decrypting s key offset) bs =
    IsKey key × All IsByte bs × Holds s (scramble key offset 0 bs)

-- The source once `n` bytes are read.
unfoldable pub advance : Source → ℕ → Source
advance s zero = s
advance (Source.plain i) (suc n) = Source.plain (record i { current = i.current + suc n })
advance (Source.checked i) (suc n) =
    Source.checked (record { consumed = i.consumed + suc n; rest = drop (suc n) i.rest })
advance (Source.decrypting s key offset) (suc n) =
    Source.decrypting (advance s (suc n)) key ((offset + suc n) % word)

IsPrefix-take : (xs ys : List ℕ) → IsPrefix xs ys → take (length xs) ys ≡ xs
IsPrefix-take [] ys h = refl
IsPrefix-take (x ∷ xs) [] h = absurd h
IsPrefix-take (x ∷ xs) (y ∷ ys) h = ap₂ ◌∷◌ (sym h.0) (IsPrefix-take xs ys h.1)

IsPrefix-length : (xs ys : List ℕ) → IsPrefix xs ys → length xs ≤ length ys
IsPrefix-length [] ys h = omega arith
IsPrefix-length (x ∷ xs) [] h = absurd h
IsPrefix-length (x ∷ xs) (y ∷ ys) h = omega (arith, IsPrefix-length xs ys h.1)

pub IsPrefix-append : (xs ys : List ℕ) → IsPrefix xs (xs ++ ys)
IsPrefix-append [] ys = tt
IsPrefix-append (x ∷ xs) ys = (refl, IsPrefix-append xs ys)

IsPrefix-split :
    (xs ys zs : List ℕ)
    → IsPrefix (xs ++ ys) zs
    → IsPrefix xs zs × IsPrefix ys (drop (length xs) zs)
IsPrefix-split [] ys zs h = (tt, h)
IsPrefix-split (x ∷ xs) ys [] h = absurd h
IsPrefix-split (x ∷ xs) ys (z ∷ zs) h =
    let (front, back) = IsPrefix-split xs ys zs h.1 in ((h.0, front), back)

StandsAt-bytes_at :
    (memory : ℕ → ℕ) (at : ℕ) (bs : List ℕ)
    → StandsAt memory at bs
    → bytes_at memory at (length bs) ≡ bs
unfolding bytes_at
StandsAt-bytes_at memory at [] h = refl
StandsAt-bytes_at memory at (b ∷ bs) h = ap₂ ◌∷◌ h.0 (StandsAt-bytes_at memory (at + 1) bs h.1)

StandsAt-split :
    (memory : ℕ → ℕ) (at : ℕ) (xs ys : List ℕ)
    → StandsAt memory at (xs ++ ys)
    → StandsAt memory at xs × StandsAt memory (at + length xs) ys
StandsAt-split memory at [] ys h = (tt, rw add-zero h)
StandsAt-split memory at (x ∷ xs) ys h =
    let (front, back) = StandsAt-split memory (at + 1) xs ys h.1 in
    let e : at + 1 + length xs ≡ at + suc (length xs) = omega arith in ((h.0, front), rw e at back)

decrypting_view :
    (s t : Source) (key : Key) (offset n : ℕ) (raw : List ℕ)
    → source_read_view s (suc n) ≡ (t, some raw)
    → source_read_view (Source.decrypting s key offset) (suc n)
      ≡ (Source.decrypting t key ((offset + suc n) % word), some (scramble key offset 0 raw))
unfolding source_read_view
decrypting_view s t key offset n raw e = rw suc-==-zero (ap (decrypted_view key offset (suc n)) e)

decrypting_read :
    (s : Source) (key : Key) (offset n : ℕ)
    → source_read (Source.decrypting s key offset) false (suc n)
      ≡ viewed (source_read_view (Source.decrypting s key offset) (suc n)) (suc n)
unfolding source_read
decrypting_read s key offset n = rw suc-==-zero refl

-- A view of bytes that are ahead shows them and moves past them.
pub source_read_view-Holds :
    (s : Source) (n : ℕ) (bs : List ℕ)
    → length bs ≡ suc n
    → Holds s bs
    → source_read_view s (suc n) ≡ (advance s (suc n), some bs)
unfolding source_read_view advance
source_read_view-Holds (Source.plain i) n bs e h =
    let shown : bytes_at i.memory i.current (suc n) ≡ bs =
      rw e at (StandsAt-bytes_at i.memory i.current bs h) in
    ground arith
source_read_view-Holds (Source.checked i) n bs e h =
    let shown : take (suc n) i.rest ≡ bs = rw e at (IsPrefix-take bs i.rest h) in
    ground (arith, IsPrefix-length bs i.rest h)
source_read_view-Holds (Source.decrypting s key offset) n bs e h =
    decrypting_view s (advance s (suc n)) key offset n (scramble key offset 0 bs) (
      source_read_view-Holds s n (scramble key offset 0 bs) (length-scramble key offset 0 bs ∙ e)
        h.2)
    ∙ ap (λ t. (advance (Source.decrypting s key offset) (suc n), some t))
        (scramble-scramble key offset 0 bs h.0 h.1)

-- Reading bytes that are ahead copies them out and moves past them.
pub source_read-Holds :
    (s : Source) (n : ℕ) (bs : List ℕ)
    → length bs ≡ suc n
    → Holds s bs
    → source_read s false (suc n) ≡ (advance s (suc n), bs, suc n)
unfolding source_read advance
source_read-Holds (Source.plain i) n bs e h =
    let shown : bytes_at i.memory i.current (suc n) ≡ bs =
      rw e at (StandsAt-bytes_at i.memory i.current bs h) in
    ground arith
source_read-Holds (Source.checked i) n bs e h =
    let shown : take (suc n) i.rest ≡ bs = rw e at (IsPrefix-take bs i.rest h) in
    ground (arith, IsPrefix-length bs i.rest h)
source_read-Holds (Source.decrypting s key offset) n bs e h =
    decrypting_read s key offset n
    ∙ ap (λ v. viewed v (suc n)) (source_read_view-Holds (Source.decrypting s key offset) n bs e h)

pub advance-add : (s : Source) (m n : ℕ) → advance (advance s m) n ≡ advance s (m + n)
unfolding advance
advance-add s zero n = rw zero-add refl
advance-add s (suc m) zero = rw add-zero refl
advance-add (Source.plain i) (suc m) (suc n) =
    let e : suc m + suc n ≡ suc (m + suc n) = omega arith in
    rw e (ap (λ t. Source.plain (record i { current = t })) (omega arith))
advance-add (Source.checked i) (suc m) (suc n) =
    let e : suc m + suc n ≡ suc (m + suc n) = omega arith in
    let moved : i.consumed + suc m + suc n ≡ i.consumed + suc (m + suc n) = omega arith in
    rw e (
      ap₂ (λ t u. Source.checked (record { consumed = t; rest = u })) moved
        (rw e at (drop-drop (suc m) (suc n) i.rest)))
advance-add (Source.decrypting s key offset) (suc m) (suc n) =
    let e : suc m + suc n ≡ suc (m + suc n) = omega arith in
    let moved : ((offset + suc m) % word + suc n) % word ≡ (offset + suc (m + suc n)) % word =
      omega arith in
    rw e (ap₂ (λ t u. Source.decrypting t key u) (rw e at (advance-add s (suc m) (suc n))) moved)

Holds-nil : (s : Source) (bs : List ℕ) → Holds s bs → Holds s []
unfolding scramble
Holds-nil (Source.plain i) bs h = tt
Holds-nil (Source.checked i) bs h = tt
Holds-nil (Source.decrypting s key offset) bs h =
    (h.0, tt, Holds-nil s (scramble key offset 0 bs) h.2)

pub Holds-append :
    (s : Source) (xs ys : List ℕ)
    → Holds s (xs ++ ys)
    → Holds s xs × Holds (advance s (length xs)) ys
unfolding advance scramble
Holds-append (Source.plain i) [] ys h = (tt, h)
Holds-append (Source.plain i) (x ∷ xs) ys h = StandsAt-split i.memory i.current (x ∷ xs) ys h
Holds-append (Source.checked i) [] ys h = (tt, h)
Holds-append (Source.checked i) (x ∷ xs) ys h = IsPrefix-split (x ∷ xs) ys i.rest h
Holds-append (Source.decrypting s key offset) [] ys h =
    ((h.0, tt, Holds-nil s (scramble key offset 0 ys) h.2), h)
Holds-append (Source.decrypting s key offset) (x ∷ xs) ys (key_bytes, bytes, h) =
    let (front, back) = All-split IsByte (x ∷ xs) ys bytes in
    let (now, later) =
      Holds-append s (scramble key offset 0 (x ∷ xs))
        (scramble key (offset + 0 + length (x ∷ xs)) 0 ys)
        (rw (scramble-append key offset 0 (x ∷ xs) ys) at h) in
    (
      (key_bytes, front, now),
      (
        key_bytes,
        back,
        subst₂ (λ n t. Holds (advance s n) t) (length-scramble key offset 0 (x ∷ xs))
            (scramble-cong key (offset + 0 + length (x ∷ xs)) 0 ((offset + length (x ∷ xs)) % word)
              0 ys (omega arith))
            later,
      ),
    )
