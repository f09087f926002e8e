-- ===== src/Compact/Steps.antt =====
-- Steps of the compact writer and reader that succeed: what a step stores behind what was written, and
-- what it makes of the bytes ahead, whatever the state around them.
use mathlib.Core.List.{append_assoc, append-nil}
use contract.Prelude.{
  ℕ, zero, suc, ◌+◌, ◌≤◌, ◌<◌, ◌≡◌, refl, sym, ap, ◌∙◌, false, Option, some, List, [], ◌∷◌, ◌++◌,
  arith, length, length-append, length-drop, take_all, ==_refl, suc-==-zero,
}
use contract.Io.Window.{WindowOutput}
use contract.Io.Window.Stored.{
  stored, stored-append, prepare-fits, commit-fill, input_of, peek-ahead, consume-ahead,
}
use contract.Compact.Codes.{WriteStage}
use contract.Compact.Writer.{
  Writer, WriteError, Status, ok, next_write, ◌⟫◌, described_write, describing_write, write_ok,
  write_window, write, write_byte,
}
use contract.Compact.Reader.{
  Reader, ReadError, ReadM, done, next_read, ◌>>=◌, pure, described_read, describing_read,
  byte_of_view, peek_byte, consume_byte, read_byte, read_window, read,
}

-- A writer that has no error, or an earlier one, over an output.
abbrev pub over : Option WriteError → WindowOutput → Writer
over failure o = record { out = o; failure = failure }

-- With room for the bytes, the step stores them and changes nothing else.
abbrev pub Writes : (Writer → Writer × Status) → List ℕ → Type 0
Writes m bytes =
    (failure : Option WriteError) (o : WindowOutput)
    → length bytes ≤ length o.free
    → m (over failure o) ≡ (over failure (stored o bytes), ok)

abbrev pub at : Option ReadError → ℕ → List ℕ → Reader
at failure consumed rest = record { input = input_of consumed rest; failure = failure }

-- Where the bytes stand ahead, the step takes just them and gives the value.
abbrev pub Reads {ℓ} : {A : Type ℓ} → ReadM A → List ℕ → A → Type ℓ
Reads m bytes a =
    (failure : Option ReadError) (consumed : ℕ) (more : List ℕ)
    → m (at failure consumed (bytes ++ more)) ≡ (at failure (consumed + length bytes) more, done a)

pub Writes-ok : Writes write_ok []
Writes-ok failure o room =
    ap (λ t. (over failure (record { written = t; free = o.free }), ok))
      (sym (append-nil o.written))

pub Writes-then :
    (m k : Writer → Writer × Status) (xs ys : List ℕ)
    → Writes m xs
    → Writes k ys
    → Writes (m ⟫ k) (xs ++ ys)
Writes-then m k xs ys h g failure o room =
    let both = length-append xs ys in
    ap (next_write k) (h failure o (omega arith))
    ∙ g failure (stored o xs) (omega (arith, length-drop (length xs) o.free))
    ∙ ap (λ t. (over failure t, ok)) (stored-append o xs ys)

pub Writes-describing :
    (describe : WriteError → WriteError) (m : Writer → Writer × Status) (bytes : List ℕ)
    → Writes m bytes
    → Writes (describing_write describe m) bytes
Writes-describing describe m bytes h failure o room =
    ap (described_write describe) (h failure o room)

module _ {ℓ κ} {A : Type ℓ} {B : Type κ} where
  pub Reads-bind :
      (m : ReadM A) (k : A → ReadM B) (xs ys : List ℕ) (a : A) (b : B)
      → Reads m xs a
      → Reads (k a) ys b
      → Reads (m >>= k) (xs ++ ys) b
  Reads-bind m k xs ys a b h g failure consumed more =
      ap (λ t. next_read k (m (at failure consumed t))) (append_assoc xs ys more)
      ∙ ap (next_read k) (h failure consumed (ys ++ more))
      ∙ g failure (consumed + length xs) more
      ∙ ap (λ n. (at failure n more, done b)) (omega (arith, length-append xs ys))

  -- A step behind which nothing more is read.
  pub Reads-map :
      (m : ReadM A) (f : A → B) (xs : List ℕ) (a : A)
      → Reads m xs a
      → Reads (m >>= λ a. pure (f a)) xs (f a)
  Reads-map m f xs a h failure consumed more =
      ap (next_read (λ a. pure (f a))) (h failure consumed more)

-- Two steps and what follows them, as the chain `m >>= λ _. n >>= k` groups them.
pub Reads-bind_then {ℓ κ ι} :
    {A : Type ℓ} {B : Type κ} {C : Type ι} (m : ReadM A) (n : ReadM B) (k : B → ReadM C)
    (xs ys zs : List ℕ) (a : A) (b : B) (c : C)
    → Reads m xs a
    → Reads n ys b
    → Reads (k b) zs c
    → Reads (m >>= λ _. n >>= k) (xs ++ (ys ++ zs)) c
Reads-bind_then m n k xs ys zs a b c h g f =
    Reads-bind m (λ _. n >>= k) xs (ys ++ zs) a c h (Reads-bind n k ys zs b c g f)

module _ {ℓ} {A : Type ℓ} where
  pub Reads-pure : (a : A) → Reads (pure a) [] a
  Reads-pure a failure consumed more = ap (λ n. (at failure n more, done a)) (omega arith)

  pub Reads-describing :
      (describe : ReadError → ReadError) (m : ReadM A) (bytes : List ℕ) (a : A)
      → Reads m bytes a
      → Reads (describing_read describe m) bytes a
  Reads-describing describe m bytes a h failure consumed more =
      ap (described_read describe) (h failure consumed more)

pub Writes-window :
    (stage : WriteStage) (bytes : List ℕ)
    → 0 < length bytes
    → Writes (write_window stage bytes) bytes
unfolding write_window
Writes-window stage bytes pos failure o room =
    rw (prepare-fits o (length bytes) pos room, ==_refl)
      (ap (λ t. (over failure t, ok)) (commit-fill o bytes pos))

pub Writes-bytes : (bytes : List ℕ) → Writes (write (some bytes) (length bytes)) bytes
unfolding write
Writes-bytes [] failure o room = Writes-ok failure o room
Writes-bytes (b ∷ bytes) failure o room =
    rw (suc-==-zero, take_all (length (b ∷ bytes)) (b ∷ bytes) refl)
      (Writes-window WriteStage.raw_bytes (b ∷ bytes) (omega arith) failure o room)

pub Writes-byte : (b : ℕ) → Writes (write_byte b) (b ∷ [])
unfolding write_byte
Writes-byte b = Writes-bytes (b ∷ [])

-- The byte ahead is seen and stays.
pub peek_byte-ahead :
    (b : ℕ) (failure : Option ReadError) (consumed : ℕ) (more : List ℕ)
    → peek_byte (at failure consumed (b ∷ more)) ≡ (at failure consumed (b ∷ more), done b)
unfolding peek_byte
peek_byte-ahead b failure consumed more =
    ap (λ v. byte_of_view v (at failure consumed (b ∷ more)))
      (peek-ahead consumed 1 (b ∷ []) more refl)
    ∙ (unfold byte_of_view in refl)

pub Reads-consume : (b : ℕ) → Reads consume_byte (b ∷ []) tt
unfolding consume_byte
Reads-consume b failure consumed more =
    ap (λ i. (record { input = i; failure = failure }, done tt))
      (consume-ahead consumed 1 (b ∷ []) more refl)

pub Reads-byte : (b : ℕ) → Reads read_byte (b ∷ []) b
unfolding read_byte
Reads-byte b failure consumed more =
    ap (next_read (λ v. consume_byte >>= λ _. pure v)) (peek_byte-ahead b failure consumed more)
    ∙ ap (next_read (λ _. pure b)) (Reads-consume b failure consumed more)

pub Reads-window : (n : ℕ) (bytes : List ℕ) → length bytes ≡ n → Reads (read_window n) bytes bytes
unfolding read_window
Reads-window n bytes size failure consumed more =
    rw (peek-ahead consumed n bytes more size, size, ==_refl)
      (ap (λ i. (record { input = i; failure = failure }, done bytes))
        (consume-ahead consumed n bytes more size))

pub Reads-bytes : (n : ℕ) (bytes : List ℕ) → length bytes ≡ n → Reads (read false n) bytes bytes
unfolding read
Reads-bytes zero [] size failure consumed more = Reads-pure [] failure consumed more
Reads-bytes zero (b ∷ bytes) size failure consumed more = absurd (omega arith)
Reads-bytes (suc n) bytes size failure consumed more =
    rw suc-==-zero (Reads-window (suc n) bytes size failure consumed more)
