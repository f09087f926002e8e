-- ===== src/Protobuf/Steps.antt =====
-- Steps of the protobuf writer and reader that succeed: what a step stores in a window or adds to the
-- count of a counting output, and what it makes of the bytes ahead, whatever the state around them.
use native.Mathlib.Nat.{mod-eq_of_lt}
use mathlib.Core.List.{append_assoc, append-nil}
use contract.Prelude.{
  ℕ, zero, suc, ◌+◌, ◌*◌, ◌%◌, ◌^◌, ◌≤◌, ◌<◌, ◌≡◌, sym, ap, ◌∙◌, Option, List, [], ◌∷◌, ◌++◌, arith,
  length, length-append, length-drop, ==_refl, suc-==-zero, word,
}
use contract.Io.Window.Stored.{stored, stored-append, input_of, peek-ahead, consume-ahead}
use contract.Protobuf.Codes.{wire_of, WriteStage, staged_error}
use contract.Protobuf.Varint.{varint_bytes}
use contract.Protobuf.Writer.{
  Writer, WriteError, ok, Target, window, counting, described_write, write_bytes,
  write_varint_payload, varint_byte_count, write_varint, write_tag, tag_error,
}
use contract.Protobuf.Reader.{
  Reader, ReadError, ReadM, done, next_read, ◌>>=◌, pure, read_varint, parse_tag, read_tag,
  read_view, view_whole,
}
use contract.Protobuf.Measure.{varint_byte_count-exact}
use contract.Protobuf.RoundTrip.{write_bytes-fits, write_varint_payload-stored, read_varint-finds}
use contract.Protobuf.Sent.{key-value, parse_tag-key}
use contract.Protobuf.Scalar.{next_write, described_read}
use contract.Protobuf.Codec.{WriteStep, write_ok, ◌⟫◌, describing_write, describing_read}

abbrev pub over : Option WriteError → Target → Writer
over failure t = record { out = t; failure = failure }

-- The window has room for that many bytes, or the count does not wrap.
abbrev pub Room : Target → ℕ → Type 0
Room (window o) n = n ≤ length o.free
Room (counting c) n = c + n < word

abbrev pub extended : Target → List ℕ → Target
extended (window o) bytes = window (stored o bytes)
extended (counting c) bytes = counting (c + length bytes)

-- With room for the bytes, the step stores or counts them and changes nothing else.
abbrev pub Writes : WriteStep → List ℕ → Type 0
Writes m bytes =
    (failure : Option WriteError) (t : Target)
    → Room t (length bytes)
    → m (over failure t) ≡ (over failure (extended t bytes), ok)

abbrev pub at : Option ReadError → ℕ → List ℕ → Reader
at failure consumed rest = record { input = input_of consumed rest; failure = failure }

-- Where the bytes stand ahead, the step takes just them and gives the value.
abbrev pub Reads : {A : Type 0} → ReadM A → List ℕ → A → Type 0
Reads m bytes a =
    (failure : Option ReadError) (consumed : ℕ) (more : List ℕ)
    → m (at failure consumed (bytes ++ more)) ≡ (at failure (consumed + length bytes) more, done a)

Room-front : (t : Target) (xs ys : List ℕ) → Room t (length (xs ++ ys)) → Room t (length xs)
Room-front (window o) xs ys h = omega (arith, length-append xs ys)
Room-front (counting c) xs ys h = omega (arith, length-append xs ys)

Room-back :
    (t : Target) (xs ys : List ℕ) → Room t (length (xs ++ ys)) → Room (extended t xs) (length ys)
Room-back (window o) xs ys h = omega (arith, length-append xs ys, length-drop (length xs) o.free)
Room-back (counting c) xs ys h = omega (arith, length-append xs ys)

extended-append :
    (t : Target) (xs ys : List ℕ) → extended (extended t xs) ys ≡ extended t (xs ++ ys)
extended-append (window o) xs ys = ap window (stored-append o xs ys)
extended-append (counting c) xs ys = ap counting (omega (arith, length-append xs ys))

extended-nothing : (t : Target) → t ≡ extended t []
extended-nothing (window o) =
    ap (λ u. window (record { written = u; free = o.free })) (sym (append-nil o.written))
extended-nothing (counting c) = ap counting (omega arith)

pub Writes-ok : Writes write_ok []
Writes-ok failure t room = ap (λ u. (over failure u, ok)) (extended-nothing t)

pub Writes-then :
    (m k : WriteStep) (xs ys : List ℕ) → Writes m xs → Writes k ys → Writes (m ⟫ k) (xs ++ ys)
Writes-then m k xs ys h g failure t room =
    ap (next_write k) (h failure t (Room-front t xs ys room))
    ∙ g failure (extended t xs) (Room-back t xs ys room)
    ∙ ap (λ u. (over failure u, ok)) (extended-append t xs ys)

pub Writes-describing :
    (describe : WriteError → WriteError) (m : WriteStep) (bytes : List ℕ)
    → Writes m bytes
    → Writes (describing_write describe m) bytes
Writes-describing describe m bytes h failure t room =
    ap (described_write describe) (h failure t room)

pub Writes-bytes : (bytes : List ℕ) → Writes (write_bytes bytes) bytes
Writes-bytes [] failure t room = unfold write_bytes in Writes-ok failure t room
Writes-bytes (b ∷ bytes) failure (window o) room =
    write_bytes-fits (b ∷ bytes) o (over failure (window o)) (omega arith) room
Writes-bytes (b ∷ bytes) failure (counting c) room =
    unfold write_bytes in
    rw suc-==-zero (ap (λ n. (over failure (counting n), ok)) (mod-eq_of_lt room))

Writes-payload : (v : ℕ) → v < word → Writes (write_varint_payload v) (varint_bytes 10 v)
Writes-payload v h failure (window o) room =
    write_varint_payload-stored v o (over failure (window o)) room
Writes-payload v h failure (counting c) room =
    let size : (c + varint_byte_count v) ≡ c + length (varint_bytes 10 v) =
      omega (arith, varint_byte_count-exact v h) in
    unfold write_varint_payload in
    ap (λ n. (over failure (counting n), ok)) (ap (λ (n : ℕ). n % word) size ∙ mod-eq_of_lt room)

pub Writes-varint : (v : ℕ) → v < word → Writes (write_varint v) (varint_bytes 10 v)
unfolding write_varint
Writes-varint v h =
    Writes-describing (staged_error WriteStage.varint) (write_varint_payload v) (varint_bytes 10 v)
      (Writes-payload v h)

abbrev pub tag_bytes : ℕ → ℕ → List ℕ
tag_bytes number n = varint_bytes 10 (number * 8 + n)

pub Writes-tag :
    (number n : ℕ)
    → number < 2 ^ 32
    → n < 8
    → Writes (write_tag number (wire_of n)) (tag_bytes number n)
unfolding write_tag
Writes-tag number n h small = rw (key-value number n small) (
    Writes-describing (tag_error number (wire_of n)) (write_varint_payload (number * 8 + n))
      (tag_bytes number n) (Writes-payload (number * 8 + n) (omega arith)))

module _ {A B : Type 0} where
  pub Reads-bind :
      (m : ReadM A) (k : A → ReadM B) (xs ys : List ℕ) (a : A) (b : B)
      → Reads m xs a
      → Reads (k a) ys b
      → Reads (m >>= k) (xs ++ ys) b
  Reads-bind m k xs ys a b h g failure consumed more =
      ap (λ t. next_read k (m (at failure consumed t))) (append_assoc xs ys more)
      ∙ ap (next_read k) (h failure consumed (ys ++ more))
      ∙ g failure (consumed + length xs) more
      ∙ ap (λ n. (at failure n more, done b)) (omega (arith, length-append xs ys))

  pub Reads-map :
      (m : ReadM A) (f : A → B) (xs : List ℕ) (a : A)
      → Reads m xs a
      → Reads (m >>= λ a. pure (f a)) xs (f a)
  Reads-map m f xs a h failure consumed more =
      ap (next_read (λ a. pure (f a))) (h failure consumed more)

pub Reads-describing :
    {A : Type 0} (describe : ReadError → ReadError) (m : ReadM A) (bytes : List ℕ) (a : A)
    → Reads m bytes a
    → Reads (describing_read describe m) bytes a
Reads-describing describe m bytes a h failure consumed more =
    ap (described_read describe) (h failure consumed more)

pub Reads-varint : (v : ℕ) → v < word → Reads read_varint (varint_bytes 10 v) v
Reads-varint v h failure consumed more =
    read_varint-finds v consumed more (at failure consumed []) h

pub Reads-tag :
    (number n : ℕ)
    → number < 2 ^ 32
    → n < 8
    → Reads read_tag (tag_bytes number n) (number, wire_of n)
unfolding read_tag
Reads-tag number n h small failure consumed more =
    let key = number * 8 + n in
    Reads-map read_varint parse_tag (varint_bytes 10 key) key (Reads-varint key (omega arith))
      failure consumed more
    ∙ ap (λ t. (at failure (consumed + length (tag_bytes number n)) more, done t))
        (parse_tag-key number n h small)

pub Reads-view : (n : ℕ) (bytes : List ℕ) → length bytes ≡ n → Reads (read_view n) bytes bytes
unfolding read_view
Reads-view zero [] size failure consumed more = ap (λ n. (at failure n more, done [])) (omega arith)
Reads-view zero (b ∷ bytes) size failure consumed more = absurd (omega arith)
Reads-view (suc n) bytes size failure consumed more =
    rw (suc-==-zero, peek-ahead consumed (suc n) bytes more size)
      (unfold view_whole in
        rw (size, ==_refl)
          (ap (λ i. (record { input = i; failure = failure }, done bytes))
            (consume-ahead consumed (suc n) bytes more size)))
