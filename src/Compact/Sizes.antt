-- ===== src/Compact/Sizes.antt =====
-- The header of a size, and the values that are a header with nothing or with fixed bytes behind it:
-- what is stored, and that it is taken back.
use contract.Prelude.{
  ℕ, List, ◌++◌, ◌+◌, ◌-◌, ◌%◌, ◌^◌, ◌≤◌, ◌<◌, ◌≡◌, refl, ap, ◌∙◌, Bool, true, false, Bool-cases,
  inl, inr, [], ◌∷◌, arith, leb, ◌==◌, ==_refl, lt→ltb, length, to_bytes, of_bytes, length-to_bytes,
  of_bytes-to_bytes, if◌then◌else◌,
}
use contract.Error.{set_stage}
use contract.Compact.Codes.{ValueKind, ReadStage}
use contract.Compact.Headers.{is_in_range, size_base, is_sized_header}
use contract.Compact.Writer.{
  write_byte, header_stage, write_little_uint, write_uint, write_bool, write_null,
  write_size_header, write_float32, write_float64,
}
use contract.Compact.Reader.{
  ReadM, done, ◌>>=◌, pure, describing_read, read_byte, read_window, read_little_uint, read_uint,
  bool_of, read_bool, expect_header, read_null, read_size_tail, size_of_header, read_size_header,
  read_float, read_float32, read_float64,
}
use contract.Compact.Steps.{
  Writes, Writes-then, Writes-window, Writes-byte, at, Reads, Reads-bind, Reads-map, Reads-pure,
  Reads-describing, Reads-byte, Reads-window,
}
use contract.Compact.Wire.{encode_uint, encode_size}
use contract.Compact.Integers.{le→leb, Writes-uint, Reads-uint}

-- The kinds whose header has a size, with the base of their headers.
pub data Sized : ValueKind → ℕ → Type 0 where
  bytes : Sized ValueKind.bytes 0x60
  string : Sized ValueKind.string 0x70
  array : Sized ValueKind.array 0x80
  map : Sized ValueKind.map 0x90
  object : Sized ValueKind.object 0xa0

size_base-Sized : (kind : ValueKind) (base : ℕ) → Sized kind base → size_base kind ≡ base
unfolding size_base
size_base-Sized _ _ Sized.bytes = refl
size_base-Sized _ _ Sized.string = refl
size_base-Sized _ _ Sized.array = refl
size_base-Sized _ _ Sized.map = refl
size_base-Sized _ _ Sized.object = refl

base_bounds : (kind : ValueKind) (base : ℕ) → Sized kind base → (0x60 ≤ base) × (base ≤ 0xa0)
base_bounds _ _ Sized.bytes = omega arith
base_bounds _ _ Sized.string = omega arith
base_bounds _ _ Sized.array = omega arith
base_bounds _ _ Sized.map = omega arith
base_bounds _ _ Sized.object = omega arith

module _ (kind : ValueKind) (base : ℕ) (sized : Sized kind base) where
  pub Writes-size :
      (size : ℕ) → size < 2 ^ 64 → Writes (write_size_header kind size) (encode_size base size)
  unfolding write_size_header encode_size
  Writes-size size h failure o room =
      let (low, high) = base_bounds kind base sized in
      let some_base : (base == 0) ≡ false = ground arith in
      rw (size_base-Sized kind base sized, some_base)
        (elim (Bool-cases (leb size 14)) [
          | inl small ↦ rw small (Writes-byte (base + size) failure o (rw small at room))
          | inr large ↦ rw large (
              Writes-then (write_byte (base + 15)) (write_uint size) ((base + 15) ∷ [])
                (encode_uint size) (Writes-byte (base + 15)) (Writes-uint size h) failure o
                (rw large at room))
        ])

  sized_header : (n : ℕ) → n ≤ 15 → is_sized_header (base + n) kind ≡ true
  unfolding is_sized_header is_in_range
  sized_header n h =
      let (low, high) = base_bounds kind base sized in
      let some_base : (base == 0) ≡ false = ground arith in
      rw (size_base-Sized kind base sized, some_base)
        (let last : (base + 15) % 256 ≡ base + 15 = omega arith in
          rw
            (
              last,
              le→leb base (base + n) (omega arith),
              le→leb (base + n) (base + 15) (omega arith),
            )
            refl)

  header_low : (n : ℕ) → n ≤ 15 → (base + n + 256 - size_base kind) % 256 ≡ n
  header_low n h =
      let (low, high) = base_bounds kind base sized in
      rw (size_base-Sized kind base sized) (omega arith)

  pub tail-inline : (n : ℕ) → n ≤ 14 → read_size_tail (base + n) kind ≡ pure n
  unfolding read_size_tail
  tail-inline n h = rw (header_low n (omega arith), lt→ltb n 15 (omega arith)) refl

  pub tail-extended : read_size_tail (base + 15) kind ≡ read_uint
  unfolding read_size_tail
  tail-extended = rw (header_low 15 (omega arith)) refl

  size_of_header-sized :
      (n : ℕ) → n ≤ 15 → size_of_header kind (base + n) ≡ read_size_tail (base + n) kind
  unfolding size_of_header
  size_of_header-sized n h = rw (sized_header n h) refl

  -- Whatever reads the header and goes on with the size's tail: the reader, and what skips.
  pub Reads-size_by :
      (go : ℕ → ReadM ℕ)
      → ((n : ℕ) → n ≤ 15 → go (base + n) ≡ read_size_tail (base + n) kind)
      → (size : ℕ) → size < 2 ^ 64
      → Reads (read_byte >>= go) (encode_size base size) size
  unfolding encode_size
  Reads-size_by go by size h failure consumed more = elim (Bool-cases (leb size 14)) [
    | inl small ↦
        let tiny : size ≤ 14 = ground arith in
        let step = by size (omega arith) ∙ tail-inline size tiny in
        rw small (
          Reads-bind read_byte go ((base + size) ∷ []) [] (base + size) size
            (Reads-byte (base + size)) (rw step (Reads-pure size)) failure consumed more)
    | inr large ↦
        let step = by 15 (omega arith) ∙ tail-extended in
        rw large (
          Reads-bind read_byte go ((base + 15) ∷ []) (encode_uint size) (base + 15) size
            (Reads-byte (base + 15)) (rw step (Reads-uint size h)) failure consumed more)
  ]

  pub Reads-size :
      (size : ℕ) → size < 2 ^ 64 → Reads (read_size_header kind) (encode_size base size) size
  unfolding read_size_header
  Reads-size size h = Reads-size_by (size_of_header kind) size_of_header-sized size h

module _ {ℓ} {A : Type ℓ} (kind : ValueKind) (base : ℕ) (sized : Sized kind base) where
  -- A header byte with a size, whose tail is read before what follows.
  pub Reads-sized :
      (go body : ℕ → ReadM A) (size : ℕ) (xs : List ℕ) (a : A)
      → ((n : ℕ) → n ≤ 15 → go (base + n) ≡ (read_size_tail (base + n) kind >>= body))
      → size < 2 ^ 64
      → Reads (body size) xs a
      → Reads (read_byte >>= go) (encode_size base size ++ xs) a
  unfolding encode_size
  Reads-sized go body size xs a by h g failure consumed more = elim (Bool-cases (leb size 14)) [
    | inl small ↦
        let tiny : size ≤ 14 = ground arith in
        let step =
          by size (omega arith) ∙ ap (λ m. m >>= body) (tail-inline kind base sized size tiny) in
        rw small (
          Reads-bind read_byte go ((base + size) ∷ []) xs (base + size) a (Reads-byte (base + size))
            (rw step g) failure consumed more)
    | inr large ↦
        let step = by 15 (omega arith) ∙ ap (λ m. m >>= body) (tail-extended kind base sized) in
        rw large (
          Reads-bind read_byte go ((base + 15) ∷ []) (encode_uint size ++ xs) (base + 15) a
            (Reads-byte (base + 15))
            (rw step (Reads-bind read_uint body (encode_uint size) xs size a (Reads-uint size h) g))
            failure consumed more)
  ]

pub Writes-bool : (b : Bool) → Writes (write_bool b) ((if b then 0xb1 else 0xb0) ∷ [])
unfolding write_bool
Writes-bool b = Writes-byte (if b then 0xb1 else 0xb0)

bool_of-header : (b : Bool) → bool_of (if b then 0xb1 else 0xb0) ≡ pure b
unfolding bool_of
bool_of-header true = refl
bool_of-header false = refl

pub Reads-bool : (b : Bool) → Reads read_bool ((if b then 0xb1 else 0xb0) ∷ []) b
unfolding read_bool
Reads-bool b =
    let header : ℕ = if b then 0xb1 else 0xb0 in
    Reads-bind read_byte bool_of (header ∷ []) [] header b (Reads-byte header)
      (rw (bool_of-header b) (Reads-pure b))

pub Writes-null : Writes write_null (0xb2 ∷ [])
unfolding write_null
Writes-null = Writes-byte 0xb2

expected-header : (header : ℕ) → expect_header header header ≡ pure tt
unfolding expect_header
expected-header header = rw (==_refl header) refl

Reads-header : (header : ℕ) → Reads (read_byte >>= expect_header header) (header ∷ []) tt
Reads-header header =
    Reads-bind read_byte (expect_header header) (header ∷ []) [] header tt (Reads-byte header)
      (rw (expected-header header) (Reads-pure tt))

pub Reads-null : Reads read_null (0xb2 ∷ []) tt
unfolding read_null
Reads-null = Reads-header 0xb2

Writes-little :
    (header bits n : ℕ) → Writes (write_little_uint header bits n) (header ∷ to_bytes n bits)
unfolding write_little_uint
Writes-little header bits n =
    Writes-window (header_stage header) (header ∷ to_bytes n bits) (omega arith)

Reads-little : (bits n : ℕ) → bits < 256 ^ n → Reads (read_little_uint n) (to_bytes n bits) bits
unfolding read_little_uint
Reads-little bits n h failure consumed more =
    Reads-map (read_window n) of_bytes (to_bytes n bits) (to_bytes n bits)
      (Reads-window n (to_bytes n bits) (length-to_bytes n bits)) failure consumed more
    ∙ ap (λ v. (at failure (consumed + length (to_bytes n bits)) more, done v))
        (of_bytes-to_bytes n bits h)

Reads-float :
    (header : ℕ) (stage : ReadStage) (bits n : ℕ)
    → bits < 256 ^ n
    → Reads (read_float header stage n) (header ∷ to_bytes n bits) bits
unfolding read_float
Reads-float header stage bits n h =
    Reads-bind (read_byte >>= expect_header header)
      (λ _. describing_read (set_stage stage) (read_little_uint n)) (header ∷ []) (to_bytes n bits)
      tt bits (Reads-header header)
      (Reads-describing (set_stage stage) (read_little_uint n) (to_bytes n bits) bits
        (Reads-little bits n h))

pub Writes-float32 : (bits : ℕ) → Writes (write_float32 bits) (0xc4 ∷ to_bytes 4 bits)
unfolding write_float32
Writes-float32 bits = Writes-little 0xc4 bits 4

pub Writes-float64 : (bits : ℕ) → Writes (write_float64 bits) (0xc8 ∷ to_bytes 8 bits)
unfolding write_float64
Writes-float64 bits = Writes-little 0xc8 bits 8

pub Reads-float32 : (bits : ℕ) → bits < 2 ^ 32 → Reads read_float32 (0xc4 ∷ to_bytes 4 bits) bits
unfolding read_float32
Reads-float32 bits h = Reads-float 0xc4 ReadStage.float32 bits 4 h

pub Reads-float64 : (bits : ℕ) → bits < 2 ^ 64 → Reads read_float64 (0xc8 ∷ to_bytes 8 bits) bits
unfolding read_float64
Reads-float64 bits h = Reads-float 0xc8 ReadStage.float64 bits 8 h
