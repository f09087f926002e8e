-- ===== src/Compact/Skip/Headers.antt =====
-- What `skip_reader` does at each header: the bytes that it passes over as a whole, and where it goes on.
use mathlib.Core.Path.{subst}
use contract.Prelude.{
  ℕ, zero, suc, ◌+◌, ◌-◌, ◌*◌, ◌/◌, ◌%◌, ◌^◌, ◌≤◌, ◌<◌, ◌≡◌, refl, sym, ap, Bool, true, false,
  Bool-cases, inl, inr, List, [], ◌∷◌, ◌++◌, arith, ltb, leb, ◌==◌, lt→ltb, if◌then◌else◌, length,
  length-to_bytes, take, drop, take-append-drop, length-take, length-drop, to_bytes,
}
use contract.Error.{set_stage}
use contract.Compact.Codes.{ValueKind, ReadStage}
use contract.Compact.Headers.{compact_byte_count}
use contract.Compact.Count.{compact_byte_count-Fits}
use contract.Compact.Reader.{
  ReadM, done, ◌>>=◌, pure, describing_read, read_byte, read, read_size_tail,
}
use contract.Compact.Steps.{
  at, Reads, Reads-bind, Reads-map, Reads-pure, Reads-describing, Reads-byte, Reads-bytes,
}
use contract.Compact.Wire.{encode_payload, encode_uint, encode_negative}
use contract.Compact.Integers.{payload_count-of}
use contract.Compact.Skip.{
  skip_chunk, skip_chunks, raw, size_tail, sized_payload, items, repeated, fields,
  object as skip_object, read_nibble, read_from_header,
}

Reads-chunk : (n : ℕ) (bs : List ℕ) → length bs ≡ n → Reads (skip_chunk n) bs tt
unfolding skip_chunk
Reads-chunk n bs size =
    Reads-map (describing_read (set_stage ReadStage.skip) (read false n)) (λ _. tt) bs bs
      (Reads-describing (set_stage ReadStage.skip) (read false n) bs bs (Reads-bytes n bs size))

Reads-chunks :
    (fuel : ℕ) (bs : List ℕ) → length bs < fuel → Reads (skip_chunks fuel (length bs)) bs tt
unfolding skip_chunks
Reads-chunks zero bs h failure consumed more = absurd (omega arith)
Reads-chunks (suc fuel) [] h failure consumed more = Reads-pure tt failure consumed more
Reads-chunks (suc fuel) (b ∷ bs) h failure consumed more =
    let n = length (b ∷ bs) in
    let chunk : ℕ = if ltb 64 n then 64 else n in
    let some_left : (n == 0) ≡ false = ground arith in
    let (least, most) : (1 ≤ chunk) × (chunk ≤ n) = ground arith in
    let front : length (take chunk (b ∷ bs)) ≡ chunk = omega (arith, length-take chunk (b ∷ bs)) in
    let back : length (drop chunk (b ∷ bs)) ≡ n - chunk = length-drop chunk (b ∷ bs) in
    let whole = take-append-drop chunk (b ∷ bs) in
    rw some_left (
      subst
        (λ t.
          (skip_chunk chunk >>= λ _. skip_chunks fuel (n - chunk)) (at failure consumed (t ++ more))
          ≡ (at failure (consumed + length t) more, done tt))
        whole
        (Reads-bind (skip_chunk chunk) (λ _. skip_chunks fuel (n - chunk)) (take chunk (b ∷ bs))
          (drop chunk (b ∷ bs)) tt tt (Reads-chunk chunk (take chunk (b ∷ bs)) front)
          (rw (sym back) (Reads-chunks fuel (drop chunk (b ∷ bs)) (omega arith))) failure consumed
          more))

pub Reads-raw : (n : ℕ) (bs : List ℕ) → length bs ≡ n → Reads (raw n) bs tt
unfolding raw
Reads-raw n bs size = rw (sym size) (Reads-chunks (suc (length bs)) bs (omega arith))

-- The tail of a size is read as the reader does.
size_tail-same :
    (header : ℕ) (kind : ValueKind) → size_tail header kind ≡ read_size_tail header kind
unfolding size_tail read_size_tail
size_tail-same header kind = refl

-- The high nibble of a header.
nibble-of : (k n : ℕ) → n ≤ 15 → (k * 16 + n) / 16 ≡ k
nibble-of k n h = omega arith

module _ (one : ReadM (Unit {0})) where
  pub header-bytes :
      (n : ℕ)
      → n ≤ 15
      → read_from_header one (0x60 + n) ≡ (read_size_tail (0x60 + n) ValueKind.bytes >>= raw)
  unfolding read_from_header read_nibble sized_payload
  header-bytes n h =
      rw (nibble-of 6 n h) (ap (λ m. m >>= raw) (size_tail-same (0x60 + n) ValueKind.bytes))

  pub header-string :
      (n : ℕ)
      → n ≤ 15
      → read_from_header one (0x70 + n) ≡ (read_size_tail (0x70 + n) ValueKind.string >>= raw)
  unfolding read_from_header read_nibble sized_payload
  header-string n h =
      rw (nibble-of 7 n h) (ap (λ m. m >>= raw) (size_tail-same (0x70 + n) ValueKind.string))

  pub header-array :
      (n : ℕ)
      → n ≤ 15
      → read_from_header one (0x80 + n)
        ≡ (read_size_tail (0x80 + n) ValueKind.array >>= items one 1)
  unfolding read_from_header read_nibble repeated
  header-array n h =
      rw (nibble-of 8 n h) (ap (λ m. m >>= items one 1) (size_tail-same (0x80 + n) ValueKind.array))

  pub header-map :
      (n : ℕ)
      → n ≤ 15
      → read_from_header one (0x90 + n) ≡ (read_size_tail (0x90 + n) ValueKind.map >>= items one 2)
  unfolding read_from_header read_nibble repeated
  header-map n h =
      rw (nibble-of 9 n h) (ap (λ m. m >>= items one 2) (size_tail-same (0x90 + n) ValueKind.map))

  pub header-object :
      (n : ℕ)
      → n ≤ 15
      → read_from_header one (0xa0 + n)
        ≡ (read_size_tail (0xa0 + n) ValueKind.object >>= fields one)
  unfolding read_from_header read_nibble skip_object
  header-object n h =
      rw (nibble-of 10 n h)
        (ap (λ m. m >>= fields one) (size_tail-same (0xa0 + n) ValueKind.object))

  -- A header that stands alone.
  pub header-alone : (b : ℕ) → b < 0x50 → read_from_header one b ≡ pure tt
  unfolding read_from_header read_nibble
  header-alone b h =
      let low : ltb (b / 16) 5 ≡ true = lt→ltb (b / 16) 5 (omega arith) in rw low refl

  pub header-exact : (b : Bool) → read_from_header one (if b then 0xb1 else 0xb0) ≡ pure tt
  unfolding read_from_header read_nibble
  header-exact true = refl
  header-exact false = refl

  pub header-null : read_from_header one 0xb2 ≡ pure tt
  unfolding read_from_header read_nibble
  header-null = refl

  pub header-float32 : read_from_header one 0xc4 ≡ raw 4
  unfolding read_from_header read_nibble
  header-float32 = refl

  pub header-float64 : read_from_header one 0xc8 ≡ raw 8
  unfolding read_from_header read_nibble
  header-float64 = refl

  header-payload :
      (base n : ℕ)
      → base % 8 ≡ 0
      → 0x50 ≤ base
      → base ≤ 0x58
      → n < 8
      → read_from_header one (base + n) ≡ raw (suc n)
  unfolding read_from_header read_nibble
  header-payload base n aligned low high h =
      let nibble : (base + n) / 16 ≡ 5 = omega arith in
      rw (nibble, payload_count-of base n aligned h) refl

  pub Reads-alone :
      (b : ℕ)
      → read_from_header one b ≡ pure tt
      → Reads (read_byte >>= read_from_header one) (b ∷ []) tt
  Reads-alone b e =
      Reads-bind read_byte (read_from_header one) (b ∷ []) [] b tt (Reads-byte b)
        (rw e (Reads-pure tt))

  pub Reads-fixed :
      (b n : ℕ) (bs : List ℕ)
      → read_from_header one b ≡ raw n
      → length bs ≡ n
      → Reads (read_byte >>= read_from_header one) (b ∷ bs) tt
  Reads-fixed b n bs e size =
      Reads-bind read_byte (read_from_header one) (b ∷ []) bs b tt (Reads-byte b)
        (rw e (Reads-raw n bs size))

  Reads-payload :
      (base magnitude : ℕ)
      → base % 8 ≡ 0
      → 0x50 ≤ base
      → base ≤ 0x58
      → magnitude < 2 ^ 64
      → Reads (read_byte >>= read_from_header one) (encode_payload base magnitude) tt
  unfolding encode_payload
  Reads-payload base magnitude aligned low high h =
      let n = compact_byte_count magnitude in
      let (positive, bounded, fits) = compact_byte_count-Fits magnitude h in
      Reads-fixed (base + (n - 1)) (suc (n - 1)) (to_bytes n magnitude)
        (header-payload base (n - 1) aligned low high (omega arith))
        (omega (arith, length-to_bytes n magnitude))

  pub Reads-skip_uint :
      (v : ℕ) → v < 2 ^ 64 → Reads (read_byte >>= read_from_header one) (encode_uint v) tt
  unfolding encode_uint
  Reads-skip_uint v h failure consumed more = elim (Bool-cases (leb v 63)) [
    | inl small ↦ rw small (Reads-alone v (header-alone v (ground arith)) failure consumed more)
    | inr large ↦
        rw large
          (Reads-payload 0x50 v (omega arith) (omega arith) (omega arith) h failure consumed more)
  ]

  pub Reads-skip_negative :
      (v : ℕ) → v < 2 ^ 63 → Reads (read_byte >>= read_from_header one) (encode_negative v) tt
  unfolding encode_negative
  Reads-skip_negative v h failure consumed more = elim (Bool-cases (leb v 15)) [
    | inl small ↦
        rw small
          (Reads-alone (0x40 + v) (header-alone (0x40 + v) (ground arith)) failure consumed more)
    | inr large ↦ rw large (
        Reads-payload 0x58 (v + 1) (omega arith) (omega arith) (omega arith) (omega arith) failure
          consumed more)
  ]
