-- ===== src/Compact/Codec/Array.antt =====
-- compact/array.hpp: `codec<std::array<T, N>>` and `codec<T[Size]>`, which are the same code. Elements
-- like bytes go as bytes without the zeros at the end, others as an array of the format.
use mathlib.Core.Path.{subst}
use contract.Prelude.{
  ℕ, zero, suc, ◌+◌, ◌-◌, ◌^◌, ◌≤◌, ◌<◌, ◌≡◌, refl, sym, ◌∙◌, false, Option, none, List, [], ◌∷◌,
  ◌++◌, arith, ltb, le→ltb, ◌==◌, suc-==-zero, if◌then◌else◌, length, length-take, take, replicate,
  All,
}
use contract.Base.{trim_trailing_zeros, trim_trailing_zeros-lossless}
use contract.Compact.Codes.{ValueKind, ReadErrorCode, ReadStage, WriteStage, sized_error}
use contract.Compact.Writer.{
  Writer, Status, ◌⟫◌, write_ok, describing_write, write, write_size_header,
}
use contract.Compact.Reader.{
  ReadM, pure, ◌>>=◌, read_fails, describing_read, read, read_size_header,
}
use contract.Compact.Wire.{
  Value, bytes, array as array_value, count, encode, encode_values, encode_size, IsValue,
}
use contract.Compact.Steps.{
  Writes, Writes-ok, Writes-describing, Writes-bytes, Reads, Reads-bind, Reads-map, Reads-pure,
  Reads-describing, Reads-bytes,
}
use contract.Compact.Sizes.{Sized}
use contract.Compact.Codec.{
  Codec, Descriptor, fielded_error, staged_error, check_write_limit, check_read_limit,
}
use contract.Compact.Codec.Laws.{
  IsCodec, Within, Writes-limit_then, Reads-limit_then, Writes-header_then, Reads-header_then,
}
use contract.Compact.Codec.Vector.{
  write_items, read_item, values_of, count-values_of, Writes-items, Reads-item, values-AreValues,
}
use contract.Compact.Codec.Tuple.{read_counted, Reads-counted}
use contract.Binary.Codec.Array.{Array, items_of, filled}

module _ (n : ℕ) where
  -- trimmed != 0 && out.write(value.data(), trimmed * sizeof(T))
  unfoldable pub write_trimmed : List ℕ → ℕ → Writer → Writer × Status
  write_trimmed value trimmed =
      if trimmed == 0 then write_ok else write (Option.some (take trimmed value)) trimmed

  unfoldable pub write_bytes : Option Descriptor → List ℕ → Writer → Writer × Status
  write_bytes d value =
      let trimmed = trim_trailing_zeros value n in
      check_write_limit WriteStage.array d n
      ⟫ describing_write (staged_error d WriteStage.array)
          (write_size_header ValueKind.bytes trimmed)
      ⟫ describing_write (staged_error d WriteStage.array) (write_trimmed value trimmed)

  -- The bytes that are read, and the zeros that memset puts behind them.
  unfoldable pub read_trimmed : Option Descriptor → ℕ → ReadM (List ℕ)
  read_trimmed d byte_count =
      if ltb n byte_count
      then read_fails (λ e.
        fielded_error d (sized_error ReadErrorCode.invalid_size ReadStage.array n byte_count e))
      else (describing_read (staged_error d ReadStage.array) (read false byte_count) >>= λ bs.
          pure (bs ++ replicate (n - byte_count) 0))

  unfoldable pub read_bytes : Option Descriptor → ReadM (List ℕ)
  read_bytes d =
      describing_read (staged_error d ReadStage.array) (read_size_header ValueKind.bytes)
      >>= read_trimmed d

  unfoldable pub byte_array : Codec (List ℕ)
  byte_array = record {
    write = write_bytes;
    read = λ d old. check_read_limit ReadStage.array d n >>= λ _. read_bytes d;
    initial = replicate n 0;
  }

module _ {A : Type 0} (c : Codec A) (d : Option Descriptor) (total : ℕ) where
  -- for (i = index; i < N; ++i) { if (in.read_value(value[i]) == read_status::error) {…} }
  unfoldable pub read_into : ℕ → (n : ℕ) → Array A n → ReadM (Array A n)
  read_into index zero old = pure tt
  read_into index (suc n) (old, olds) =
      read_item c d total index old >>= λ x. read_into (index + 1) n olds >>= λ xs. pure (x, xs)

unfoldable pub array : {A : Type 0} → Codec A → (n : ℕ) → Codec (Array A n)
array c n = record {
  write = λ d value.
      check_write_limit WriteStage.array d n
      ⟫ describing_write (staged_error d WriteStage.array) (write_size_header ValueKind.array n)
      ⟫ write_items c d n 0 (items_of n value);
  read = λ d old. check_read_limit ReadStage.array d n >>= λ _.
      read_counted d ReadStage.array n >>= λ _. read_into c d n 0 n old;
  initial = filled n c.initial;
}

-- The value of the format: the bytes up to the last that is not 0.
abbrev pub trimmed_bytes : List ℕ → List ℕ
trimmed_bytes value = take (trim_trailing_zeros value (length value)) value

length-trimmed_bytes :
    (value : List ℕ) → length (trimmed_bytes value) ≡ trim_trailing_zeros value (length value)
length-trimmed_bytes value = omega (
  arith,
  length-take (trim_trailing_zeros value (length value)) value,
  (trim_trailing_zeros-lossless value).0,
)

Writes-trimmed :
    (n : ℕ) (value kept : List ℕ) (trimmed : ℕ)
    → take trimmed value ≡ kept
    → length kept ≡ trimmed
    → Writes (write_trimmed n value trimmed) kept
unfolding write_trimmed
Writes-trimmed n value [] zero e size failure o room = Writes-ok failure o room
Writes-trimmed n value (b ∷ kept) zero e size failure o room = absurd (omega arith)
Writes-trimmed n value kept (suc k) e size failure o room =
    rw (suc-==-zero k, e)
      (subst (λ t. Writes (write (Option.some kept) t) kept) size (Writes-bytes kept) failure o
        room)

Reads-trimmed :
    (n : ℕ) (d : Option Descriptor) (kept value : List ℕ) (trimmed : ℕ)
    → length kept ≡ trimmed
    → trimmed ≤ n
    → kept ++ replicate (n - trimmed) 0 ≡ value
    → Reads (read_trimmed n d trimmed) kept value
unfolding read_trimmed
Reads-trimmed n d kept value trimmed size fits whole failure consumed more =
    let m = describing_read (staged_error d ReadStage.array) (read false trimmed) in
    rw (le→ltb n trimmed fits) (
      subst (λ t. Reads (m >>= λ bs. pure (bs ++ replicate (n - trimmed) 0)) kept t) whole
        (Reads-map m (λ bs. bs ++ replicate (n - trimmed) 0) kept kept
          (Reads-describing (staged_error d ReadStage.array) (read false trimmed) kept kept
            (Reads-bytes trimmed kept size)))
        failure consumed more)

abbrev pub FitsBytes : ℕ → Option Descriptor → List ℕ → Type 0
FitsBytes n d value = (length value ≡ n) × (n < 2 ^ 64) × Within d n

-- An array of bytes goes as the bytes up to the last that is not 0, and is read back whole, with the
-- zeros that were left away.
pub byte_array-IsCodec :
    (n : ℕ) → IsCodec (byte_array n) (λ value. bytes (trimmed_bytes value)) (FitsBytes n)
byte_array-IsCodec n = record {
  writes = λ d value (size, small, limit).
      let kept = trimmed_bytes value in
      let count = length-trimmed_bytes value in
      let below = (trim_trailing_zeros-lossless value).0 in
      unfold byte_array write_bytes encode in
      (subst (λ k. Writes (write_bytes k d value) (encode_size 0x60 (length kept) ++ kept)) size
        (stores d value kept (trim_trailing_zeros value (length value)) count (omega arith) refl
          (subst (λ k. Within d k) (sym size) limit)));
  reads = λ d value old (size, small, limit).
      let kept = trimmed_bytes value in
      let count = length-trimmed_bytes value in
      let (below, whole) = trim_trailing_zeros-lossless value in
      unfold byte_array read_bytes encode in
      (Reads-limit_then ReadStage.array d n (read_bytes n d)
        (encode_size 0x60 (length kept) ++ kept) value limit
        (Reads-header_then (staged_error d ReadStage.array) ValueKind.bytes 0x60 (length kept)
          (read_trimmed n d) kept value Sized.bytes (omega arith)
          (Reads-trimmed n d kept value (length kept) refl (omega arith) (
            subst (λ k. kept ++ replicate (k - length kept) 0 ≡ value) size
              (subst (λ k. kept ++ replicate (length value - k) 0 ≡ value) (sym count) whole)))));
  is_value = λ d value (size, small, limit).
      let count = length-trimmed_bytes value in
      let below = (trim_trailing_zeros-lossless value).0 in unfold IsValue in omega arith;
}
  where
    stores :
        (d : Option Descriptor) (value kept : List ℕ) (trimmed : ℕ)
        → length kept ≡ trimmed
        → trimmed < 2 ^ 64
        → take trimmed value ≡ kept
        → Within d (length value)
        → Writes
            (check_write_limit WriteStage.array d (length value)
              ⟫ describing_write
                  (staged_error d WriteStage.array)
                  (write_size_header ValueKind.bytes trimmed)
              ⟫ describing_write
                  (staged_error d WriteStage.array)
                  (write_trimmed (length value) value trimmed))
            (encode_size 0x60 (length kept) ++ kept)
    stores d value kept trimmed size small e limit =
        let describe = staged_error d WriteStage.array in
        let body = describing_write describe (write_trimmed (length value) value trimmed) in
        rw size (
          Writes-limit_then WriteStage.array d (length value)
            (describing_write describe (write_size_header ValueKind.bytes trimmed) ⟫ body)
            (encode_size 0x60 trimmed ++ kept) limit
            (Writes-header_then describe ValueKind.bytes 0x60 trimmed body kept Sized.bytes small (
              Writes-describing describe (write_trimmed (length value) value trimmed) kept
                (Writes-trimmed (length value) value kept trimmed e size))))

length-items_of : (A : Type 0) (n : ℕ) (value : Array A n) → length (items_of n value) ≡ n
length-items_of A zero value = refl
length-items_of A (suc n) (x, xs) = omega (arith, length-items_of A n xs)

module _ {A : Type 0} (c : Codec A) (value_of : A → Value) (Fits : Option Descriptor → A → Type 0)
    (law : IsCodec c value_of Fits) where
  Reads-into :
      (d : Option Descriptor) (total index n : ℕ) (value old : Array A n)
      → All (Fits none) (items_of n value)
      → Reads
          (read_into c d total index n old)
          (encode_values (values_of value_of (items_of n value)))
          value
  unfolding read_into encode
  Reads-into d total index zero value old fits = Reads-pure tt
  Reads-into d total index (suc n) (x, xs) (old, olds) (fx, fxs) =
      let loop = read_into c d total (index + 1) n olds in
      Reads-bind (read_item c d total index old) (λ x. loop >>= λ xs. pure (x, xs))
        (encode (value_of x)) (encode_values (values_of value_of (items_of n xs))) x (x, xs)
        (Reads-item c value_of Fits law d total index x old fx)
        (Reads-map loop (λ xs. (x, xs)) (encode_values (values_of value_of (items_of n xs))) xs
          (Reads-into d total (index + 1) n xs olds fxs))

  abbrev pub FitsArray : (n : ℕ) → Option Descriptor → Array A n → Type 0
  FitsArray n d value = (n < 2 ^ 64) × Within d n × All (Fits none) (items_of n value)

  -- An array of other elements goes as an array of the format and is read back, where its elements keep
  -- their promise.
  pub array-IsCodec :
      (n : ℕ)
      → IsCodec
          (array c n)
          (λ value. array_value (values_of value_of (items_of n value)))
          (FitsArray n)
  array-IsCodec n = record {
    writes = λ d value (small, limit, fits).
        let items = items_of n value in
        let bs = encode_values (values_of value_of items) in
        let size : count (values_of value_of items) ≡ n =
          count-values_of value_of items ∙ length-items_of A n value in
        unfold array encode in
        (let describe = staged_error d WriteStage.array in
          rw size (
            Writes-limit_then WriteStage.array d n
              (describing_write describe (write_size_header ValueKind.array n)
                ⟫ write_items c d n 0 items)
              (encode_size 0x80 n ++ bs) limit
              (Writes-header_then describe ValueKind.array 0x80 n (write_items c d n 0 items) bs
                Sized.array small (Writes-items c value_of Fits law d n 0 items fits))));
    reads = λ d value old (small, limit, fits).
        let items = items_of n value in
        let bs = encode_values (values_of value_of items) in
        let size : count (values_of value_of items) ≡ n =
          count-values_of value_of items ∙ length-items_of A n value in
        let loop = read_into c d n 0 n old in
        unfold array encode in
        (rw size (
          Reads-limit_then ReadStage.array d n (read_counted d ReadStage.array n >>= λ _. loop)
            (encode_size 0x80 n ++ bs) value limit
            (Reads-bind (read_counted d ReadStage.array n) (λ _. loop) (encode_size 0x80 n) bs tt
              value (Reads-counted d ReadStage.array n small)
              (Reads-into d n 0 n value old fits))));
    is_value = λ d value (small, limit, fits).
        let items = items_of n value in
        let size : count (values_of value_of items) ≡ n =
          count-values_of value_of items ∙ length-items_of A n value in
        unfold IsValue in (rw size small, values-AreValues c value_of Fits law items fits);
  }
