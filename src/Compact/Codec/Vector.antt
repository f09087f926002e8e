-- ===== src/Compact/Codec/Vector.antt =====
-- compact/vector.hpp: `codec<std::vector<T>>`: a header with the number of elements, and the elements.
use contract.Prelude.{
  ℕ, zero, suc, ◌+◌, ◌-◌, ◌/◌, ◌^◌, ◌≤◌, ◌<◌, ◌≡◌, refl, Option, none, List, [], ◌∷◌, ◌++◌, arith,
  length, All,
}
use contract.Compact.Codes.{ValueKind, ReadStage, WriteStage}
use contract.Compact.Writer.{Writer, Status, ◌⟫◌, write_ok, describing_write, write_size_header}
use contract.Compact.Reader.{ReadM, pure, ◌>>=◌, describing_read, read_size_header, check_max_size}
use contract.Compact.Wire.{
  Value, array, Values, no_items, item, count, encode, encode_values, encode_size, IsValue,
  AreValues,
}
use contract.Compact.Steps.{
  Writes, Writes-ok, Writes-then, Writes-describing, Reads, Reads-bind, Reads-map, Reads-pure,
  Reads-describing,
}
use contract.Compact.Sizes.{Sized}
use contract.Compact.Codec.{
  Codec, Descriptor, staged_error, element_error, check_write_limit, check_read_limit, check_size,
}
use contract.Compact.Codec.Laws.{
  IsCodec, Within, Writes-limit_then, Reads-limit_then, Reads-size_then, Reads-max_size_then,
  Writes-header_then, Reads-header_then,
}

module _ {A : Type 0} (c : Codec A) (d : Option Descriptor) (total : ℕ) where
  -- for (i = index; …) { if (out.write_value(value[i]) == write_status::error) {…} }
  unfoldable pub write_items : ℕ → List A → Writer → Writer × Status
  write_items index [] = write_ok
  write_items index (x ∷ xs) =
      describing_write (element_error d WriteStage.array index total) (c.write none x)
      ⟫ write_items (index + 1) xs

  -- value_type item{}; if (in.read_value(item) == read_status::error) {…} with `old` for item
  unfoldable pub read_item : ℕ → A → ReadM A
  read_item index old =
      describing_read (element_error d ReadStage.array index total) (c.read none old)

  unfoldable pub read_items : ℕ → ℕ → ReadM (List A)
  unfolding read_item
  read_items index zero = pure []
  read_items index (suc left) =
      read_item index c.initial >>= λ x. read_items (index + 1) left >>= λ xs. pure (x ∷ xs)

-- `max_size()` of a std::vector of elements of the given size
abbrev pub vector_max_size : ℕ → ℕ
vector_max_size element_size = (2 ^ 63 - 1) / element_size

module _ {A : Type 0} (c : Codec A) (element_size : ℕ) where
  unfoldable pub write_vector : Option Descriptor → List A → Writer → Writer × Status
  write_vector d value =
      check_write_limit WriteStage.array d (length value)
      ⟫ describing_write (staged_error d WriteStage.array)
          (write_size_header ValueKind.array (length value))
      ⟫ write_items c d (length value) 0 value

  unfoldable pub read_vector_sized : Option Descriptor → ℕ → ReadM (List A)
  read_vector_sized d size = check_size d ReadStage.array size >>= λ _.
      check_read_limit ReadStage.array d size >>= λ _.
      check_max_size (vector_max_size element_size) size >>= λ _. read_items c d size 0 size

  unfoldable pub read_vector : Option Descriptor → ReadM (List A)
  read_vector d =
      describing_read (staged_error d ReadStage.array) (read_size_header ValueKind.array)
      >>= read_vector_sized d

  unfoldable pub vector : Codec (List A)
  vector = record { write = write_vector; read = λ d old. read_vector d; initial = [] }

abbrev pub values_of : {A : Type 0} → (A → Value) → List A → Values
values_of value_of [] = no_items
values_of value_of (x ∷ xs) = item (value_of x) (values_of value_of xs)

pub count-values_of :
    {A : Type 0} (value_of : A → Value) (xs : List A) → count (values_of value_of xs) ≡ length xs
count-values_of value_of [] = refl
count-values_of value_of (x ∷ xs) = omega (arith, count-values_of value_of xs)

module _ {A : Type 0} (c : Codec A) (value_of : A → Value) (Fits : Option Descriptor → A → Type 0)
    (law : IsCodec c value_of Fits) where
  pub Writes-items :
      (d : Option Descriptor) (total index : ℕ) (xs : List A)
      → All (Fits none) xs
      → Writes (write_items c d total index xs) (encode_values (values_of value_of xs))
  unfolding write_items encode
  Writes-items d total index [] fits = Writes-ok
  Writes-items d total index (x ∷ xs) (fx, fxs) =
      let describe = element_error d WriteStage.array index total in
      Writes-then (describing_write describe (c.write none x))
        (write_items c d total (index + 1) xs) (encode (value_of x))
        (encode_values (values_of value_of xs))
        (Writes-describing describe (c.write none x) (encode (value_of x)) (law.writes none x fx))
        (Writes-items d total (index + 1) xs fxs)

  pub Reads-item :
      (d : Option Descriptor) (total index : ℕ) (x old : A)
      → Fits none x
      → Reads (read_item c d total index old) (encode (value_of x)) x
  unfolding read_item
  Reads-item d total index x old fits =
      Reads-describing (element_error d ReadStage.array index total) (c.read none old)
        (encode (value_of x)) x (law.reads none x old fits)

  pub Reads-items :
      (d : Option Descriptor) (total index : ℕ) (xs : List A)
      → All (Fits none) xs
      → Reads (read_items c d total index (length xs)) (encode_values (values_of value_of xs)) xs
  unfolding read_items encode
  Reads-items d total index [] fits = Reads-pure []
  Reads-items d total index (x ∷ xs) (fx, fxs) =
      let loop = read_items c d total (index + 1) (length xs) in
      Reads-bind (read_item c d total index c.initial) (λ x. loop >>= λ xs. pure (x ∷ xs))
        (encode (value_of x)) (encode_values (values_of value_of xs)) x (x ∷ xs)
        (Reads-item d total index x c.initial fx)
        (Reads-map loop (λ xs. x ∷ xs) (encode_values (values_of value_of xs)) xs
          (Reads-items d total (index + 1) xs fxs))

  pub values-AreValues : (xs : List A) → All (Fits none) xs → AreValues (values_of value_of xs)
  unfolding IsValue
  values-AreValues [] fits = tt
  values-AreValues (x ∷ xs) (fx, fxs) = (law.is_value none x fx, values-AreValues xs fxs)

  abbrev pub FitsVector : ℕ → Option Descriptor → List A → Type 0
  FitsVector element_size d xs =
      (length xs ≤ vector_max_size element_size)
      × (length xs < 2 ^ 63)
      × Within d (length xs)
      × All (Fits none) xs

  -- A vector goes as an array of the format, its elements in their order, and is read back, where its
  -- elements keep their promise.
  pub vector-IsCodec :
      (element_size : ℕ)
      → IsCodec
          (vector c element_size)
          (λ xs. array (values_of value_of xs))
          (FitsVector element_size)
  vector-IsCodec element_size = record {
    writes = λ d xs (room, small, limit, fits).
        unfold vector write_vector encode in
        (let n = length xs in
          let bytes = encode_values (values_of value_of xs) in
          rw (count-values_of value_of xs) (
            Writes-limit_then WriteStage.array d n
              (describing_write (staged_error d WriteStage.array)
                  (write_size_header ValueKind.array n)
                ⟫ write_items c d n 0 xs)
              (encode_size 0x80 n ++ bytes) limit
              (Writes-header_then (staged_error d WriteStage.array) ValueKind.array 0x80 n
                (write_items c d n 0 xs) bytes Sized.array (omega arith)
                (Writes-items d n 0 xs fits))));
    reads = λ d xs old (room, small, limit, fits).
        unfold vector read_vector read_vector_sized encode in
        (let n = length xs in
          let bytes = encode_values (values_of value_of xs) in
          let loop = read_items c d n 0 n in
          let checked = check_max_size (vector_max_size element_size) n >>= λ _. loop in
          rw (count-values_of value_of xs) (
            Reads-header_then (staged_error d ReadStage.array) ValueKind.array 0x80 n
              (read_vector_sized c element_size d) bytes xs Sized.array (omega arith)
              (Reads-size_then d ReadStage.array n
                (check_read_limit ReadStage.array d n >>= λ _. checked) bytes xs (omega arith)
                (Reads-limit_then ReadStage.array d n checked bytes xs limit (
                  Reads-max_size_then (vector_max_size element_size) n loop bytes xs room
                    (Reads-items d n 0 xs fits))))));
    is_value = λ d xs (room, small, limit, fits).
        unfold IsValue in
        (rw (count-values_of value_of xs) (omega arith), values-AreValues xs fits);
  }
