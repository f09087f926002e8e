-- ===== src/Protobuf/Overrun.antt =====
-- A write of protobuf.hpp that the window has no room for.
use mathlib.Core.List.{append-nil}
use contract.Prelude.{
  ℕ, suc, ◌-◌, ◌<◌, ◌≡◌, refl, sym, ap, ap₂, ◌∙◌, false, Bool-cases, inl, inr, none, some, List, [],
  ◌∷◌, ◌++◌, arith, ◌==◌, suc-==-zero, length, length-take, length-drop, take, drop, drop_all,
}
use contract.Error.{keep_first, set_code, set_sizes, set_offset}
use contract.Io.Window.{WindowOutput, prepare, fill, commit, output_position}
use contract.Protobuf.Codes.{WriteErrorCode, new_error, sized_error}
use contract.Protobuf.Writer.{
  Writer, Status, WriteError, window, store_window, write_windows, windows_written, write_bytes,
  write_fails, current_write_error, target_position,
}
use contract.Io.Window.Stored.{commit-fill}

-- The output filled with the front of the bytes.
abbrev pub filled : WindowOutput → List ℕ → WindowOutput
filled o bytes = record { written = o.written ++ take (length o.free) bytes; free = [] }

-- With none free nothing is stored.
unfilled : (o : WindowOutput) (bytes : List ℕ) → length o.free ≡ 0 → o ≡ filled o bytes
unfilled o bytes full =
    ap₂ (λ t u. record { written = t; free = u })
      (sym (append-nil o.written) ∙ ap (λ k. o.written ++ take k bytes) (sym full))
      (nothing o.free full)
  where
    nothing : (xs : List ℕ) → length xs ≡ 0 → xs ≡ []
    nothing [] h = refl
    nothing (x ∷ xs) h = absurd (omega arith)

-- The error of a write that was cut off: at a position, with two sizes.
abbrev pub overrun_error : ℕ → ℕ → ℕ → WriteError
overrun_error position expected actual = record {
  base = record {
    code = WriteErrorCode.output_error;
    type_name = none;
    field = none;
    stage = none;
    offset = some position;
    element_index = none;
    element_total = none;
    expected_size = some expected;
    actual_size = some actual;
  };
  wire_field_number = none;
  wire = none;
  expected_wire = none;
}

prepare-full : (o : WindowOutput) (n : ℕ) → length o.free ≡ 0 → prepare o n ≡ 0
unfolding prepare
prepare-full o n full = ground arith

prepare-short :
    (o : WindowOutput) (n : ℕ) → 0 < length o.free → length o.free < n → prepare o n ≡ length o.free
unfolding prepare
prepare-short o n some_free short = ground arith

write_windows-full :
    (fuel size : ℕ) (o : WindowOutput) (bytes : List ℕ)
    → length o.free ≡ 0
    → 0 < length bytes
    → write_windows (suc fuel) size o bytes ≡ (o, some (size - length bytes))
unfolding write_windows
write_windows-full fuel size o [] full pos = absurd (omega arith)
write_windows-full fuel size o (b ∷ bytes) full pos =
    rw (prepare-full o (length (b ∷ bytes)) full) refl

store_window-short :
    (o : WindowOutput) (bytes : List ℕ)
    → 0 < length o.free
    → length o.free < length bytes
    → store_window o bytes (length o.free) ≡ filled o bytes
unfolding store_window
store_window-short o bytes some_free short =
    let n = length o.free in
    let front = take n bytes in
    let size : length front ≡ n = omega (arith, length-take n bytes) in
    ap (commit (fill o front)) (sym size)
    ∙ commit-fill o front (omega arith)
    ∙ ap (λ t. record { written = o.written ++ front; free = t })
        (ap (λ k. drop k o.free) size ∙ drop_all n o.free refl)

write_windows-lent :
    (fuel size : ℕ) (o : WindowOutput) (bytes : List ℕ) (n : ℕ)
    → 0 < length bytes
    → prepare o (length bytes) ≡ n
    → (n == 0) ≡ false
    → write_windows (suc fuel) size o bytes
      ≡ write_windows fuel size (store_window o bytes n) (drop n bytes)
unfolding write_windows
write_windows-lent fuel size o [] n pos e p = absurd (omega arith)
write_windows-lent fuel size o (b ∷ bytes) n pos e p = rw (e, p) refl

write_windows-short :
    (fuel size : ℕ) (o : WindowOutput) (bytes : List ℕ)
    → 0 < length o.free
    → length o.free < length bytes
    → write_windows (suc (suc fuel)) size o bytes
      ≡ (filled o bytes, some (size - (length bytes - length o.free)))
write_windows-short fuel size o bytes some_free short =
    let n = length o.free in
    let left : length (drop n bytes) ≡ length bytes - n = length-drop n bytes in
    let positive : (n == 0) ≡ false = ground arith in
    write_windows-lent (suc fuel) size o bytes n (omega arith)
      (prepare-short o (length bytes) some_free short) positive
    ∙ ap (λ t. write_windows (suc fuel) size t (drop n bytes))
        (store_window-short o bytes some_free short)
    ∙ write_windows-full fuel size (filled o bytes) (drop n bytes) refl (omega arith)
    ∙ ap (λ k. (filled o bytes, some (size - k))) left

-- Whether some bytes are free or none, the loop fills the window and reports how many it wrote.
write_windows-overrun :
    (o : WindowOutput) (bytes : List ℕ)
    → length o.free < length bytes
    → write_windows (length bytes) (length bytes) o bytes ≡ (filled o bytes, some (length o.free))
write_windows-overrun o [] short = absurd (omega arith)
write_windows-overrun o (b ∷ []) short =
    let full : length o.free ≡ 0 = omega arith in
    write_windows-full 0 1 o (b ∷ []) full (omega arith)
    ∙ ap₂ (λ t k. (t, some k)) (unfilled o (b ∷ []) full) (omega arith)
write_windows-overrun o (b ∷ c ∷ bytes) short = elim (Bool-cases (length o.free == 0)) [
  | inl full ↦
      let none_free : length o.free ≡ 0 = ground arith in
      write_windows-full (suc (length bytes)) (length (b ∷ c ∷ bytes)) o (b ∷ c ∷ bytes) none_free
        (omega arith)
      ∙ ap₂ (λ t k. (t, some k)) (unfilled o (b ∷ c ∷ bytes) none_free) (omega arith)
  | inr lent ↦
      write_windows-short (length bytes) (length (b ∷ c ∷ bytes)) o (b ∷ c ∷ bytes) (ground arith)
        short
      ∙ ap (λ k. (filled o (b ∷ c ∷ bytes), some k)) (omega arith)
]

first_write_error :
    (o : WindowOutput) (expected actual : ℕ) (w : Writer)
    → w.failure ≡ none
    → write_fails
        (sized_error WriteErrorCode.output_error expected actual)
        (record w { out = window o })
      ≡ (
        record w {
          out = window o;
          failure = some (overrun_error (length o.written) expected actual);
        },
        Status.error,
      )
unfolding write_fails current_write_error target_position output_position new_error sized_error
    set_code set_sizes set_offset keep_first
first_write_error o expected actual w clear = rw clear refl

-- Writing more bytes than the window has free fills it with the front of them, and fails with
-- output_error; the sizes are the number of bytes and how many of them were written, and the offset of
-- a writer that had no error is the end of the window.
pub overrun-refused :
    (bytes : List ℕ) (o : WindowOutput) (w : Writer)
    → length o.free < length bytes
    → w.failure ≡ none
    → write_bytes bytes (record w { out = window o }) ≡ (
      record w {
        out = window (filled o bytes);
        failure =
            some (overrun_error (length (filled o bytes).written) (length bytes) (length o.free));
      },
      Status.error,
    )
unfolding write_bytes
overrun-refused [] o w short clear = absurd (omega arith)
overrun-refused (b ∷ bytes) o w short clear = rw suc-==-zero (
    ap (windows_written (length (b ∷ bytes)) (record w { out = window o }))
      (write_windows-overrun o (b ∷ bytes) short)
    ∙ (unfold windows_written in
        first_write_error (filled o (b ∷ bytes)) (length (b ∷ bytes)) (length o.free) w clear))
