-- ===== src/Protobuf/Unterminated.antt =====
-- Input of protobuf.hpp in which no byte ends the varint.
use Prim.Native.Nat.{bit_and, bit_or}
use mathlib.Core.Path.{subst}
use mathlib.Core.List.{append-nil}
use contract.Prelude.{
  sym, ◌⊎◌, ltb, if◌then◌else◌, ℕ, zero, suc, ◌+◌, ◌*◌, ◌^◌, ◌%◌, ◌≤◌, ◌<◌, ◌≡◌, refl, ap, ◌∙◌,
  false, Bool-cases, inl, inr, none, some, List, [], ◌∷◌, ◌++◌, arith, lt→ltb, ◌==◌, length, take,
  take-length, All, bit_and_top, word,
}
use contract.Io.Window.{peek}
use contract.Io.Window.Laws.{peek-eq-take}
use contract.Error.{keep_first, set_code, set_sizes, set_offset}
use contract.Protobuf.Codes.{ReadErrorCode, new_error, sized_error}
use contract.Protobuf.Varint.{scan_varint}
use contract.Protobuf.Reader.{
  Reader, Outcome, ReadError, read_fails, current_read_error, read_varint, scanned,
}

-- A byte with its top bit set says that another follows.
abbrev pub Continues : ℕ → Type 0
Continues b = (128 ≤ b) × (b < 256)

scan_varint-unterminated :
    (bytes : List ℕ) (shift value i : ℕ)
    → All Continues bytes
    → scan_varint bytes shift value i ≡ none
unfolding scan_varint
scan_varint-unterminated [] shift value i h = refl
scan_varint-unterminated (b ∷ bytes) shift value i ((low, high), h) =
    let goes_on : (bit_and b 0x80 == 0) ≡ false = ground (arith, bit_and_top b high) in
    rw goes_on (
      scan_varint-unterminated bytes (shift + 7) (bit_or value (bit_and b 0x7f * 2 ^ shift % word))
        (i + 1) h)

-- The error of a wire reader that had none: a code and two sizes, at a position.
abbrev pub wire_refusal : ReadErrorCode → ℕ → ℕ → ℕ → ReadError
wire_refusal code position expected actual = record {
  base = record {
    code = code;
    type_name = none;
    field = none;
    stage = none;
    offset = some position;
    element_index = none;
    element_total = none;
    expected_size = some expected;
    actual_size = some actual;
  };
  wire_field_number = none;
  wire = none;
  expected_wire = none;
}

first_error :
    (code : ReadErrorCode) (expected actual : ℕ) (r : Reader)
    → r.failure ≡ none
    → read_fails {A = ℕ} (sized_error code expected actual) r ≡ (
      record r { failure = some (wire_refusal code r.input.consumed expected actual) },
      Outcome.error,
    )
unfolding read_fails current_read_error new_error sized_error set_code set_sizes set_offset
    keep_first
first_error code expected actual r clear = rw clear refl

-- Where fewer than 10 bytes are left and every one of them says that another follows, `read_varint`
-- takes nothing and fails with truncated; the sizes are 10 and the number of bytes left, and the offset is
-- the position.
pub short_varint-refused :
    (r : Reader)
    → All Continues r.input.rest
    → length r.input.rest < 10
    → r.failure ≡ none
    → read_varint r ≡ (
      record r {
        failure =
            some (wire_refusal ReadErrorCode.truncated r.input.consumed 10 (length r.input.rest));
      },
      Outcome.error,
    )
unfolding read_varint
short_varint-refused r h short clear =
    let seen : peek r.input 10 ≡ r.input.rest =
      peek-eq-take r.input 10 ∙ take_short 10 r.input.rest (omega arith) in
    rw seen (elim (Bool-cases (length r.input.rest == 0)) [
      | inl empty ↦
          let nothing : length r.input.rest ≡ 0 = ground arith in
          rw nothing (first_error ReadErrorCode.truncated 10 0 r clear)
      | inr left ↦
          rw (left, scan_varint-unterminated r.input.rest 0 0 0 h)
            (unfold scanned in
              rw (lt→ltb (length r.input.rest) 10 short)
                (first_error ReadErrorCode.truncated 10 (length r.input.rest) r clear))
    ])
  where
    take_short : (n : ℕ) (xs : List ℕ) → length xs ≤ n → take n xs ≡ xs
    take_short zero [] h = refl
    take_short zero (x ∷ xs) h = absurd (omega arith)
    take_short (suc n) [] h = refl
    take_short (suc n) (x ∷ xs) h = ap (λ t. x ∷ t) (take_short n xs (omega arith))

-- Where 10 bytes or more are left and each of the next 10 says that another follows, `read_varint` takes
-- nothing and fails with invalid_varint; both sizes are 10, and the offset is the position.
pub long_varint-refused :
    (r : Reader) (ten more : List ℕ)
    → r.input.rest ≡ ten ++ more
    → length ten ≡ 10
    → All Continues ten
    → r.failure ≡ none
    → read_varint r ≡ (
      record r {
        failure = some (wire_refusal ReadErrorCode.invalid_varint r.input.consumed 10 10);
      },
      Outcome.error,
    )
unfolding read_varint
long_varint-refused r ten more e size h clear =
    let seen : peek r.input 10 ≡ ten =
      peek-eq-take r.input 10 ∙ ap (take 10) e ∙ take-length 10 ten more size in
    rw (seen, size, scan_varint-unterminated ten 0 0 0 h)
      (unfold scanned in first_error ReadErrorCode.invalid_varint 10 10 r clear)

-- What `read_varint` makes of that many bytes that all say that another follows.
abbrev pub unterminated_code : ℕ → ReadErrorCode
unterminated_code n = if ltb n 10 then ReadErrorCode.truncated else ReadErrorCode.invalid_varint

-- Where every byte that is left says that another follows and they are fewer than 10, or 10 bytes or more are
-- left and each of the next 10 says so, `read_varint` takes nothing and fails: with truncated in the
-- first case and invalid_varint in the second. The sizes are 10 and the number of those bytes, which is
-- 10 in the second case, and the offset is the position.
pub unterminated-refused :
    (r : Reader) (front more : List ℕ)
    → r.input.rest ≡ front ++ more
    → All Continues front
    → ((length front < 10) × (more ≡ [])) ⊎ (length front ≡ 10)
    → r.failure ≡ none
    → read_varint r ≡ (
      record r {
        failure =
            some
              (wire_refusal (unterminated_code (length front)) r.input.consumed 10 (length front));
      },
      Outcome.error,
    )
unterminated-refused r front more e h (inl (short, last)) clear =
    let whole : r.input.rest ≡ front = e ∙ ap (λ t. front ++ t) last ∙ append-nil front in
    rw (lt→ltb (length front) 10 short) (
      short_varint-refused r (subst (All Continues) (sym whole) h) (rw whole short) clear
      ∙ ap
          (λ t. (
            record r {
              failure = some (wire_refusal ReadErrorCode.truncated r.input.consumed 10 (length t));
            },
            Outcome.error,
          ))
          whole)
unterminated-refused r front more e h (inr ten) clear =
    rw ten (long_varint-refused r front more e ten h clear)
