-- ===== src/Compact/Operators.antt =====
-- `operator<<` and `operator>>` of compact.hpp over windows, and what is received of what was sent.
use native.Mathlib.Nat.{zero-add}
use contract.Prelude.{ℕ, ◌≤◌, ◌≡◌, refl, ap, ◌∙◌, Option, none, some, List, [], ◌++◌, length}
use contract.Error.{fresh}
use contract.Compact.Codes.{ReadErrorCode, WriteErrorCode}
use contract.Compact.Writer.{Writer, Status, ok, error, WriteError}
use contract.Compact.Reader.{Reader, Outcome, done, length_error, out_of_fuel, ReadError}
use contract.Compact.Wire.{Value, encode}
use contract.Compact.Steps.{over, at}
use contract.Compact.Codec.{Codec, Descriptor}
use contract.Compact.Codec.Laws.{IsCodec}

-- writer{data, size} and reader{data, size}
unfoldable pub writer_over : List ℕ → Writer
writer_over free = over none (record { written = []; free = free })

unfoldable pub reader_over : List ℕ → Reader
reader_over bytes = at none 0 bytes

-- if (… == write_status::error) { throw std::runtime_error(error_message()); }
-- What is thrown is given by the error that the message is made of: error_ or write_error{}.
unfoldable pub thrown_write : Writer × Status → Writer × Option WriteError
thrown_write (w, ok) = (w, none)
thrown_write (w, error) =
    (w, some (elim w.failure [ none ↦ fresh WriteErrorCode.unknown | some e ↦ e ]))

-- What `operator>>` comes to: the value read, a std::runtime_error, or the std::length_error of a
-- container. `unfinished` stands for a loop of the model without fuel.
pub data Received (A : Type 0) : Type 0 where
  value : A → Received A
  failed : ReadError → Received A
  too_long : Received A
  unfinished : Received A

module _ {A : Type 0} where
  unfoldable pub shift_out : Codec A → A → Writer → Writer × Option WriteError
  shift_out c v w = thrown_write (c.write none v (record w { failure = none }))

  unfoldable pub thrown_read : Reader × Outcome A → Reader × Received A
  thrown_read (r, done a) = (r, Received.value a)
  thrown_read (r, Outcome.error) =
      (r, Received.failed (elim r.failure [ none ↦ fresh ReadErrorCode.unknown | some e ↦ e ]))
  thrown_read (r, length_error) = (r, Received.too_long)
  thrown_read (r, out_of_fuel) = (r, Received.unfinished)

  unfoldable pub shift_in : Codec A → A → Reader → Reader × Received A
  shift_in c old r = thrown_read (c.read none old (record r { failure = none }))

module _ {A : Type 0} (c : Codec A) (value_of : A → Value) (Fits : Option Descriptor → A → Type 0)
    (law : IsCodec c value_of Fits) where
  pub shift_out-stores :
      (v : A) (free : List ℕ) (earlier : Option WriteError)
      → Fits none v
      → length (encode (value_of v)) ≤ length free
      → let (w, thrown) = shift_out c v (record (writer_over free) { failure = earlier }) in
        (thrown ≡ none) × (w.failure ≡ none) × (w.out.written ≡ encode (value_of v))
  unfolding shift_out writer_over
  shift_out-stores v free earlier fits room =
      rw (law.writes none v fits none (record { written = []; free = free }) room)
        (unfold thrown_write in (refl, refl, refl))

  pub shift_in-finds :
      (v old : A) (bytes more : List ℕ) (earlier : Option ReadError)
      → Fits none v
      → bytes ≡ encode (value_of v)
      → shift_in c old (record (reader_over (bytes ++ more)) { failure = earlier })
        ≡ (at none (length bytes) more, Received.value v)
  unfolding shift_in reader_over thrown_read
  shift_in-finds v old bytes more earlier fits e = rw e (
      ap thrown_read (law.reads none v old fits none 0 more)
      ∙ ap (λ n. (at none n more, Received.value v)) (zero-add (length (encode (value_of v)))))
