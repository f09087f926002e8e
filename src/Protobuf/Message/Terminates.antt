-- ===== src/Protobuf/Message/Terminates.antt =====
-- Whatever stands ahead, `read_message` of protobuf.hpp comes to an end, however its messages nest: each
-- round takes a byte at least, so that the bytes ahead are enough fuel.
use Prim.Native.String.{String}
use contract.Prelude.{
  ℕ, zero, suc, ◌-◌, ◌<◌, ◌≡◌, ◌≢◌, ap, Bool, true, false, Bool-cases, inl, inr, none, some, List,
  [], ◌∷◌, arith, ◌==◌, length, length-take,
}
use contract.Io.Window.{peek}
use contract.Io.Window.Laws.{peek-eq-take}
use contract.Protobuf.Codes.{WireType}
use contract.Protobuf.Reader.{
  Reader, Outcome, done, error, out_of_fuel, ◌>>=◌, next_read, pure, read_fails, read_varint,
  parse_tag, read_tag, read_view,
}
use contract.Protobuf.Scalar.{described_read, value_error, extend}
use contract.Protobuf.Message.{
  Field, key_error, typed_error, zero_error, unknown_error, read_field_error, find_field, read_slot,
  read_field, read_found, read_numbered, read_round, read_rounds, read_message, nested_outcome,
  read_nested, read_message_field, message,
}
use contract.Protobuf.Ends.{
  bytes_left, Ends, Total, Ends-le, Ends-fails, Ends-described, Ends-next, Total-if,
  Total-describing, Total-expected, Total-bind, Total-map, Ends-varint, Total-varint, Total-view,
  Finite,
}

module _ {O : Type 0} where
  abbrev pub AllFinite : List (Field O) → Type 0
  AllFinite [] = Unit {0}
  AllFinite (f ∷ fs) = Finite f.codec × AllFinite fs

  -- A message is read to its end.
  abbrev Exhausts : Reader × Outcome O → Type 0
  Exhausts (r, out_of_fuel) = ⊥
  Exhausts (r, done o) = bytes_left r ≡ 0
  Exhausts (r, error) = Unit {0}

  Total-slot :
      (direct : Bool) (f : Field O) (wire : WireType) (o : O)
      → Finite f.codec
      → Total (read_slot direct f wire o)
  unfolding read_slot
  Total-slot true f wire o h = h f.info wire (f.get o)
  Total-slot false f wire o h =
      Total-describing (read_field_error f.info) (f.codec.read_with f.info wire f.codec.initial)
        (h f.info wire f.codec.initial)

  Total-found :
      (name : String) (number : ℕ) (wire : WireType) (f : Field O) (o : O)
      → Finite f.codec
      → Total (read_found name number wire (some f) o)
  unfolding read_found read_field
  Total-found name number wire f o h =
      Total-describing (typed_error name) (read_field f wire o)
        (Total-map (read_slot f.direct f wire o) (λ v. f.set v o) (Total-slot f.direct f wire o h))

  Total-dispatch :
      (name : String) (number key : ℕ) (wire : WireType) (fs : List (Field O)) (o : O)
      → AllFinite fs
      → Total (read_found name number wire (find_field fs key) o)
  unfolding find_field
  Total-dispatch name number key wire [] o finite =
      unfold read_found in λ r. Ends-fails O (bytes_left r) (unknown_error name number wire) r
  Total-dispatch name number key wire (f ∷ fs) o (h, finite) =
      elim (Bool-cases (extend f.id == key)) [
        | inl same ↦ rw same (Total-found name number wire f o h)
        | inr other ↦ rw other (Total-dispatch name number key wire fs o finite)
      ]

  module _ (name : String) (fs : List (Field O)) (finite : AllFinite fs) where
    Total-numbered : (o : O) (tag : ℕ × WireType) → Total (read_numbered name fs o tag)
    unfolding read_numbered
    Total-numbered o (number, wire) =
        Total-if (number == 0) (read_fails (zero_error name wire))
          (read_found name number wire (find_field fs number) o)
          (λ r. Ends-fails O (bytes_left r) (zero_error name wire) r)
          (Total-dispatch name number number wire fs o finite)

    -- A round that succeeds has taken a byte.
    Ends-round : (o : O) (r : Reader) → Ends (bytes_left r - 1) (read_round name fs o r)
    unfolding read_round read_tag
    Ends-round o r =
        let n = bytes_left r - 1 in
        let tag = next_read (λ key. pure (parse_tag key)) (read_varint r) in
        Ends-next n (read_numbered name fs o) (described_read (key_error name) tag)
          (Ends-described n (key_error name) tag (
            Ends-next n (λ key. pure (parse_tag key)) (read_varint r) (Ends-varint r)
              (λ key r' le. le)))
          (λ t r' le.
            Ends-le (bytes_left r') n (read_numbered name fs o t r') le (Total-numbered o t r'))

    Exhausts-next :
        (n fuel : ℕ) (p : Reader × Outcome O)
        → Ends n p
        → n < fuel
        → ((o : O) (r : Reader) → bytes_left r < fuel → Exhausts (read_rounds name fs fuel o r))
        → Exhausts (next_read (read_rounds name fs fuel) p)
    Exhausts-next n fuel (r, done o) h lt g = g o r (omega arith)
    Exhausts-next n fuel (r, error) h lt g = tt
    Exhausts-next n fuel (r, out_of_fuel) h lt g = absurd h

    rounds-Exhausts :
        (fuel : ℕ) (o : O) (r : Reader)
        → bytes_left r < fuel
        → Exhausts (read_rounds name fs fuel o r)
    unfolding read_rounds
    rounds-Exhausts zero o r lt = absurd (omega arith)
    rounds-Exhausts (suc fuel) o r lt = elim (Bool-cases (length (peek r.input 1) == 0)) [
      | inl ended ↦
          let seen = ap length (peek-eq-take r.input 1) in
          let size = length-take 1 r.input.rest in rw ended (ground arith)
      | inr more ↦
          let seen = ap length (peek-eq-take r.input 1) in
          let size = length-take 1 r.input.rest in
          rw more (
            Exhausts-next (bytes_left r - 1) fuel (read_round name fs o r) (Ends-round o r)
              (ground arith) (rounds-Exhausts fuel))
    ]

    message-Exhausts : (o : O) (r : Reader) → Exhausts (read_message name fs o r)
    unfolding read_message
    message-Exhausts o r =
        rounds-Exhausts (suc (length r.input.rest)) o (record r { failure = none }) (omega arith)

    Ends-nested :
        (size : ℕ) (r : Reader) (p : Reader × Outcome O)
        → Exhausts p
        → Ends (bytes_left r) (nested_outcome size r p)
    unfolding nested_outcome
    Ends-nested size r (nested, done o) h = omega arith
    Ends-nested size r (nested, error) h = Ends-fails O (bytes_left r) _ r
    Ends-nested size r (nested, out_of_fuel) h = absurd h

    -- A nested message is read to an end too, so that messages nest.
    pub message-Finite : (initial : O) → Finite (message name fs initial)
    unfolding message read_message_field read_nested
    message-Finite initial info wire old =
        Total-expected WireType.length_delimited wire info (value_error info wire)
          (read_varint >>= λ size. read_view size >>= read_nested name fs old)
          (Total-bind read_varint (λ size. read_view size >>= read_nested name fs old) Total-varint
            (λ size.
              Total-bind (read_view size) (read_nested name fs old) (Total-view size) (λ bytes r.
                Ends-nested (length bytes) r
                  (read_message name fs old
                    (record { input = record { consumed = 0; rest = bytes }; failure = none }))
                  (message-Exhausts old _))))

    -- On any input `read_message` ends, if the reads of its fields end: it succeeds or reports an error, and
    -- where it succeeds no byte of the input is left.
    pub read_message-ends :
        (o : O) (r : Reader)
        → let (r', outcome) = read_message name fs o r in
          (outcome ≢ out_of_fuel) × ((o' : O) → outcome ≡ done o' → bytes_left r' ≡ 0)
    read_message-ends o r = told (read_message name fs o r) (message-Exhausts o r)
      where
        told :
            (p : Reader × Outcome O)
            → Exhausts p
            → (p.1 ≢ out_of_fuel) × ((o' : O) → p.1 ≡ done o' → bytes_left p.0 ≡ 0)
        told (r', done o') h = (λ e. ground arith, λ _ _. h)
        told (r', error) h = (λ e. ground arith, λ _ e. ground arith)
        told (r', out_of_fuel) h = absurd h
