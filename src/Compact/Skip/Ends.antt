-- ===== src/Compact/Skip/Ends.antt =====
-- Steps of the compact reader that come to an end with no more bytes ahead than before.
use contract.Prelude.{
  ℕ, suc, ◌+◌, ◌≤◌, ◌≡◌, refl, ap, ◌∙◌, Bool, true, false, List, [], ◌∷◌, arith, ltb, ◌==◌,
  if◌then◌else◌, length, length-drop, take, of_bytes,
}
use contract.Compact.Codes.{ReadErrorCode, ReadStage, coded_error}
use contract.Io.Window.{peek, consume}
use contract.Io.Window.Laws.{consume-eq-drop, peek-eq-take}
use contract.Compact.Reader.{
  Reader, ReadError, Outcome, done, error, length_error, out_of_fuel, ReadM, pure, ◌>>=◌, next_read,
  read_fails, described_read, byte_of_view, peek_byte, read_byte, read_window, read, payload_count,
  read_payload, read_uint_header, uint_of_view, read_uint,
}
use contract.Compact.Steps.{at, Reads-byte}

abbrev pub bytes_left : Reader → ℕ
bytes_left r = length r.input.rest

-- A step that ends, with no more bytes left than there were, where at most n were left.
abbrev pub Ends {ℓ} : {A : Type ℓ} → ℕ → Reader × Outcome A → Type 0
Ends n (r, out_of_fuel) = ⊥
Ends n (r, done a) = bytes_left r ≤ n
Ends n (r, error) = bytes_left r ≤ n
Ends n (r, length_error) = bytes_left r ≤ n

abbrev pub Total {ℓ} : {A : Type ℓ} → ℕ → ReadM A → Type 0
Total n m = (r : Reader) → bytes_left r ≤ n → Ends n (m r)

pub Ends-le {ℓ} : {A : Type ℓ} (n m : ℕ) (p : Reader × Outcome A) → n ≤ m → Ends n p → Ends m p
Ends-le n m (r, done a) le h = omega arith
Ends-le n m (r, error) le h = omega arith
Ends-le n m (r, length_error) le h = omega arith
Ends-le n m (r, out_of_fuel) le h = h

module _ {ℓ κ} {A : Type ℓ} {B : Type κ} where
  Ends-next :
      (n : ℕ) (k : A → ReadM B) (p : Reader × Outcome A)
      → Ends n p
      → ((a : A) → Total n (k a))
      → Ends n (next_read k p)
  Ends-next n k (r, done a) h g = g a r h
  Ends-next n k (r, error) h g = h
  Ends-next n k (r, length_error) h g = h
  Ends-next n k (r, out_of_fuel) h g = absurd h

  pub Total-bind :
      (n : ℕ) (m : ReadM A) (k : A → ReadM B)
      → Total n m
      → ((a : A) → Total n (k a))
      → Total n (m >>= k)
  Total-bind n m k h g r le = Ends-next n k (m r) (h r le) g

pub Total-fails {ℓ} :
    (A : Type ℓ) (n : ℕ) (describe : ReadError → ReadError) → Total n (read_fails {A = A} describe)
unfolding read_fails
Total-fails A n describe r le = le

module _ {ℓ} {A : Type ℓ} where
  pub Total-pure : (n : ℕ) (a : A) → Total n (pure a)
  Total-pure n a r le = le

  pub Total-if :
      (n : ℕ) (b : Bool) (m k : ReadM A) → Total n m → Total n k → Total n (if b then m else k)
  Total-if n true m k h g = h
  Total-if n false m k h g = g

  Ends-if :
      (n : ℕ) (b : Bool) (p q : Reader × Outcome A)
      → Ends n p
      → Ends n q
      → Ends n (if b then p else q)
  Ends-if n true p q h g = h
  Ends-if n false p q h g = g

  pub Ends-described :
      (n : ℕ) (describe : ReadError → ReadError) (p : Reader × Outcome A)
      → Ends n p
      → Ends n (described_read describe p)
  Ends-described n describe (r, done a) h = h
  Ends-described n describe (r, error) h = Total-fails A n describe r h
  Ends-described n describe (r, length_error) h = h
  Ends-described n describe (r, out_of_fuel) h = absurd h

  Ends-consume :
      (n k : ℕ) (a : A) (r : Reader)
      → bytes_left r ≤ n
      → Ends n (record r { input = consume r.input k }, done a)
  Ends-consume n k a r le =
      let shorter : length (consume r.input k).rest ≤ length r.input.rest =
        rw (consume-eq-drop r.input k) (omega (arith, length-drop k r.input.rest)) in
      omega arith

pub Total-window : (n k : ℕ) → Total n (read_window k)
unfolding read_window
Total-window n k r le =
    let view = peek r.input k in
    Ends-if n (length view == k) (record r { input = consume r.input k }, done view)
      (read_fails _ r) (Ends-consume n k view r le) (Total-fails (List ℕ) n _ r le)

pub Total-read : (n k : ℕ) → Total n (read false k)
unfolding read
Total-read n k r le = Ends-if n (k == 0) (r, done []) (read_window k r) le (Total-window n k r le)

Total-payload : (n k : ℕ) (payload : List ℕ) → Total n (read_payload k payload)
unfolding read_payload
Total-payload n k payload r le =
    let value : ℕ = of_bytes (take k payload) in
    Ends-if n (ltb (length payload) k) (read_fails _ r)
      (record r { input = consume r.input (1 + k) }, done value) (Total-fails ℕ n _ r le)
      (Ends-consume {A = ℕ} n (1 + k) value r le)

Total-uint_header : (n header : ℕ) (payload : List ℕ) → Total n (read_uint_header header payload)
unfolding read_uint_header
Total-uint_header n header payload r le = ground (
  arith,
  Ends-consume {A = ℕ} n 1 header r le,
  Total-payload n (payload_count header) payload r le,
  Total-fails ℕ n (coded_error ReadErrorCode.invalid_integer ReadStage.integer) r le,
  Total-fails ℕ n (coded_error ReadErrorCode.invalid_header ReadStage.header) r le,
)

Total-uint_view : (n : ℕ) (view : List ℕ) → Total n (uint_of_view view)
unfolding uint_of_view
Total-uint_view n [] r le = Total-fails ℕ n _ r le
Total-uint_view n (header ∷ payload) r le = Total-uint_header n header payload r le

pub Total-uint : (n : ℕ) → Total n read_uint
unfolding read_uint
Total-uint n r le = Total-uint_view n (peek r.input 9) r le

pub read_byte-empty :
    (k : ℕ → ReadM (Unit {0})) (r : Reader) → bytes_left r ≤ 0 → Ends 0 ((read_byte >>= k) r)
unfolding read_byte peek_byte byte_of_view read_fails
read_byte-empty k r le =
    let none_left : r.input.rest ≡ [] = nothing r.input.rest le in
    let none_seen : peek r.input 1 ≡ [] = peek-eq-take r.input 1 ∙ ap (take 1) none_left in
    rw none_seen le
  where
    nothing : (xs : List ℕ) → length xs ≤ 0 → xs ≡ []
    nothing [] h = refl
    nothing (x ∷ xs) h = absurd (omega arith)

-- A byte that is read is gone, so what follows has one byte less.
pub Total-byte :
    (n : ℕ) (k : ℕ → ReadM (Unit {0})) → ((b : ℕ) → Total n (k b)) → Total (suc n) (read_byte >>= k)
Total-byte n k h r le = go r.input.rest le
  where
    go :
        (xs : List ℕ)
        → length xs ≤ suc n
        → Ends (suc n) ((read_byte >>= k) (at r.failure r.input.consumed xs))
    go [] le =
        Ends-le 0 (suc n) ((read_byte >>= k) (at r.failure r.input.consumed [])) (omega arith)
          (read_byte-empty k (at r.failure r.input.consumed []) (omega arith))
    go (b ∷ xs) le = rw (Reads-byte b r.failure r.input.consumed xs) (
        Ends-le n (suc n) (k b (at r.failure (r.input.consumed + 1) xs)) (omega arith)
          (h b (at r.failure (r.input.consumed + 1) xs) (omega arith)))
