-- ===== src/Compact/Skip/Terminates.antt =====
-- Whatever stands ahead, `skip_value` comes to an end: each nested value takes a byte at least, so the
-- bytes ahead are enough fuel.
use contract.Prelude.{
  ℕ, zero, suc, ◌-◌, ◌≤◌, ◌<◌, ◌≢◌, false, Bool-cases, inl, inr, arith, ltb, ◌==◌, ◌||◌, ◌/◌,
  if◌then◌else◌,
}
use contract.Error.{set_stage}
use contract.Compact.Codes.{ValueKind, ReadErrorCode, ReadStage, coded_error}
use contract.Compact.Headers.{
  bool_false_header, bool_true_header, null_header, float32_header, float64_header,
}
use contract.Compact.Reader.{
  Reader, Outcome, done, error, length_error, out_of_fuel, ReadM, pure, ◌>>=◌, read_fails,
  describing_read, read, payload_count, read_uint,
}
use contract.Compact.Skip.{
  skip_chunk, skip_chunks, raw, size_tail, sized_payload, item_values, items, repeated, fields,
  object as skip_object, read_nibble, read_from_header, read_skipping, skip_value,
}
use contract.Compact.Skip.Ends.{
  bytes_left, Ends, Total, Total-fails, Total-bind, Total-pure, Total-if, Ends-described,
  Total-read, Total-uint, read_byte-empty, Total-byte,
}

Total-chunk : (n k : ℕ) → Total n (skip_chunk k)
unfolding skip_chunk
Total-chunk n k =
    Total-bind n (describing_read (set_stage ReadStage.skip) (read false k)) (λ _. pure tt)
      (λ r le. Ends-described n (set_stage ReadStage.skip) (read false k r) (Total-read n k r le))
      (λ _. Total-pure {0} n tt)

-- Each round takes a byte at least off the size.
Total-chunks : (n fuel size : ℕ) → size < fuel → Total n (skip_chunks fuel size)
unfolding skip_chunks
Total-chunks n zero size h r le = absurd (omega arith)
Total-chunks n (suc fuel) size h r le = elim (Bool-cases (size == 0)) [
  | inl none_left ↦ rw none_left le
  | inr some_left ↦
      let chunk : ℕ = if ltb 64 size then 64 else size in
      let smaller : size - chunk < fuel = ground arith in
      rw some_left (
        Total-bind n (skip_chunk chunk) (λ _. skip_chunks fuel (size - chunk)) (Total-chunk n chunk)
          (λ _. Total-chunks n fuel (size - chunk) smaller) r le)
]

Total-raw : (n size : ℕ) → Total n (raw size)
unfolding raw
Total-raw n size = Total-chunks n (suc size) size (omega arith)

Total-tail : (n header : ℕ) (kind : ValueKind) → Total n (size_tail header kind)
unfolding size_tail
Total-tail n header kind r le = ground (arith, Total-uint n r le)

Total-payload_by :
    (n header : ℕ) (kind : ValueKind) (body : ℕ → ReadM (Unit {0}))
    → ((size : ℕ) → Total n (body size))
    → Total n (size_tail header kind >>= body)
Total-payload_by n header kind body h =
    Total-bind n (size_tail header kind) body (Total-tail n header kind) h

module _ (n : ℕ) (one : ReadM (Unit {0})) (total : Total n one) where
  Total-item_values : (k : ℕ) → Total n (item_values one k)
  unfolding item_values
  Total-item_values zero = Total-pure {0} n tt
  Total-item_values (suc k) =
      Total-bind n one (λ _. item_values one k) total (λ _. Total-item_values k)

  Total-items : (per k : ℕ) → Total n (items one per k)
  unfolding items
  Total-items per zero = Total-pure {0} n tt
  Total-items per (suc k) =
      Total-bind n (item_values one per) (λ _. items one per k) (Total-item_values per)
        (λ _. Total-items per k)

  Total-fields : (k : ℕ) → Total n (fields one k)
  unfolding fields
  Total-fields zero = Total-pure {0} n tt
  Total-fields (suc k) =
      Total-bind n read_uint (λ _. one >>= λ _. fields one k) (Total-uint n)
        (λ _. Total-bind n one (λ _. fields one k) total (λ _. Total-fields k))

  Total-exact :
      (header : ℕ)
      → Total n (
          if header == bool_false_header || header == bool_true_header || header == null_header
          then pure tt
          else if header == float32_header
          then raw 4
          else if header == float64_header
          then raw 8
          else read_fails (coded_error ReadErrorCode.invalid_header ReadStage.skip))
  Total-exact header =
      Total-if n
        (header == bool_false_header || header == bool_true_header || header == null_header) _ _
        (Total-pure {0} n tt)
        (Total-if n (header == float32_header) _ _ (Total-raw n 4) (
          Total-if n (header == float64_header) _ _ (Total-raw n 8)
            (Total-fails (Unit {0}) n (coded_error ReadErrorCode.invalid_header ReadStage.skip))))

  Total-nibble : (nibble header : ℕ) → Total n (read_nibble one nibble header)
  unfolding read_nibble sized_payload repeated skip_object
  Total-nibble nibble header = Total-if n (ltb nibble 5) _ _ (Total-pure {0} n tt) (
      Total-if n (nibble == 5) _ _ (Total-raw n (payload_count header)) (
        Total-if n (nibble == 6) _ _ (Total-payload_by n header ValueKind.bytes raw (Total-raw n)) (
          Total-if n (nibble == 7) _ _
            (Total-payload_by n header ValueKind.string raw (Total-raw n))
            (Total-if n (nibble == 8) _ _
              (Total-payload_by n header ValueKind.array (items one 1) (Total-items 1))
              (Total-if n (nibble == 9) _ _
                (Total-payload_by n header ValueKind.map (items one 2) (Total-items 2))
                (Total-if n (nibble == 10) _ _
                  (Total-payload_by n header ValueKind.object (fields one) Total-fields)
                  (Total-exact header)))))))

  Total-from_header : (header : ℕ) → Total n (read_from_header one header)
  unfolding read_from_header
  Total-from_header header = Total-nibble (header / 16) header

Total-skipping : (n : ℕ) → Total n (read_skipping (suc n))
unfolding read_skipping
Total-skipping zero r le = read_byte-empty (read_from_header (read_skipping zero)) r le
Total-skipping (suc n) r le =
    Total-byte n (read_from_header (read_skipping (suc n)))
      (Total-from_header n (read_skipping (suc n)) (Total-skipping n)) r le

-- On any input, however its headers nest and whatever sizes they claim, `skip_value` ends: it succeeds
-- or reports an error, and never has more bytes ahead than before.
pub skip_value-ends :
    (r : Reader)
    → let (r', outcome) = skip_value r in (outcome ≢ out_of_fuel) × (bytes_left r' ≤ bytes_left r)
unfolding skip_value
skip_value-ends r =
    told (read_skipping (suc (bytes_left r)) r) (Total-skipping (bytes_left r) r (omega arith))
  where
    told :
        (p : Reader × Outcome (Unit {0}))
        → Ends (bytes_left r) p
        → (p.1 ≢ out_of_fuel) × (bytes_left p.0 ≤ bytes_left r)
    told (r', done a) h = (λ e. ground arith, h)
    told (r', error) h = (λ e. ground arith, h)
    told (r', length_error) h = (λ e. ground arith, h)
    told (r', out_of_fuel) h = absurd h
