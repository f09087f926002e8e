-- ===== src/Compact/Skip/Laws.antt =====
-- What `skip_value` passes over: just the bytes of one value.
use mathlib.Core.List.{append_assoc}
use contract.Prelude.{
  ℕ, zero, suc, ◌+◌, ◌^◌, ◌≤◌, ◌<◌, ◌≡◌, refl, sym, ap, ◌∙◌, Bool-cases, inl, inr, Option, List, [],
  ◌++◌, arith, leb, if◌then◌else◌, length, length-append, length-to_bytes, to_bytes,
}
use contract.Compact.Codes.{ValueKind}
use contract.Compact.Reader.{ReadM, ReadError, done, ◌>>=◌, read_byte, read_size_tail, read_uint}
use contract.Compact.Steps.{at, Reads, Reads-bind, Reads-map, Reads-pure}
use contract.Compact.Wire.{
  Value, uint, negative, boolean, null, float32, float64, bytes, string, array, map, object, Values,
  no_items, item, Pairs, no_pairs, pair, Members, no_members, member, count, count_pairs,
  count_members, encode_payload, encode_uint, encode_negative, encode_size, encode, encode_values,
  encode_pairs, encode_members, IsValue, AreValues, ArePairs, AreMembers,
}
use contract.Compact.Integers.{Reads-uint}
use contract.Compact.Sizes.{Sized, Reads-sized}
use contract.Compact.Skip.{
  raw, item_values, items, fields, read_from_header, read_skipping, skip_value,
}
use contract.Compact.Skip.Headers.{
  Reads-raw, header-bytes, header-string, header-array, header-map, header-object, header-exact,
  header-null, header-float32, header-float64, Reads-alone, Reads-fixed, Reads-skip_uint,
  Reads-skip_negative,
}

-- Some bytes, one at least.
length-encode_uint : (v : ℕ) → 1 ≤ length (encode_uint v)
unfolding encode_uint encode_payload
length-encode_uint v = elim (Bool-cases (leb v 63)) [
  | inl small ↦ rw small (omega arith)
  | inr large ↦ rw large (omega arith)
]

length-encode_negative : (v : ℕ) → 1 ≤ length (encode_negative v)
unfolding encode_negative encode_payload
length-encode_negative v = elim (Bool-cases (leb v 15)) [
  | inl small ↦ rw small (omega arith)
  | inr large ↦ rw large (omega arith)
]

length-encode_size : (base size : ℕ) → 1 ≤ length (encode_size base size)
unfolding encode_size
length-encode_size base size = elim (Bool-cases (leb size 14)) [
  | inl small ↦ rw small (omega arith)
  | inr large ↦ rw large (omega arith)
]

after-size : (base size : ℕ) (xs : List ℕ) → suc (length xs) ≤ length (encode_size base size ++ xs)
after-size base size xs =
    omega (arith, length-append (encode_size base size) xs, length-encode_size base size)

pub length-encode : (v : Value) → 1 ≤ length (encode v)
unfolding encode
length-encode (uint n) = length-encode_uint n
length-encode (negative n) = length-encode_negative n
length-encode (boolean b) = omega arith
length-encode null = omega arith
length-encode (float32 bits) = omega arith
length-encode (float64 bits) = omega arith
length-encode (bytes bs) = omega (arith, after-size 0x60 (length bs) bs)
length-encode (string bs) = omega (arith, after-size 0x70 (length bs) bs)
length-encode (array vs) = omega (arith, after-size 0x80 (count vs) (encode_values vs))
length-encode (map ps) = omega (arith, after-size 0x90 (count_pairs ps) (encode_pairs ps))
length-encode (object ms) = omega (arith, after-size 0xa0 (count_members ms) (encode_members ms))

-- The steps of the loops.
step-item :
    (one : ReadM (Unit {0})) (n : ℕ) (xs ys : List ℕ)
    → Reads one xs tt
    → Reads (items one 1 n) ys tt
    → Reads (items one 1 (suc n)) (xs ++ ys) tt
unfolding items item_values
step-item one n xs ys h g =
    Reads-bind (item_values one 1) (λ _. items one 1 n) xs ys tt tt
      (Reads-map one (λ _. tt) xs tt h) g

step-pair :
    (one : ReadM (Unit {0})) (n : ℕ) (xs ys zs : List ℕ)
    → Reads one xs tt
    → Reads one ys tt
    → Reads (items one 2 n) zs tt
    → Reads (items one 2 (suc n)) (xs ++ (ys ++ zs)) tt
unfolding items item_values
step-pair one n xs ys zs h g k failure consumed more =
    ap (λ t. (items one 2 (suc n)) (at failure consumed (t ++ more))) (sym (append_assoc xs ys zs))
    ∙ Reads-bind (item_values one 2) (λ _. items one 2 n) (xs ++ ys) zs tt tt
        (Reads-bind one (λ _. item_values one 1) xs ys tt tt h (Reads-map one (λ _. tt) ys tt g)) k
        failure consumed more
    ∙ ap (λ t. (at failure (consumed + length t) more, done tt)) (append_assoc xs ys zs)

step-field :
    (one : ReadM (Unit {0})) (n id : ℕ) (xs ys : List ℕ)
    → id < 2 ^ 64
    → Reads one xs tt
    → Reads (fields one n) ys tt
    → Reads (fields one (suc n)) (encode_uint id ++ (xs ++ ys)) tt
unfolding fields
step-field one n id xs ys small h g failure consumed more =
    Reads-bind read_uint (λ _. one >>= λ _. fields one n) (encode_uint id) (xs ++ ys) id tt
      (Reads-uint id small) (Reads-bind one (λ _. fields one n) xs ys tt tt h g) failure consumed
      more

no-items : (one : ReadM (Unit {0})) (n : ℕ) → Reads (items one n zero) [] tt
unfolding items
no-items one n = Reads-pure tt

no-fields : (one : ReadM (Unit {0})) → Reads (fields one zero) [] tt
unfolding fields
no-fields one = Reads-pure tt

unroll :
    (fuel : ℕ) → read_skipping (suc fuel) ≡ (read_byte >>= read_from_header (read_skipping fuel))
unfolding read_skipping
unroll fuel = refl

-- A value whose kind has a size: its header, then what the size tells.
sized-value :
    (fuel : ℕ) (kind : ValueKind) (base size : ℕ) (body : ℕ → ReadM (Unit {0})) (xs : List ℕ)
    → Sized kind base
    → ((n : ℕ)
        → n ≤ 15
        → read_from_header (read_skipping fuel) (base + n)
          ≡ (read_size_tail (base + n) kind >>= body))
    → size < 2 ^ 64
    → Reads (body size) xs tt
    → Reads (read_skipping (suc fuel)) (encode_size base size ++ xs) tt
sized-value fuel kind base size body xs sized by h g =
    rw (unroll fuel)
      (Reads-sized kind base sized (read_from_header (read_skipping fuel)) body size xs tt by h g)

mutual
  unfolding encode IsValue

  Reads-value :
      (v : Value) (fuel : ℕ)
      → length (encode v) ≤ fuel
      → IsValue v
      → Reads (read_skipping fuel) (encode v) tt
  Reads-value v zero short h = absurd (omega (arith, length-encode v))
  Reads-value (uint n) (suc fuel) short h =
      rw (unroll fuel) (Reads-skip_uint (read_skipping fuel) n h)
  Reads-value (negative n) (suc fuel) short h =
      rw (unroll fuel) (Reads-skip_negative (read_skipping fuel) n h)
  Reads-value (boolean b) (suc fuel) short h = rw (unroll fuel) (
      Reads-alone (read_skipping fuel) (if b then 0xb1 else 0xb0)
        (header-exact (read_skipping fuel) b))
  Reads-value null (suc fuel) short h =
      rw (unroll fuel) (Reads-alone (read_skipping fuel) 0xb2 (header-null (read_skipping fuel)))
  Reads-value (float32 bits) (suc fuel) short h = rw (unroll fuel) (
      Reads-fixed (read_skipping fuel) 0xc4 4 (to_bytes 4 bits)
        (header-float32 (read_skipping fuel)) (length-to_bytes 4 bits))
  Reads-value (float64 bits) (suc fuel) short h = rw (unroll fuel) (
      Reads-fixed (read_skipping fuel) 0xc8 8 (to_bytes 8 bits)
        (header-float64 (read_skipping fuel)) (length-to_bytes 8 bits))
  Reads-value (bytes bs) (suc fuel) short h =
      sized-value fuel ValueKind.bytes 0x60 (length bs) raw bs Sized.bytes
        (header-bytes (read_skipping fuel)) h (Reads-raw (length bs) bs refl)
  Reads-value (string bs) (suc fuel) short h =
      sized-value fuel ValueKind.string 0x70 (length bs) raw bs Sized.string
        (header-string (read_skipping fuel)) h (Reads-raw (length bs) bs refl)
  Reads-value (array vs) (suc fuel) short (small, h) =
      sized-value fuel ValueKind.array 0x80 (count vs) (items (read_skipping fuel) 1)
        (encode_values vs) Sized.array (header-array (read_skipping fuel)) small
        (Reads-values vs fuel (omega (arith, after-size 0x80 (count vs) (encode_values vs))) h)
  Reads-value (map ps) (suc fuel) short (small, h) =
      sized-value fuel ValueKind.map 0x90 (count_pairs ps) (items (read_skipping fuel) 2)
        (encode_pairs ps) Sized.map (header-map (read_skipping fuel)) small
        (Reads-pairs ps fuel (omega (arith, after-size 0x90 (count_pairs ps) (encode_pairs ps))) h)
  Reads-value (object ms) (suc fuel) short (small, h) =
      sized-value fuel ValueKind.object 0xa0 (count_members ms) (fields (read_skipping fuel))
        (encode_members ms) Sized.object (header-object (read_skipping fuel)) small
        (Reads-members ms fuel
          (omega (arith, after-size 0xa0 (count_members ms) (encode_members ms))) h)

  Reads-values :
      (vs : Values) (fuel : ℕ)
      → length (encode_values vs) ≤ fuel
      → AreValues vs
      → Reads (items (read_skipping fuel) 1 (count vs)) (encode_values vs) tt
  Reads-values no_items fuel short h = no-items (read_skipping fuel) 1
  Reads-values (item v vs) fuel short (hv, hvs) =
      let both = length-append (encode v) (encode_values vs) in
      step-item (read_skipping fuel) (count vs) (encode v) (encode_values vs)
        (Reads-value v fuel (omega arith) hv) (Reads-values vs fuel (omega arith) hvs)

  Reads-pairs :
      (ps : Pairs) (fuel : ℕ)
      → length (encode_pairs ps) ≤ fuel
      → ArePairs ps
      → Reads (items (read_skipping fuel) 2 (count_pairs ps)) (encode_pairs ps) tt
  Reads-pairs no_pairs fuel short h = no-items (read_skipping fuel) 2
  Reads-pairs (pair k v ps) fuel short (hk, (hv, hps)) =
      let all = length-append (encode k) (encode v ++ encode_pairs ps) in
      let both = length-append (encode v) (encode_pairs ps) in
      step-pair (read_skipping fuel) (count_pairs ps) (encode k) (encode v) (encode_pairs ps)
        (Reads-value k fuel (omega arith) hk) (Reads-value v fuel (omega arith) hv)
        (Reads-pairs ps fuel (omega arith) hps)

  Reads-members :
      (ms : Members) (fuel : ℕ)
      → length (encode_members ms) ≤ fuel
      → AreMembers ms
      → Reads (fields (read_skipping fuel) (count_members ms)) (encode_members ms) tt
  Reads-members no_members fuel short h = no-fields (read_skipping fuel)
  Reads-members (member id v ms) fuel short (hid, (hv, hms)) =
      let all = length-append (encode_uint id) (encode v ++ encode_members ms) in
      let both = length-append (encode v) (encode_members ms) in
      step-field (read_skipping fuel) (count_members ms) id (encode v) (encode_members ms) hid
        (Reads-value v fuel (omega arith) hv) (Reads-members ms fuel (omega arith) hms)

-- Where the bytes of a value of the format stand ahead, whatever it nests, `skip_value` passes over
-- just those bytes, without an error and whatever follows them.
pub skip_value-passes :
    (v : Value) (failure : Option ReadError) (consumed : ℕ) (more : List ℕ)
    → IsValue v
    → skip_value (at failure consumed (encode v ++ more))
      ≡ (at failure (consumed + length (encode v)) more, done tt)
unfolding skip_value
skip_value-passes v failure consumed more h =
    let both = length-append (encode v) more in
    Reads-value v (suc (length (encode v ++ more))) (omega arith) h failure consumed more
