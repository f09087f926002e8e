-- ===== src/Binary/Codec/Array/Laws.antt =====
-- Arrays keep the promise of a codec.
use native.Mathlib.Nat.{mod-eq_of_lt}
use contract.Prelude.{
  ℕ, zero, suc, ◌+◌, ◌*◌, ◌^◌, ◌<◌, ◌≡◌, refl, sym, ap, ◌∙◌, Bool, false, Option, none, List, ◌++◌,
  arith, suc-==-zero, length, take, drop, take-length, drop-length, All, to_bytes, of_bytes,
  length-to_bytes, of_bytes-to_bytes,
}
use contract.Binary.Codes.{WriteErrorCode, ReadErrorCode}
use contract.Binary.Cipher.{Key}
use contract.Binary.Stream.Sinks.{HasRoom, push}
use contract.Binary.Stream.Sources.{Holds, Holds-append, advance}
use contract.Binary.Writer.{Writer, Descriptor, ◌⟫◌, check_write_limit}
use contract.Binary.Reader.{Reader, done, pure, ◌>>=◌, read_raw}
use contract.Binary.Codec.{Codec}
use contract.Binary.Codec.Laws.{
  IsCodec, Writes, Reads, Within, Writes-limit_then, Reads-limit_then, Writes-raw, Reads-raw,
  Reads-bind, took,
}
use contract.Binary.Codec.Sequence.{write_items, read_item, raw_bytes, byte_count}
use contract.Binary.Codec.Sequence.Laws.{
  encode_items, Writes-items, Reads-item, Reads-map, items-IsByte, length-raw_bytes,
  raw_bytes-IsByte,
}
use contract.Binary.Codec.Array.{
  Array, items_of, array_of_bytes, write_memory, read_memory, read_array_max_bytes, raw_array,
  read_into, array,
}

abbrev pub encode_raw_array : ℕ → (n : ℕ) → Key → Bool → Array ℕ n → List ℕ
encode_raw_array element_size n key active v = raw_bytes element_size (items_of n v)

abbrev pub encode_array :
    {A : Type 0} → (Key → Bool → A → List ℕ) → (n : ℕ) → Key → Bool → Array A n → List ℕ
encode_array encode n key active v = encode_items encode key active (items_of n v)

-- An array that exists takes less than half of the address space.
pub record FitsRawArray (element_size n : ℕ) (d : Option Descriptor) (v : Array ℕ n) : Type 0 where
  pub elements : All (λ x. x < 256 ^ element_size) (items_of n v)
  pub total : n * element_size < 2 ^ 63
  pub max_items : Within (λ f. f.max_items) d n
  pub max_bytes : Within (λ f. f.max_bytes) d (n * element_size)

pub record FitsArray {A : Type 0} (Fits : Option Descriptor → A → Type 0) (n : ℕ)
    (d : Option Descriptor) (v : Array A n) : Type 0 where
  pub elements : All (Fits none) (items_of n v)
  pub max_items : Within (λ f. f.max_items) d n

length-items_of : (A : Type 0) (n : ℕ) (v : Array A n) → length (items_of n v) ≡ n
length-items_of A zero v = refl
length-items_of A (suc n) v = ap suc (length-items_of A n v.1)

array_of_bytes-raw_bytes :
    (s n : ℕ) (v : Array ℕ n)
    → All (λ x. x < 256 ^ s) (items_of n v)
    → array_of_bytes s n (raw_bytes s (items_of n v)) ≡ v
unfolding array_of_bytes raw_bytes
array_of_bytes-raw_bytes s zero v h = refl
array_of_bytes-raw_bytes s (suc n) (x, xs) (hx, hxs) =
    let memory = raw_bytes s (items_of n xs) in
    let first : of_bytes (take s (to_bytes s x ++ memory)) ≡ x =
      ap of_bytes (take-length s (to_bytes s x) memory (length-to_bytes s x))
      ∙ of_bytes-to_bytes s x hx in
    let others : array_of_bytes s n (drop s (to_bytes s x ++ memory)) ≡ xs =
      ap (array_of_bytes s n) (drop-length s (to_bytes s x) memory (length-to_bytes s x))
      ∙ array_of_bytes-raw_bytes s n xs hxs in
    λ i. (first i, others i)

byte_count-exact : (n s : ℕ) → n * s < 2 ^ 63 → byte_count n s ≡ n * s
unfolding byte_count
byte_count-exact n s small = mod-eq_of_lt (omega arith)

length-memory :
    (s n : ℕ) (v : Array ℕ n)
    → n * s < 2 ^ 63
    → length (raw_bytes s (items_of n v)) ≡ byte_count n s
length-memory s n v small =
    length-raw_bytes s (items_of n v)
    ∙ ap (λ k. k * s) (length-items_of ℕ n v)
    ∙ sym (byte_count-exact n s small)

Writes-memory :
    (s n : ℕ) (v : Array ℕ n) (w : Writer)
    → n * s < 2 ^ 63
    → HasRoom w.out (length (raw_bytes s (items_of n v)))
    → Writes (write_memory s n v) w (raw_bytes s (items_of n v))
unfolding write_memory
Writes-memory s zero v w small room = unfold push raw_bytes in refl
Writes-memory s (suc n) v w small room =
    let size = length-memory s (suc n) v small in
    rw suc-==-zero (
      Writes-raw w (raw_bytes s (items_of (suc n) v)) (byte_count (suc n) s) size
        (rw (← size) room))

Reads-memory :
    (s n : ℕ) (v old : Array ℕ n) (r : Reader)
    → All (λ x. x < 256 ^ s) (items_of n v)
    → n * s < 2 ^ 63
    → Holds r.input (raw_bytes s (items_of n v))
    → Reads (read_memory s n old) r (raw_bytes s (items_of n v)) v
unfolding read_memory
Reads-memory s zero v old r fits small h = unfold advance raw_bytes in refl
Reads-memory s (suc n) v old r fits small h =
    let bytes = raw_bytes s (items_of (suc n) v) in
    let size = length-memory s (suc n) v small in
    rw suc-==-zero (
      Reads-map (read_raw false (byte_count (suc n) s)) (array_of_bytes s (suc n)) r bytes bytes
        (Reads-raw r bytes (byte_count (suc n) s) size h)
      ∙ ap (λ t. (took r (length bytes), done t)) (array_of_bytes-raw_bytes s (suc n) v fits))

pub raw_array-IsCodec :
    (s n : ℕ) → IsCodec (raw_array s n) (encode_raw_array s n) (FitsRawArray s n)
raw_array-IsCodec s n = record {
  writes = λ d v w fits room.
      let bytes = raw_bytes s (items_of n v) in
      unfold raw_array in
      Writes-limit_then WriteErrorCode.max_items_exceeded (λ f. f.max_items) d n
        (check_write_limit WriteErrorCode.max_bytes_exceeded (λ f. f.max_bytes) d (byte_count n s)
          ⟫ write_memory s n v)
        w bytes fits.max_items
        (Writes-limit_then WriteErrorCode.max_bytes_exceeded (λ f. f.max_bytes) d (byte_count n s)
          (write_memory s n v) w bytes (rw (byte_count-exact n s fits.total) fits.max_bytes)
          (Writes-memory s n v w fits.total room));
  reads = λ d v old r fits h.
      let bytes = raw_bytes s (items_of n v) in
      unfold raw_array in
      Reads-limit_then ReadErrorCode.max_items_exceeded (λ f. f.max_items) d n
        (read_array_max_bytes s n d old) r bytes v fits.max_items
        (Reads-limit_then ReadErrorCode.max_bytes_exceeded (λ f. f.max_bytes) d (byte_count n s)
          (read_memory s n old) r bytes v (rw (byte_count-exact n s fits.total) fits.max_bytes)
          (Reads-memory s n v old r fits.elements fits.total h));
  bytes = λ key active d v k fits. raw_bytes-IsByte s (items_of n v);
}

module _ {A : Type 0} (c : Codec A) (encode : Key → Bool → A → List ℕ)
    (Fits : Option Descriptor → A → Type 0) (law : IsCodec c encode Fits) where
  Reads-into :
      (total index n : ℕ) (v old : Array A n) (r : Reader)
      → All (Fits none) (items_of n v)
      → Holds r.input (encode_items encode r.encrypt_key r.encrypt_active (items_of n v))
      → Reads
          (read_into c total index n old)
          r
          (encode_items encode r.encrypt_key r.encrypt_active (items_of n v))
          v
  unfolding read_into
  Reads-into total index zero v old r fits h = unfold advance in refl
  Reads-into total index (suc n) (x, xs) (old, olds) r (fx, fxs) h =
      let head = encode r.encrypt_key r.encrypt_active x in
      let rest = encode_items encode r.encrypt_key r.encrypt_active (items_of n xs) in
      let (front, back) = Holds-append r.input head rest h in
      let loop = read_into c total (index + 1) n olds in
      Reads-bind (read_item c total index old) (λ item. loop >>= λ items. pure (item, items)) r head
        rest x (x, xs) (Reads-item c encode Fits law total index x old r fx front)
        (Reads-map loop (λ items. (x, items)) (took r (length head)) rest xs
          (Reads-into total (index + 1) n xs olds (took r (length head)) fxs back))

  -- An array of elements whose codec keeps its promise is stored as its elements, with no number in
  -- front, and reading it over any array gives the one that was written.
  pub array-IsCodec : (n : ℕ) → IsCodec (array c n) (encode_array encode n) (FitsArray Fits n)
  array-IsCodec n = record {
    writes = λ d v w fits room.
        unfold array in
        Writes-limit_then WriteErrorCode.max_items_exceeded (λ f. f.max_items) d n
          (write_items c n 0 (items_of n v)) w
          (encode_items encode w.encrypt_key w.encrypt_active (items_of n v)) fits.max_items
          (Writes-items c encode Fits law n 0 (items_of n v) w fits.elements room);
    reads = λ d v old r fits h.
        unfold array in
        Reads-limit_then ReadErrorCode.max_items_exceeded (λ f. f.max_items) d n
          (read_into c n 0 n old) r
          (encode_items encode r.encrypt_key r.encrypt_active (items_of n v)) v fits.max_items
          (Reads-into n 0 n v old r fits.elements h);
    bytes = λ key active d v k fits.
        items-IsByte c encode Fits law 0 key active (items_of n v) k fits.elements;
  }
