-- ===== src/Binary/Codec/Vector/Laws.antt =====
-- Vectors keep the promise of a codec.
use native.Mathlib.Nat.{mod-eq_of_lt}
use contract.Prelude.{
  ℕ, ◌*◌, ◌^◌, ◌≤◌, ◌<◌, ◌≡◌, refl, sym, ap, ◌∙◌, Bool, false, Option, none, List, [], ◌∷◌, ◌++◌,
  arith, suc-==-zero, length, All, All-append, IsByte, to_bytes, to_bytes-IsByte,
}
use contract.Binary.Codes.{WriteErrorCode, ReadErrorCode}
use contract.Binary.Cipher.{Key}
use contract.Binary.Stream.Sinks.{HasRoom, push}
use contract.Binary.Stream.Sources.{Holds, advance}
use contract.Binary.Writer.{Writer, Descriptor, ◌⟫◌, write_size, check_write_limit}
use contract.Binary.Reader.{Reader, done, max_size, read_raw}
use contract.Binary.Codec.{Codec}
use contract.Binary.Codec.Laws.{
  IsCodec, Writes, Reads, Within, Writes-limit_then, Reads-limit_then, Writes-size_then,
  Reads-size_then, Reads-max_size_then, Writes-raw, Reads-raw, wrote, took,
}
use contract.Binary.Codec.Sequence.{write_items, read_items, raw_bytes, raw_items, byte_count}
use contract.Binary.Codec.Sequence.Laws.{
  encode_items, Writes-items, Reads-items, Reads-map, items-IsByte, length-raw_bytes,
  raw_bytes-IsByte, raw_items-raw_bytes,
}
use contract.Binary.Codec.Vector.{
  write_raw_body, write_raw_vector, read_raw_elements, read_raw_body, read_raw_max_bytes,
  read_raw_max_items, raw_vector, write_vector, read_vector_body, read_vector_max_items, vector,
}

-- The size in front, and then the elements' memory.
abbrev pub encode_raw_vector : ℕ → Key → Bool → List ℕ → List ℕ
encode_raw_vector element_size key active v = to_bytes 8 (length v) ++ raw_bytes element_size v

abbrev pub encode_vector : {A : Type 0} → (Key → Bool → A → List ℕ) → Key → Bool → List A → List ℕ
encode_vector encode key active v = to_bytes 8 (length v) ++ encode_items encode key active v

-- A vector that exists has at most `max_size()` elements.
pub record FitsRawVector (element_size : ℕ) (d : Option Descriptor) (v : List ℕ) : Type 0 where
  pub elements : All (λ x. x < 256 ^ element_size) v
  pub size : length v ≤ max_size element_size
  pub word_size : length v < 2 ^ 64
  pub total : length v * element_size < 2 ^ 63
  pub max_items : Within (λ f. f.max_items) d (length v)
  pub max_bytes : Within (λ f. f.max_bytes) d (length v * element_size)

pub record FitsVector {A : Type 0} (Fits : Option Descriptor → A → Type 0) (element_size : ℕ)
    (d : Option Descriptor) (v : List A) : Type 0 where
  pub elements : All (Fits none) v
  pub size : length v ≤ max_size element_size
  pub word_size : length v < 2 ^ 64
  pub max_items : Within (λ f. f.max_items) d (length v)

byte_count-exact :
    (count element_size : ℕ)
    → count * element_size < 2 ^ 63
    → byte_count count element_size ≡ count * element_size
unfolding byte_count
byte_count-exact count element_size h = mod-eq_of_lt (omega arith)

module _ (n : ℕ) where
  Writes-raw_body :
      (v : List ℕ) (w : Writer)
      → length v * n < 2 ^ 63
      → HasRoom w.out (length (raw_bytes n v))
      → Writes (write_raw_body n v) w (raw_bytes n v)
  unfolding write_raw_body
  Writes-raw_body [] w small room = unfold push raw_bytes in refl
  Writes-raw_body (x ∷ xs) w small room =
      let size : length (raw_bytes n (x ∷ xs)) ≡ byte_count (length (x ∷ xs)) n =
        length-raw_bytes n (x ∷ xs) ∙ sym (byte_count-exact (length (x ∷ xs)) n small) in
      rw suc-==-zero (
        Writes-raw w (raw_bytes n (x ∷ xs)) (byte_count (length (x ∷ xs)) n) size
          (rw (← size) room))

  Reads-raw_elements :
      (v : List ℕ) (r : Reader)
      → All (λ x. x < 256 ^ n) v
      → length v * n < 2 ^ 63
      → Holds r.input (raw_bytes n v)
      → Reads (read_raw_elements n (length v)) r (raw_bytes n v) v
  unfolding read_raw_elements
  Reads-raw_elements [] r fits small h = unfold advance raw_bytes in refl
  Reads-raw_elements (x ∷ xs) r fits small h =
      let bytes = raw_bytes n (x ∷ xs) in
      let size : length bytes ≡ byte_count (length (x ∷ xs)) n =
        length-raw_bytes n (x ∷ xs) ∙ sym (byte_count-exact (length (x ∷ xs)) n small) in
      rw suc-==-zero (
        Reads-map (read_raw false (byte_count (length (x ∷ xs)) n)) (raw_items n (length (x ∷ xs)))
          r bytes bytes (Reads-raw r bytes (byte_count (length (x ∷ xs)) n) size h)
        ∙ ap (λ t. (took r (length bytes), done t)) (raw_items-raw_bytes n (x ∷ xs) fits))

  Writes-raw_vector :
      (d : Option Descriptor) (v : List ℕ) (w : Writer)
      → FitsRawVector n d v
      → HasRoom w.out (length (encode_raw_vector n w.encrypt_key w.encrypt_active v))
      → Writes (write_raw_vector n d v) w (encode_raw_vector n w.encrypt_key w.encrypt_active v)
  unfolding write_raw_vector
  Writes-raw_vector d v w fits room =
      let size = byte_count (length v) n in
      let stored = write_size (length v) ⟫ write_raw_body n v in
      let bounded =
        check_write_limit WriteErrorCode.max_bytes_exceeded (λ f. f.max_bytes) d size ⟫ stored in
      let bytes = to_bytes 8 (length v) ++ raw_bytes n v in
      Writes-limit_then WriteErrorCode.max_items_exceeded (λ f. f.max_items) d (length v) bounded w
        bytes fits.max_items
        (Writes-limit_then WriteErrorCode.max_bytes_exceeded (λ f. f.max_bytes) d size stored w
          bytes (rw (byte_count-exact (length v) n fits.total) fits.max_bytes)
          (Writes-size_then (length v) (write_raw_body n v) w (raw_bytes n v) room
            (Writes-raw_body v (wrote w (to_bytes 8 (length v))) fits.total)))

  Reads-raw_vector :
      (d : Option Descriptor) (v old : List ℕ) (r : Reader)
      → FitsRawVector n d v
      → Holds r.input (encode_raw_vector n r.encrypt_key r.encrypt_active v)
      → Reads ((raw_vector n).read d old) r (encode_raw_vector n r.encrypt_key r.encrypt_active v) v
  unfolding raw_vector
  Reads-raw_vector d v old r fits h =
      let r' = took r (length (to_bytes 8 (length v))) in
      let bytes = raw_bytes n v in
      let count = length v in
      Reads-size_then count (read_raw_max_items n d) r bytes v fits.word_size h λ ahead.
        Reads-limit_then ReadErrorCode.max_items_exceeded (λ f. f.max_items) d count
          (read_raw_max_bytes n d count) r' bytes v fits.max_items
          (Reads-limit_then ReadErrorCode.max_bytes_exceeded (λ f. f.max_bytes) d
            (byte_count count n) (read_raw_body n count) r' bytes v
            (rw (byte_count-exact count n fits.total) fits.max_bytes)
            (Reads-max_size_then (max_size n) count (read_raw_elements n count) r' bytes v fits.size
              (Reads-raw_elements v r' fits.elements fits.total ahead)))

  -- A vector of raw elements that fit their size, whose memory is below 2 ^ 63 bytes and which is within
  -- the limits of the field, is stored as the number of elements and their memory, and read back.
  pub raw_vector-IsCodec : IsCodec (raw_vector n) (encode_raw_vector n) (FitsRawVector n)
  raw_vector-IsCodec = record {
    writes = λ d v w. unfold raw_vector in Writes-raw_vector d v w;
    reads = Reads-raw_vector;
    bytes = λ key active d v k fits.
        All-append IsByte (to_bytes 8 (length v)) (raw_bytes n v) (to_bytes-IsByte 8 (length v))
          (raw_bytes-IsByte n v);
  }

module _ {A : Type 0} (c : Codec A) (encode : Key → Bool → A → List ℕ)
    (Fits : Option Descriptor → A → Type 0) (law : IsCodec c encode Fits) (n : ℕ) where
  Writes-vector :
      (d : Option Descriptor) (v : List A) (w : Writer)
      → FitsVector Fits n d v
      → HasRoom w.out (length (encode_vector encode w.encrypt_key w.encrypt_active v))
      → Writes (write_vector c n d v) w (encode_vector encode w.encrypt_key w.encrypt_active v)
  unfolding write_vector
  Writes-vector d v w fits room =
      let items = encode_items encode w.encrypt_key w.encrypt_active v in
      let stored = write_size (length v) ⟫ write_items c (length v) 0 v in
      Writes-limit_then WriteErrorCode.max_items_exceeded (λ f. f.max_items) d (length v) stored w
        (to_bytes 8 (length v) ++ items) fits.max_items
        (Writes-size_then (length v) (write_items c (length v) 0 v) w items room (
          Writes-items c encode Fits law (length v) 0 v (wrote w (to_bytes 8 (length v)))
            fits.elements))

  Reads-vector :
      (d : Option Descriptor) (v old : List A) (r : Reader)
      → FitsVector Fits n d v
      → Holds r.input (encode_vector encode r.encrypt_key r.encrypt_active v)
      → Reads ((vector c n).read d old) r (encode_vector encode r.encrypt_key r.encrypt_active v) v
  unfolding vector
  Reads-vector d v old r fits h =
      let r' = took r (length (to_bytes 8 (length v))) in
      let items = encode_items encode r.encrypt_key r.encrypt_active v in
      let count = length v in
      Reads-size_then count (read_vector_max_items c n d) r items v fits.word_size h λ ahead.
        Reads-limit_then ReadErrorCode.max_items_exceeded (λ f. f.max_items) d count
          (read_vector_body c n count) r' items v fits.max_items
          (Reads-max_size_then (max_size n) count (read_items c count 0 count) r' items v fits.size
            (Reads-items c encode Fits law count 0 v r' fits.elements ahead))

  -- A vector of elements whose codec keeps its promise, which is within `max_size()` and max_items, is
  -- stored as the number of elements and the elements in order, and read back as the same elements.
  pub vector-IsCodec : IsCodec (vector c n) (encode_vector encode) (FitsVector Fits n)
  vector-IsCodec = record {
    writes = λ d v w. unfold vector in Writes-vector d v w;
    reads = Reads-vector;
    bytes = λ key active d v k fits.
        All-append IsByte (to_bytes 8 (length v)) (encode_items encode key active v)
          (to_bytes-IsByte 8 (length v))
          (items-IsByte c encode Fits law 0 key active v k fits.elements);
  }
