-- ===== src/Binary/Codec/Sequence/Laws.antt =====
-- Element by element, and in bulk, what is written reads back.
use contract.Prelude.{
  ℕ, ◌+◌, ◌*◌, ◌^◌, ◌<◌, ◌≡◌, refl, ap, ap₂, ◌∙◌, Bool, Option, none, List, [], ◌∷◌, ◌++◌, arith,
  length, length-append, take-length, drop-length, All, All-append, IsByte, to_bytes, of_bytes,
  length-to_bytes, to_bytes-IsByte, of_bytes-to_bytes,
}
use contract.Binary.Codes.{ReadStage}
use contract.Binary.Cipher.{Key, IsKey}
use contract.Binary.Stream.Sinks.{HasRoom, push}
use contract.Binary.Stream.Sources.{Holds, Holds-append, advance}
use contract.Binary.Writer.{
  Writer, WriteError, Status, Descriptor, described_write, describing_write, container_write_error,
}
use contract.Binary.Reader.{
  Reader, ReadError, ReadM, pure, ◌>>=◌, next_read, described_read, describing_read,
  element_read_error,
}
use contract.Binary.Codec.{Codec}
use contract.Binary.Codec.Laws.{
  IsCodec, Writes, Reads, Writes-then, Reads-bind, HasRoom-append, wrote, took,
}
use contract.Binary.Codec.Sequence.{
  write_item, write_items, read_item, read_items, raw_bytes, raw_items,
}

pub Writes-describing :
    (describe : WriteError → WriteError) (m : Writer → Writer × Status) (w : Writer) (bs : List ℕ)
    → Writes m w bs
    → Writes (describing_write describe m) w bs
Writes-describing describe m w bs h = ap (described_write describe) h

pub Reads-describing :
    {A : Type 0} (describe : ReadError → ReadError) (m : ReadM A) (r : Reader) (bs : List ℕ) (a : A)
    → Reads m r bs a
    → Reads (describing_read describe m) r bs a
Reads-describing describe m r bs a h = ap (described_read describe) h

-- A result that is only wrapped.
pub Reads-map :
    {A B : Type 0} (m : ReadM A) (f : A → B) (r : Reader) (bs : List ℕ) (a : A)
    → Reads m r bs a
    → Reads (m >>= λ a. pure (f a)) r bs (f a)
Reads-map m f r bs a h = ap (next_read (λ a. pure (f a))) h

abbrev pub encode_items : {A : Type 0} → (Key → Bool → A → List ℕ) → Key → Bool → List A → List ℕ
encode_items encode key active [] = []
encode_items encode key active (x ∷ xs) = encode key active x ++ encode_items encode key active xs

module _ {A : Type 0} (c : Codec A) (encode : Key → Bool → A → List ℕ)
    (Fits : Option Descriptor → A → Type 0) (law : IsCodec c encode Fits) (total : ℕ) where
  pub Writes-items :
      (index : ℕ) (items : List A) (w : Writer)
      → All (Fits none) items
      → HasRoom w.out (length (encode_items encode w.encrypt_key w.encrypt_active items))
      → Writes
          (write_items c total index items)
          w
          (encode_items encode w.encrypt_key w.encrypt_active items)
  unfolding write_items
  Writes-items index [] w fits room = unfold push in refl
  Writes-items index (x ∷ xs) w (fx, fxs) room =
      let head = encode w.encrypt_key w.encrypt_active x in
      let rest = encode_items encode w.encrypt_key w.encrypt_active xs in
      let (front, back) = HasRoom-append w head rest room in
      Writes-then (write_item c total index x) (write_items c total (index + 1) xs) w head rest
        (unfold write_item in
          Writes-describing (container_write_error index total) (c.write none x) w head
            (law.writes none x w fx front))
        (Writes-items (index + 1) xs (wrote w head) fxs back)

  pub Reads-item :
      (index : ℕ) (x old : A) (r : Reader)
      → Fits none x
      → Holds r.input (encode r.encrypt_key r.encrypt_active x)
      → Reads (read_item c total index old) r (encode r.encrypt_key r.encrypt_active x) x
  unfolding read_item
  Reads-item index x old r fx h =
      Reads-describing (element_read_error ReadStage.container index total) (c.read none old) r
        (encode r.encrypt_key r.encrypt_active x) x (law.reads none x old r fx h)

  pub Reads-items :
      (index : ℕ) (items : List A) (r : Reader)
      → All (Fits none) items
      → Holds r.input (encode_items encode r.encrypt_key r.encrypt_active items)
      → Reads
          (read_items c total index (length items))
          r
          (encode_items encode r.encrypt_key r.encrypt_active items)
          items
  unfolding read_items
  Reads-items index [] r fits h = unfold advance in refl
  Reads-items index (x ∷ xs) r (fx, fxs) h =
      let head = encode r.encrypt_key r.encrypt_active x in
      let rest = encode_items encode r.encrypt_key r.encrypt_active xs in
      let (front, back) = Holds-append r.input head rest h in
      let loop = read_items c total (index + 1) (length xs) in
      Reads-bind (read_item c total index c.initial) (λ item. loop >>= λ items. pure (item ∷ items))
        r head rest x (x ∷ xs) (Reads-item index x c.initial r fx front)
        (Reads-map loop (λ items. x ∷ items) (took r (length head)) rest xs
          (Reads-items (index + 1) xs (took r (length head)) fxs back))

  pub items-IsByte :
      (key : Key) (active : Bool) (items : List A)
      → IsKey key
      → All (Fits none) items
      → All IsByte (encode_items encode key active items)
  items-IsByte key active [] k fits = tt
  items-IsByte key active (x ∷ xs) k (fx, fxs) =
      All-append IsByte (encode key active x) (encode_items encode key active xs)
        (law.bytes key active none x k fx) (items-IsByte key active xs k fxs)

pub length-raw_bytes : (n : ℕ) (xs : List ℕ) → length (raw_bytes n xs) ≡ length xs * n
unfolding raw_bytes
length-raw_bytes n [] = omega arith
length-raw_bytes n (x ∷ xs) = omega (
  arith,
  length-append (to_bytes n x) (raw_bytes n xs),
  length-to_bytes n x,
  length-raw_bytes n xs,
)

pub raw_bytes-IsByte : (n : ℕ) (xs : List ℕ) → All IsByte (raw_bytes n xs)
unfolding raw_bytes
raw_bytes-IsByte n [] = tt
raw_bytes-IsByte n (x ∷ xs) =
    All-append IsByte (to_bytes n x) (raw_bytes n xs) (to_bytes-IsByte n x) (raw_bytes-IsByte n xs)

pub raw_items-raw_bytes :
    (n : ℕ) (xs : List ℕ)
    → All (λ x. x < 256 ^ n) xs
    → raw_items n (length xs) (raw_bytes n xs) ≡ xs
unfolding raw_items raw_bytes
raw_items-raw_bytes n [] h = refl
raw_items-raw_bytes n (x ∷ xs) (hx, hxs) =
    ap₂ ◌∷◌
      (ap of_bytes (take-length n (to_bytes n x) (raw_bytes n xs) (length-to_bytes n x))
        ∙ of_bytes-to_bytes n x hx)
      (ap (raw_items n (length xs))
          (drop-length n (to_bytes n x) (raw_bytes n xs) (length-to_bytes n x))
        ∙ raw_items-raw_bytes n xs hxs)
