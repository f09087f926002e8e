-- ===== src/Binary/Codec/Laws.antt =====
-- What a codec promises, and the rules by which the steps of a codec are put together.
use contract.Prelude.{
  ℕ, zero, suc, ◌+◌, ◌^◌, ◌≤◌, ◌<◌, ◌≡◌, refl, sym, ap, ◌∙◌, Bool, false, Option, none, some, List,
  [], ◌∷◌, ◌++◌, arith, le→ltb, ==_refl, suc-==-zero, length, length-append, All, IsByte, to_bytes,
  of_bytes, length-to_bytes, of_bytes-to_bytes,
}
use contract.Binary.Cipher.{Key, IsKey}
use contract.Binary.Codes.{WriteErrorCode, ReadErrorCode}
use contract.Binary.Stream.Sinks.{
  HasRoom, HasRoom-le, HasRoom-push, push, push-append, sink_write-push,
}
use contract.Binary.Stream.Sources.{Holds, Holds-append, advance, advance-add, source_read-Holds}
use contract.Binary.Writer.{
  Writer, Status, ok, Descriptor, ◌⟫◌, next_write, write_raw, write_scalar, write_size, written_all,
  within_limit, check_write_limit,
}
use contract.Binary.Reader.{
  Reader, done, ReadM, pure, ◌>>=◌, ◌>>◌, next_read, read_raw, read_scalar, read_size, read_whole,
  within_read_limit, check_read_limit, check_max_size,
}
use contract.Binary.Codec.{Codec}

abbrev pub wrote : Writer → List ℕ → Writer
wrote w bytes = record w { out = push w.out bytes }

abbrev pub took : Reader → ℕ → Reader
took r n = record r { input = advance r.input n }

-- The step succeeds and its only effect is that the sink holds `bytes` more.
abbrev pub Writes : (Writer → Writer × Status) → Writer → List ℕ → Type 0
Writes m w bytes = m w ≡ (wrote w bytes, ok)

-- The step succeeds with `a`, and its only effect is that the source is past `bytes`.
abbrev pub Reads {ℓ} : {A : Type ℓ} → ReadM A → Reader → List ℕ → A → Type ℓ
Reads m r bytes a = m r ≡ (took r (length bytes), done a)

-- A codec stores a value as `encode` of it, which depends on the key and on whether the stream is
-- encrypted already, whenever the value `Fits` the field and the sink has room; and where those
-- bytes stand ahead it reads the value back.
pub record IsCodec {A : Type 0} (c : Codec A) (encode : Key → Bool → A → List ℕ)
    (Fits : Option Descriptor → A → Type 0) : Type 0 where
  pub writes :
      (d : Option Descriptor) (v : A) (w : Writer)
      → Fits d v
      → HasRoom w.out (length (encode w.encrypt_key w.encrypt_active v))
      → Writes (c.write d v) w (encode w.encrypt_key w.encrypt_active v)
  pub reads :
      (d : Option Descriptor) (v old : A) (r : Reader)
      → Fits d v
      → Holds r.input (encode r.encrypt_key r.encrypt_active v)
      → Reads (c.read d old) r (encode r.encrypt_key r.encrypt_active v) v
  pub bytes :
      (key : Key) (active : Bool) (d : Option Descriptor) (v : A)
      → IsKey key
      → Fits d v
      → All IsByte (encode key active v)

pub Writes-then :
    (m k : Writer → Writer × Status) (w : Writer) (xs ys : List ℕ)
    → Writes m w xs
    → Writes k (wrote w xs) ys
    → Writes (m ⟫ k) w (xs ++ ys)
Writes-then m k w xs ys h g =
    ap (next_write k) h ∙ g ∙ ap (λ o. (record w { out = o }, ok)) (push-append w.out xs ys)

pub Reads-bind {ℓ κ} :
    {A : Type ℓ} {B : Type κ} (m : ReadM A) (k : A → ReadM B) (r : Reader) (xs ys : List ℕ) (a : A)
    (b : B)
    → Reads m r xs a
    → Reads (k a) (took r (length xs)) ys b
    → Reads (m >>= k) r (xs ++ ys) b
Reads-bind m k r xs ys a b h g =
    ap (next_read k) h
    ∙ g
    ∙ ap (λ i. (record r { input = i }, done b))
        (advance-add r.input (length xs) (length ys)
          ∙ ap (advance r.input) (sym (length-append xs ys)))

pub HasRoom-append :
    (w : Writer) (xs ys : List ℕ)
    → HasRoom w.out (length (xs ++ ys))
    → HasRoom w.out (length xs) × HasRoom (push w.out xs) (length ys)
HasRoom-append w xs ys h =
    let h' : HasRoom w.out (length xs + length ys) = rw length-append at h in
    (
      HasRoom-le w.out (length xs) (length xs + length ys) (omega arith) h',
      HasRoom-push w.out xs (length ys) h',
    )

pub Writes-raw :
    (w : Writer) (bytes : List ℕ) (n : ℕ)
    → length bytes ≡ n
    → HasRoom w.out n
    → Writes (write_raw (some bytes) n) w bytes
unfolding write_raw
Writes-raw w [] zero e room = unfold push in refl
Writes-raw w (b ∷ bs) zero e room = absurd (omega arith)
Writes-raw w bytes (suc n) e room = rw suc-==-zero (
    ap (written_all (suc n) w) (sink_write-push w.out bytes (suc n) e room (omega arith))
    ∙ (unfold written_all in rw ==_refl refl))

pub Reads-raw :
    (r : Reader) (bytes : List ℕ) (n : ℕ)
    → length bytes ≡ n
    → Holds r.input bytes
    → Reads (read_raw false n) r bytes bytes
unfolding read_raw
Reads-raw r [] zero e h = unfold advance in refl
Reads-raw r (b ∷ bs) zero e h = absurd (omega arith)
Reads-raw r bytes (suc n) e h =
    rw (suc-==-zero, e)
      (ap (read_whole (suc n) r) (source_read-Holds r.input n bytes e h)
        ∙ (unfold read_whole in rw ==_refl refl))

pub Writes-scalar :
    (w : Writer) (n v : ℕ) → HasRoom w.out n → Writes (write_scalar n v) w (to_bytes n v)
unfolding write_scalar
Writes-scalar w n v room = Writes-raw w (to_bytes n v) n (length-to_bytes n v) room

pub Reads-scalar :
    (r : Reader) (n v : ℕ)
    → v < 256 ^ n
    → Holds r.input (to_bytes n v)
    → Reads (read_scalar n) r (to_bytes n v) v
unfolding read_scalar
Reads-scalar r n v small h =
    ap (next_read (λ bytes. pure (of_bytes bytes)))
      (Reads-raw r (to_bytes n v) n (length-to_bytes n v) h)
    ∙ ap (λ a. (took r (length (to_bytes n v)), done a)) (of_bytes-to_bytes n v small)

pub Reads-size :
    (r : Reader) (size : ℕ)
    → size < 2 ^ 64
    → Holds r.input (to_bytes 8 size)
    → Reads read_size r (to_bytes 8 size) size
unfolding read_size
Reads-size r size small h = Reads-scalar r 8 size small h

-- The size does not pass the limit of the field, if it has one.
abbrev pub Below : Option ℕ → ℕ → Type 0
Below none size = Unit
Below (some limit) size = size ≤ limit

abbrev pub Within : (Descriptor → Option ℕ) → Option Descriptor → ℕ → Type 0
Within limit_of none size = Unit
Within limit_of (some d) size = Below (limit_of d) size

Writes-within :
    (code : WriteErrorCode) (d : Descriptor) (limit : Option ℕ) (size : ℕ) (w : Writer)
    → Below limit size
    → Writes (within_limit code d limit size) w []
unfolding within_limit push
Writes-within code d none size w h = refl
Writes-within code d (some limit) size w h = rw (le→ltb limit size h) refl

pub Writes-limit :
    (code : WriteErrorCode) (limit_of : Descriptor → Option ℕ) (d : Option Descriptor) (size : ℕ)
    (w : Writer)
    → Within limit_of d size
    → Writes (check_write_limit code limit_of d size) w []
unfolding check_write_limit
Writes-limit code limit_of none size w h = unfold push in refl
Writes-limit code limit_of (some d) size w h = Writes-within code d (limit_of d) size w h

Reads-within :
    (code : ReadErrorCode) (d : Descriptor) (limit : Option ℕ) (size : ℕ) (r : Reader)
    → Below limit size
    → Reads (within_read_limit code d limit size) r [] tt
unfolding within_read_limit advance
Reads-within code d none size r h = refl
Reads-within code d (some limit) size r h = rw (le→ltb limit size h) refl

pub Reads-limit :
    (code : ReadErrorCode) (limit_of : Descriptor → Option ℕ) (d : Option Descriptor) (size : ℕ)
    (r : Reader)
    → Within limit_of d size
    → Reads (check_read_limit code limit_of d size) r [] tt
unfolding check_read_limit
Reads-limit code limit_of none size r h = unfold advance in refl
Reads-limit code limit_of (some d) size r h = Reads-within code d (limit_of d) size r h

pub Reads-max_size :
    (limit size : ℕ) (r : Reader) → size ≤ limit → Reads (check_max_size limit size) r [] tt
unfolding check_max_size advance
Reads-max_size limit size r h = rw (le→ltb limit size h) refl

-- A limit that is kept changes nothing for what follows.
pub Writes-limit_then :
    (code : WriteErrorCode) (limit_of : Descriptor → Option ℕ) (d : Option Descriptor) (size : ℕ)
    (k : Writer → Writer × Status) (w : Writer) (bytes : List ℕ)
    → Within limit_of d size
    → Writes k w bytes
    → Writes (check_write_limit code limit_of d size ⟫ k) w bytes
Writes-limit_then code limit_of d size k w bytes h g =
    ap (next_write k) (Writes-limit code limit_of d size w h) ∙ (unfold push in g)

pub Reads-limit_then {ℓ} :
    {A : Type ℓ} (code : ReadErrorCode) (limit_of : Descriptor → Option ℕ) (d : Option Descriptor)
    (size : ℕ) (k : ReadM A) (r : Reader) (bytes : List ℕ) (a : A)
    → Within limit_of d size
    → Reads k r bytes a
    → Reads (check_read_limit code limit_of d size >> k) r bytes a
Reads-limit_then code limit_of d size k r bytes a h g =
    ap (next_read (λ _. k)) (Reads-limit code limit_of d size r h) ∙ (unfold advance in g)

pub Reads-max_size_then {ℓ} :
    {A : Type ℓ} (limit size : ℕ) (k : ReadM A) (r : Reader) (bytes : List ℕ) (a : A)
    → size ≤ limit
    → Reads k r bytes a
    → Reads (check_max_size limit size >> k) r bytes a
Reads-max_size_then limit size k r bytes a h g =
    ap (next_read (λ _. k)) (Reads-max_size limit size r h) ∙ (unfold advance in g)

-- A `std::size_t` and what follows it.
pub Writes-size_then :
    (size : ℕ) (k : Writer → Writer × Status) (w : Writer) (bytes : List ℕ)
    → HasRoom w.out (length (to_bytes 8 size ++ bytes))
    → (HasRoom (push w.out (to_bytes 8 size)) (length bytes)
        → Writes k (wrote w (to_bytes 8 size)) bytes)
    → Writes (write_size size ⟫ k) w (to_bytes 8 size ++ bytes)
Writes-size_then size k w bytes room g =
    let head = to_bytes 8 size in
    let (front, back) = HasRoom-append w head bytes room in
    Writes-then (write_size size) k w head bytes
      (unfold write_size in Writes-scalar w 8 size (rw length-to_bytes at front)) (g back)

pub Reads-size_then {ℓ} :
    {A : Type ℓ} (size : ℕ) (k : ℕ → ReadM A) (r : Reader) (bytes : List ℕ) (a : A)
    → size < 2 ^ 64
    → Holds r.input (to_bytes 8 size ++ bytes)
    → (Holds (advance r.input (length (to_bytes 8 size))) bytes
        → Reads (k size) (took r (length (to_bytes 8 size))) bytes a)
    → Reads (read_size >>= k) r (to_bytes 8 size ++ bytes) a
Reads-size_then size k r bytes a small h g =
    let head = to_bytes 8 size in
    let (front, back) = Holds-append r.input head bytes h in
    Reads-bind read_size k r head bytes size a (Reads-size r size small front) (g back)
