-- ===== src/Compact/Codec/Laws.antt =====
-- What a codec of the compact adapter promises: it stores a value as the bytes of a value of the format,
-- and where those stand ahead it reads the same value back.
use mathlib.Core.Path.{fun_ext}
use contract.Prelude.{
  ℕ, ◌-◌, ◌^◌, ◌≤◌, ◌<◌, ◌≡◌, refl, Option, none, some, List, ◌++◌, arith, le→ltb, word,
}
use contract.Compact.Codes.{ValueKind, ReadStage, WriteStage}
use contract.Compact.Writer.{
  Writer, Status, ◌⟫◌, write_ok, write_size_header, describing_write, WriteError,
}
use contract.Compact.Reader.{
  ReadM, ReadError, ◌>>=◌, pure, read_size_header, describing_read, check_max_size,
}
use contract.Compact.Wire.{Value, encode, IsValue, encode_size}
use contract.Compact.Steps.{
  Writes, Writes-then, Writes-describing, Reads, Reads-bind, Reads-describing,
}
use contract.Compact.Sizes.{Sized, Writes-size, Reads-size}
use contract.Compact.Codec.{
  Codec, Descriptor, within_write_limit, check_write_limit, within_read_limit, check_read_limit,
  check_size,
}

pub record IsCodec {A : Type 0} (c : Codec A) (value_of : A → Value)
    (Fits : Option Descriptor → A → Type 0) : Type 0 where
  pub writes :
      (d : Option Descriptor) (a : A) → Fits d a → Writes (c.write d a) (encode (value_of a))
  pub reads :
      (d : Option Descriptor) (a old : A) → Fits d a → Reads (c.read d old) (encode (value_of a)) a
  pub is_value : (d : Option Descriptor) (a : A) → Fits d a → IsValue (value_of a)

-- The limit of a field's max_items, if there is a field and it has one.
abbrev pub limit_of : Option Descriptor → Option ℕ
limit_of none = none
limit_of (some d) = d.max_items

abbrev pub AtMost : Option ℕ → ℕ → Type 0
AtMost none size = Unit {0}
AtMost (some limit) size = size ≤ limit

abbrev pub Within : Option Descriptor → ℕ → Type 0
Within d size = AtMost (limit_of d) size

within-kept_write :
    (stage : WriteStage) (d : Descriptor) (limit : Option ℕ) (size : ℕ)
    → AtMost limit size
    → within_write_limit stage d limit size ≡ write_ok
unfolding within_write_limit
within-kept_write stage d none size h = refl
within-kept_write stage d (some limit) size h = fun_ext λ w. rw (le→ltb limit size h) refl

limit-kept_write :
    (stage : WriteStage) (d : Option Descriptor) (size : ℕ)
    → Within d size
    → check_write_limit stage d size ≡ write_ok
unfolding check_write_limit
limit-kept_write stage none size h = refl
limit-kept_write stage (some d) size h = within-kept_write stage d d.max_items size h

within-kept_read :
    (stage : ReadStage) (d : Descriptor) (limit : Option ℕ) (size : ℕ)
    → AtMost limit size
    → within_read_limit stage d limit size ≡ pure tt
unfolding within_read_limit
within-kept_read stage d none size h = refl
within-kept_read stage d (some limit) size h = rw (le→ltb limit size h) refl

limit-kept_read :
    (stage : ReadStage) (d : Option Descriptor) (size : ℕ)
    → Within d size
    → check_read_limit stage d size ≡ pure tt
unfolding check_read_limit
limit-kept_read stage none size h = refl
limit-kept_read stage (some d) size h = within-kept_read stage d d.max_items size h

-- A limit that is kept changes nothing for what follows.
pub Writes-limit_then :
    (stage : WriteStage) (d : Option Descriptor) (size : ℕ) (k : Writer → Writer × Status)
    (bytes : List ℕ)
    → Within d size
    → Writes k bytes
    → Writes (check_write_limit stage d size ⟫ k) bytes
Writes-limit_then stage d size k bytes h g = rw (limit-kept_write stage d size h) g

pub Reads-limit_then {ℓ} :
    {A : Type ℓ} (stage : ReadStage) (d : Option Descriptor) (size : ℕ) (k : ReadM A)
    (bytes : List ℕ) (a : A)
    → Within d size
    → Reads k bytes a
    → Reads (check_read_limit stage d size >>= λ _. k) bytes a
Reads-limit_then stage d size k bytes a h g = rw (limit-kept_read stage d size h) g

size-kept :
    (d : Option Descriptor) (stage : ReadStage) (size : ℕ)
    → size < 2 ^ 64
    → check_size d stage size ≡ pure tt
unfolding check_size
size-kept d stage size h = rw (le→ltb (word - 1) size (omega arith)) refl

pub Reads-size_then {ℓ} :
    {A : Type ℓ} (d : Option Descriptor) (stage : ReadStage) (size : ℕ) (k : ReadM A)
    (bytes : List ℕ) (a : A)
    → size < 2 ^ 64
    → Reads k bytes a
    → Reads (check_size d stage size >>= λ _. k) bytes a
Reads-size_then d stage size k bytes a h g = rw (size-kept d stage size h) g

max_size-kept : (limit size : ℕ) → size ≤ limit → check_max_size limit size ≡ pure tt
unfolding check_max_size
max_size-kept limit size h = fun_ext λ r. rw (le→ltb limit size h) refl

pub Reads-max_size_then {ℓ} :
    {A : Type ℓ} (limit size : ℕ) (k : ReadM A) (bytes : List ℕ) (a : A)
    → size ≤ limit
    → Reads k bytes a
    → Reads (check_max_size limit size >>= λ _. k) bytes a
Reads-max_size_then limit size k bytes a h g = rw (max_size-kept limit size h) g

-- A header with the size and what follows it.
pub Writes-header_then :
    (describe : WriteError → WriteError) (kind : ValueKind) (base size : ℕ)
    (k : Writer → Writer × Status) (bytes : List ℕ)
    → Sized kind base
    → size < 2 ^ 64
    → Writes k bytes
    → Writes
        (describing_write describe (write_size_header kind size) ⟫ k)
        (encode_size base size ++ bytes)
Writes-header_then describe kind base size k bytes sized h g =
    Writes-then (describing_write describe (write_size_header kind size)) k (encode_size base size)
      bytes
      (Writes-describing describe (write_size_header kind size) (encode_size base size)
        (Writes-size kind base sized size h))
      g

pub Reads-header_then {ℓ} :
    {A : Type ℓ} (describe : ReadError → ReadError) (kind : ValueKind) (base size : ℕ)
    (k : ℕ → ReadM A) (bytes : List ℕ) (a : A)
    → Sized kind base
    → size < 2 ^ 64
    → Reads (k size) bytes a
    → Reads
        (describing_read describe (read_size_header kind) >>= k)
        (encode_size base size ++ bytes)
        a
Reads-header_then describe kind base size k bytes a sized h g =
    Reads-bind (describing_read describe (read_size_header kind)) k (encode_size base size) bytes
      size a
      (Reads-describing describe (read_size_header kind) (encode_size base size) size
        (Reads-size kind base sized size h))
      g
