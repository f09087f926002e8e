-- ===== src/Binary/Codec/Variant.antt =====
-- binary/variant.hpp: `codec<std::variant<Ts...>>`: the index of the alternative as a
-- `std::size_t`, then the alternative.
pub mod Laws
use contract.Prelude.{
  ℕ, zero, suc, ◌+◌, ◌^◌, ◌≤◌, ◌<◌, ◌≡◌, ◌⊎◌, inl, inr, refl, sym, ap, ◌∙◌, Bool, Option, none,
  List, [], ◌++◌, arith, ltb, ◌==◌, if◌then◌else◌, length, All, All-append, IsByte, to_bytes,
  length-to_bytes, to_bytes-IsByte, ==_refl,
}
use contract.Error.{set_code, set_stage, set_sizes}
use contract.Binary.Codes.{ReadErrorCode, ReadStage}
use contract.Binary.Cipher.{Key, IsKey}
use contract.Binary.Stream.Sinks.{HasRoom}
use contract.Binary.Stream.Sources.{Holds}
use contract.Binary.Writer.{Writer, Status, Descriptor, ◌⟫◌, write_size}
use contract.Binary.Reader.{
  Reader, ReadM, ReadError, pure, ◌>>=◌, next_read, read_fails, read_size, describing_read,
  described_read, element_read_error,
}
use contract.Binary.Codec.{Codec}
use contract.Binary.Codec.Laws.{
  IsCodec, Writes, Reads, Writes-size_then, Reads-size_then, Reads-scalar, wrote, took,
}
use contract.Binary.Codec.Sequence.Laws.{Reads-map, Reads-describing}

-- The pack `Ts...`: its size, `value.index()`, the write that `std::visit` chooses, and
-- `read_by_index<I>` of a variant with `total` alternatives, of which this is the rest from `I` on.
pub record Alternatives (V : Type 0) : Type 0 where
  pub count : ℕ
  pub index : V → ℕ
  pub write_item : V → Writer → Writer × Status
  pub read_by_index : ℕ → ℕ → ℕ → ReadM V

unfoldable pub variant_index_error : ℕ → ℕ → ReadError → ReadError
unfolding set_code set_stage set_sizes
variant_index_error total index e =
    set_sizes total index
      (set_stage ReadStage.variant (set_code ReadErrorCode.variant_index_out_of_range e))

unfoldable pub no_alternatives : Alternatives ⊥
no_alternatives = record {
  count = 0;
  index = λ v. absurd v;
  write_item = λ v. absurd v;
  read_by_index = λ at total index. read_fails (variant_index_error total index);
}

module _ {A V : Type 0} (c : Codec A) (rest : Alternatives V) where
  unfoldable pub alternative_index : A ⊎ V → ℕ
  alternative_index (inl a) = 0
  alternative_index (inr v) = suc (rest.index v)

  unfoldable pub write_alternative : A ⊎ V → Writer → Writer × Status
  write_alternative (inl a) = c.write none a
  write_alternative (inr v) = rest.write_item v

  -- T item{}; if (in.read_value(item) == read_status::error) {…}
  unfoldable pub read_alternative : ℕ → ℕ → ReadM A
  read_alternative at total =
      describing_read (element_read_error ReadStage.variant at total) (c.read none c.initial)

  unfoldable pub read_alternatives : ℕ → ℕ → ℕ → ReadM (A ⊎ V)
  unfolding read_alternative
  read_alternatives at total index =
      if index == at
      then (read_alternative at total >>= λ item. pure (inl item))
      else (rest.read_by_index (at + 1) total index >>= λ v. pure (inr v))

  unfoldable pub alternative : Alternatives (A ⊎ V)
  unfolding alternative_index write_alternative read_alternatives
  alternative = record {
    count = suc rest.count;
    index = alternative_index;
    write_item = write_alternative;
    read_by_index = read_alternatives;
  }

module _ {V : Type 0} (a : Alternatives V) where
  unfoldable pub write_variant : V → Writer → Writer × Status
  write_variant v = write_size (a.index v) ⟫ a.write_item v

  unfoldable pub read_variant : ReadM V
  read_variant = read_size >>= a.read_by_index 0 a.count

  unfoldable pub variant : V → Codec V
  unfolding write_variant read_variant
  variant initial = record {
    write = λ d. write_variant;
    read = λ d old. read_variant;
    initial = initial;
  }

-- What a pack promises: each alternative is a codec, found again under its index, and an index past
-- the last is refused.
pub record IsAlternatives {V : Type 0} (a : Alternatives V) (encode : Key → Bool → V → List ℕ)
    (Fits : V → Type 0) : Type 0 where
  pub below : (v : V) → a.index v < a.count
  pub writes :
      (v : V) (w : Writer)
      → Fits v
      → HasRoom w.out (length (encode w.encrypt_key w.encrypt_active v))
      → Writes (a.write_item v) w (encode w.encrypt_key w.encrypt_active v)
  pub reads :
      (at total : ℕ) (v : V) (r : Reader)
      → Fits v
      → Holds r.input (encode r.encrypt_key r.encrypt_active v)
      → Reads
          (a.read_by_index at total (at + a.index v))
          r
          (encode r.encrypt_key r.encrypt_active v)
          v
  pub refuses :
      (at total index : ℕ) (r : Reader)
      → at + a.count ≤ index
      → a.read_by_index at total index r ≡ read_fails (variant_index_error total index) r
  pub bytes :
      (key : Key) (active : Bool) (v : V) → IsKey key → Fits v → All IsByte (encode key active v)

pub no_alternatives-IsAlternatives : IsAlternatives no_alternatives (λ key active v. []) (λ v. Unit)
unfolding no_alternatives
no_alternatives-IsAlternatives = record {
  below = λ v. absurd v;
  writes = λ v. absurd v;
  reads = λ at total v. absurd v;
  refuses = λ at total index r h. refl;
  bytes = λ key active v. absurd v;
}
