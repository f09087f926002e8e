-- ===== src/Binary/Codec/Variant/Laws.antt =====
-- Variants that are written and read back, and the index that none of the alternatives has.
use contract.Prelude.{
  ℕ, suc, ◌+◌, ◌^◌, ◌≤◌, ◌<◌, ◌≡◌, ◌⊎◌, inl, inr, ap, ◌∙◌, Bool, Option, none, List, ◌++◌, arith,
  ◌==◌, length, All, All-append, IsByte, to_bytes, to_bytes-IsByte, ==_refl,
}
use native.Mathlib.Nat.{zero-add, add-zero}
use contract.Binary.Cipher.{Key, IsKey}
use contract.Binary.Stream.Sinks.{HasRoom}
use contract.Binary.Stream.Sources.{Holds}
use contract.Binary.Writer.{Writer, Descriptor}
use contract.Binary.Reader.{Reader, pure, next_read, read_fails, described_read, element_read_error}
use contract.Binary.Codec.{Codec}
use contract.Binary.Codec.Laws.{
  IsCodec, Writes, Reads, Writes-size_then, Reads-size_then, Reads-size, wrote, took,
}
use contract.Binary.Codec.Sequence.Laws.{Reads-map}
use contract.Binary.Codes.{ReadStage}
use contract.Binary.Codec.Variant.{
  Alternatives, IsAlternatives, variant_index_error, alternative, alternative_index,
  write_alternative, read_alternative, read_alternatives, write_variant, read_variant, variant,
}

module _ {A V : Type 0} (encode : Key → Bool → A → List ℕ)
    (encode_rest : Key → Bool → V → List ℕ) where
  abbrev pub encode_alternative : Key → Bool → A ⊎ V → List ℕ
  encode_alternative key active (inl a) = encode key active a
  encode_alternative key active (inr v) = encode_rest key active v

module _ {A V : Type 0} (Fits : Option Descriptor → A → Type 0) (FitsRest : V → Type 0) where
  abbrev pub FitsAlternative : A ⊎ V → Type 0
  FitsAlternative (inl a) = Fits none a
  FitsAlternative (inr v) = FitsRest v

abbrev pub encode_variant :
    {V : Type 0} → Alternatives V → (Key → Bool → V → List ℕ) → Key → Bool → V → List ℕ
encode_variant a encode key active v = to_bytes 8 (a.index v) ++ encode key active v

module _ {A V : Type 0} (c : Codec A) (encode : Key → Bool → A → List ℕ)
    (Fits : Option Descriptor → A → Type 0) (law : IsCodec c encode Fits) (rest : Alternatives V)
    (encode_rest : Key → Bool → V → List ℕ) (FitsRest : V → Type 0)
    (rest_law : IsAlternatives rest encode_rest FitsRest) where
  below : (v : A ⊎ V) → alternative_index c rest v < suc rest.count
  unfolding alternative_index
  below (inl a) = omega arith
  below (inr v) = omega (arith, rest_law.below v)

  writes :
      (v : A ⊎ V) (w : Writer)
      → FitsAlternative Fits FitsRest v
      → HasRoom w.out
          (length (encode_alternative encode encode_rest w.encrypt_key w.encrypt_active v))
      → Writes
          (write_alternative c rest v)
          w
          (encode_alternative encode encode_rest w.encrypt_key w.encrypt_active v)
  unfolding write_alternative
  writes (inl a) w fits room = law.writes none a w fits room
  writes (inr v) w fits room = rest_law.writes v w fits room

  reads :
      (at total : ℕ) (v : A ⊎ V) (r : Reader)
      → FitsAlternative Fits FitsRest v
      → Holds r.input (encode_alternative encode encode_rest r.encrypt_key r.encrypt_active v)
      → Reads
          (read_alternatives c rest at total (at + alternative_index c rest v))
          r
          (encode_alternative encode encode_rest r.encrypt_key r.encrypt_active v)
          v
  unfolding read_alternatives alternative_index
  reads at total (inl a) r fits h =
      rw (add-zero, ==_refl)
        (Reads-map (read_alternative c rest at total) inl r
          (encode r.encrypt_key r.encrypt_active a) a
          (unfold read_alternative in
            ap (described_read (element_read_error ReadStage.variant at total))
              (law.reads none a c.initial r fits h)))
  reads at total (inr v) r fits h =
      let other : (at + suc (rest.index v) == at) ≡ Bool.false = ground arith in
      let next : at + suc (rest.index v) ≡ at + 1 + rest.index v = omega arith in
      rw other (
        rw next (
          Reads-map (rest.read_by_index (at + 1) total (at + 1 + rest.index v)) inr r
            (encode_rest r.encrypt_key r.encrypt_active v) v
            (rest_law.reads (at + 1) total v r fits h)))

  refuses :
      (at total index : ℕ) (r : Reader)
      → at + suc rest.count ≤ index
      → read_alternatives c rest at total index r ≡ read_fails (variant_index_error total index) r
  unfolding read_alternatives read_fails
  refuses at total index r h =
      let other : (index == at) ≡ Bool.false = ground arith in
      rw other
        (ap (next_read (λ v. pure (inr v))) (rest_law.refuses (at + 1) total index r (omega arith)))

  alternative-IsByte :
      (key : Key) (active : Bool) (v : A ⊎ V)
      → IsKey key
      → FitsAlternative Fits FitsRest v
      → All IsByte (encode_alternative encode encode_rest key active v)
  alternative-IsByte key active (inl a) k fits = law.bytes key active none a k fits
  alternative-IsByte key active (inr v) k fits = rest_law.bytes key active v k fits

  pub alternative-IsAlternatives :
      IsAlternatives
        (alternative c rest)
        (encode_alternative encode encode_rest)
        (FitsAlternative Fits FitsRest)
  unfolding alternative
  alternative-IsAlternatives = record {
    below = below;
    writes = writes;
    reads = reads;
    refuses = refuses;
    bytes = alternative-IsByte;
  }

module _ {V : Type 0} (a : Alternatives V) (encode : Key → Bool → V → List ℕ) (Fits : V → Type 0)
    (law : IsAlternatives a encode Fits) where
  -- A variant of lawful alternatives is stored as the index of its alternative and the alternative,
  -- and is read back as the same alternative with the same value.
  pub variant-IsCodec :
      (initial : V)
      → a.count ≤ 2 ^ 64
      → IsCodec (variant a initial) (encode_variant a encode) (λ d v. Fits v)
  unfolding variant write_variant read_variant
  variant-IsCodec initial small = record {
    writes = λ d v w fits room.
        Writes-size_then (a.index v) (a.write_item v) w (encode w.encrypt_key w.encrypt_active v)
          room (law.writes v (wrote w (to_bytes 8 (a.index v))) fits);
    reads = λ d v old r fits h.
        Reads-size_then (a.index v) (a.read_by_index 0 a.count) r
          (encode r.encrypt_key r.encrypt_active v) v (omega (arith, law.below v)) h
          (rw zero-add at (law.reads 0 a.count v (took r (length (to_bytes 8 (a.index v)))) fits));
    bytes = λ key active d v k fits.
        All-append IsByte (to_bytes 8 (a.index v)) (encode key active v)
          (to_bytes-IsByte 8 (a.index v)) (law.bytes key active v k fits);
  }

  -- Where the next 8 bytes hold an index that no alternative has, reading the variant takes those
  -- bytes and fails with variant_index_out_of_range, the number of alternatives and the index.
  pub variant-refuses :
      (index : ℕ) (r : Reader)
      → a.count ≤ index
      → index < 2 ^ 64
      → Holds r.input (to_bytes 8 index)
      → read_variant a r
        ≡ read_fails (variant_index_error a.count index) (took r (length (to_bytes 8 index)))
  unfolding read_variant
  variant-refuses index r past small h =
      ap (next_read (a.read_by_index 0 a.count)) (Reads-size r index small h)
      ∙ law.refuses 0 a.count index (took r (length (to_bytes 8 index))) (omega arith)
