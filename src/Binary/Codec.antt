-- ===== src/Binary/Codec.antt =====
-- `codec<T>` of include/contract/adapters/binary.hpp, what a codec promises, and the codecs of
-- binary.hpp and binary/*.hpp.
pub mod Laws
pub mod Scalar
pub mod Text
pub mod Sequence
pub mod Vector
pub mod Array
pub mod Optional
pub mod Tuple
pub mod Variant
pub mod Map
use contract.Prelude.{Option}
use contract.Binary.Writer.{Writer, Status, Descriptor}
use contract.Binary.Reader.{ReadM}

-- The two overloads of `write` and of `read` are one function: without a field they behave as with
-- one that has no limits. `read` is given what the destination holds, and `initial` is `T{}`.
pub record Codec {ℓ} (A : Type ℓ) : Type ℓ where
  pub write : Option Descriptor → A → Writer → Writer × Status
  pub read : Option Descriptor → A → ReadM A
  pub initial : A
