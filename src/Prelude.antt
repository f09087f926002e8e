-- ===== src/Prelude.antt =====
-- What the modules share: names of the libraries passed on, Boolean tests, lists cut by native
-- numbers, machine words and the bits of a byte.
pub mod Tests
pub mod Lists
pub mod Words
pub mod Bits
pub mod Signed
pub use Tests.*
pub use Words.{word, IsByte, length-to_bytes, to_bytes-IsByte, of_bytes-to_bytes, of_bytes-lt}
pub use Bits.*
pub use Signed.{ℤ}
unfoldable pub use Words.{to_bytes, of_bytes}
pub use Lists.*
pub use Prim.Native.Nat.{ℕ, zero, suc, ◌+◌, ◌-◌, ◌*◌, ◌/◌, ◌%◌, ◌^◌, ◌≤◌, ◌<◌}
pub use mathlib.Core.Path.{◌≡◌, refl, sym, ap, ap₂, ◌∙◌}
pub use mathlib.Core.Logic.{◌≢◌, ◌↔◌, ◌⊎◌, inl, inr}
pub use mathlib.Core.Bool.{Bool, true, false, ◌&&◌, ◌||◌}
pub use mathlib.Core.Option.{Option, none, some}
pub use mathlib.Core.List.{List, [], ◌∷◌, ◌++◌}
pub use native.Mathlib.Omega.{arith}
