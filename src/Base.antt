-- ===== src/Base.antt =====
-- Names that every module shares: the libraries', passed on, and those of four children. C arrays
-- are functions of the index (Base/Arrays), sequences of bytes are lists (Base/Lists).
mod Tests
mod Lists
mod Arrays
mod Order
mod Codes
pub mod Bits
pub use Tests.*
pub use Lists.*
pub use Arrays.*
pub use Order.*
pub use Codes.*
pub use Prim.Native.Nat.{
  ℕ, zero, suc, ◌+◌, ◌-◌, ◌*◌, ◌/◌, ◌%◌, ◌^◌, ◌≤◌, ◌<◌, min, max, bit_and, bit_or, bit_xor,
}
pub use mathlib.Core.Path.{◌≡◌, refl, sym, ap, ap₂, subst, fun_ext, ◌∙◌}
pub use mathlib.Core.Logic.{◌≢◌, ◌↔◌, ◌⊎◌, inl, inr}
pub use mathlib.Core.Bool.{Bool, true, false, not, ◌&&◌, ◌||◌}
pub use mathlib.Core.Option.{Option, none, some}
pub use mathlib.Core.List.{List, [], ◌∷◌, ◌++◌, map, append-nil, append_assoc}
pub use native.Mathlib.Omega.{arith}
