-- ===== src/Prelude.antt =====
-- What the modules share: the libraries' names passed on, tests on numbers, lists, machine words
-- and updates of C arrays.
mod Tests
mod Lists
mod Words
mod Loops
mod Bytes
pub use Tests.*
pub use Lists.*
pub use Words.*
unfoldable pub use Loops.{for_range}
pub use Loops.{for_range_inv}
unfoldable pub use Bytes.{all_below}
pub use Bytes.{all_below_lem}
pub use Prim.Native.Nat.{ℕ, zero, suc, ◌+◌, ◌-◌, ◌*◌, ◌/◌, ◌%◌, ◌^◌, ◌≤◌, ◌<◌, min}
pub use mathlib.Core.Path.{◌≡◌, refl, sym, ap, ap₂, ◌∙◌, subst, fun_ext}
pub use mathlib.Core.Logic.{◌≢◌, ◌↔◌, ◌⊎◌, inl, inr}
pub use mathlib.Core.Bool.{Bool, true, false, not, ◌&&◌, ◌||◌}
pub use mathlib.Core.Option.{Option, none, some}
pub use mathlib.Core.List.{
  List, [], ◌∷◌, ◌++◌, map, reverse, reverse-append, append-nil, append_assoc,
}
pub use native.Mathlib.Omega.{arith}
