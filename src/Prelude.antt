-- ===== src/Prelude.antt =====
-- The names that the other modules share: those of the libraries, passed on, the tests on native
-- numbers, lists over native numbers, machine words and outcomes.
mod Tests
mod Lists
mod Words
mod Panics
mod Integers
mod Bytes
mod Texts
pub use Tests.*
pub use Lists.*
unfoldable pub use Words.*
pub use Panics.*
pub use Integers.*
unfoldable pub use Bytes.*
unfoldable pub use Texts.*
pub use Prim.Native.Nat.{ℕ, zero, suc, ◌+◌, ◌-◌, ◌*◌, ◌/◌, ◌%◌, ◌^◌, ◌≤◌, ◌<◌, min, max}
pub use mathlib.Core.Path.{◌≡◌, refl, sym, ap, ◌∙◌, subst}
pub use mathlib.Core.Logic.{◌≢◌, ◌↔◌, ◌⊎◌, inl, inr, ite, if_pos, if_neg}
pub use mathlib.Core.Bool.{Bool, true, false, not, ◌&&◌, ◌||◌}
pub use mathlib.Core.Option.{Option, none, some}
pub use mathlib.Core.List.{List, [], ◌∷◌, ◌++◌, map}
pub use native.Mathlib.Omega.{arith}
unfoldable pub use native.Mathlib.Decide.{dec_lt, ℕ_discrete}
