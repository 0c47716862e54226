-- ===== src/Base.antt =====
-- The names that the other modules share: the libraries' names passed on, tests, lists over the
-- native numbers, texts, results and actions. No file of the repository is modelled here.
mod Tests
mod Lists
mod Chars
mod Equality
mod Outcome
pub mod Int
pub mod Sorting
pub mod Exec
pub use Tests.*
pub use Lists.*
unfoldable pub use Chars.*
pub use Equality.*
pub use Outcome.*
pub use Prim.Native.Nat.{ℕ, zero, suc, ◌+◌, ◌-◌, ◌*◌, ◌/◌, ◌%◌, ◌^◌, ◌≤◌, ◌<◌, min, max}
pub use Prim.Native.String.{String}
pub use mathlib.Core.Path.{◌≡◌, refl, sym, ap, ◌∙◌, subst, fun_ext}
pub use mathlib.Core.Logic.{◌≢◌, ◌↔◌, ◌⊎◌, inl, inr}
pub use mathlib.Core.Bool.{Bool, true, false, ◌&&◌, ◌||◌, not}
pub use mathlib.Core.Option.{Option, none, some}
pub use mathlib.Core.List.{List, [], ◌∷◌, ◌++◌, map, reverse, append-nil, append_assoc}
pub use native.Mathlib.Omega.{arith}
