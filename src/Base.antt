-- ===== src/Base.antt =====
-- What the other modules share: library names, tests, lists, Go's `int`, results and interfaces.
mod Tests
mod Lists
mod Slices
mod Int
mod Outcome
mod Perms
mod Walk
mod Tiers
mod Groups
mod Vendor
mod Random
mod Dict
pub use Tests.*
pub use Lists.*
pub use Slices.*
unfoldable pub use Int.*
unfoldable pub use Outcome.*
unfoldable pub use Tiers.*
pub use Groups.*
unfoldable pub use Walk.*
pub use Perms.*
pub use Vendor.*
unfoldable pub use Random.*
unfoldable pub use Dict.*
pub use text.Mathlib.Text.{◌==◌ as str_eq}
pub use Prim.Native.Nat.{ℕ, zero, suc, ◌+◌, ◌-◌, ◌*◌, ◌/◌, ◌%◌, ◌^◌, ◌≤◌, ◌<◌}
pub use Prim.Native.String.{String}
pub use mathlib.Core.Path.{◌≡◌, refl, sym, ap, ap₂, subst, ◌∙◌}
pub use mathlib.Core.Logic.{◌≢◌, ◌↔◌, ◌⊎◌, inl, inr}
pub use mathlib.Core.Bool.{Bool, true, false, not, ◌&&◌, ◌||◌}
pub use mathlib.Core.Option.{Option, none, some}
pub use mathlib.Core.List.{List, [], ◌∷◌, ◌++◌, map, foldl, Permᴰ}
pub use native.Mathlib.Omega.{arith}
