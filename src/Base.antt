-- ===== src/Base.antt =====
-- Names that the whole library shares: those of the libraries, passed on, and those of the
-- children (Boolean tests, lists as tables, texts). No code of the repository is modelled here.
pub mod Tests
pub mod Tables
pub mod Growth
pub mod Keyed
pub mod Lookups
pub mod Member
pub mod Sorting
pub mod Ordered
pub use Prim.Native.Nat.{ℕ, zero, suc, ◌+◌, ◌-◌, ◌≤◌, ◌<◌, max}
pub use Prim.Native.String.{String}
pub use mathlib.Core.Path.{◌≡◌, refl, sym, ap, subst, ◌∙◌}
pub use mathlib.Core.Logic.{◌≢◌, ◌↔◌, ◌⊎◌, inl, inr}
pub use mathlib.Core.Bool.{Bool, true, false, not, ◌&&◌, ◌||◌}
pub use mathlib.Core.Option.{Option, none, some}
pub use mathlib.Core.List.{List, [], ◌∷◌, ◌++◌, map}
pub use native.Mathlib.Omega.{arith}
pub use text.Mathlib.Text.{◌==◌ as str_eq}
pub use text.Mathlib.TextEquality.{eq_iff}
unfoldable pub use Tests.*
pub use Tables.*
pub use Growth.*
pub use Keyed.*
pub use Lookups.*
unfoldable pub use Member.*
pub use Sorting.*
pub use Ordered.*
