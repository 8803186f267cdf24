-- ===== src/Prelude.antt =====
-- Names shared by every module: the libraries', passed on, and tests, lists, text and loops.
mod Tests
mod Lists
mod Text
mod Loops
mod Clock
mod Maps
pub use Tests.*
pub use Lists.*
unfoldable pub use Text.{bytes_equal, decimal}
pub use Text.*
unfoldable pub use Loops.{each}
pub use Loops.*
unfoldable pub use Clock.{sub_time, seconds}
pub use Clock.*
pub use Maps.*
pub use Prim.Native.Nat.{ℕ, zero, suc, ◌+◌, ◌-◌, ◌*◌, ◌/◌, ◌%◌, ◌^◌, ◌≤◌, ◌<◌}
pub use Prim.Native.String.{String}
pub use mathlib.Core.Path.{◌≡◌, refl, sym, ap, ap₂, ◌∙◌}
pub use mathlib.Core.Logic.{◌≢◌, ◌↔◌, ◌⊎◌, inl, inr}
pub use mathlib.Core.Bool.{Bool, true, false, ◌&&◌, ◌||◌, not}
pub use mathlib.Core.Option.{Option, none, some}
pub use mathlib.Core.List.{List, [], ◌∷◌, ◌++◌, map}
pub use native.Mathlib.Omega.{arith}
pub use text.Mathlib.Text.{◌==◌ as str_eq}
pub use text.Mathlib.TextEquality.{eq_iff}
pub use Prim.Native.String.{◌++◌ as text_append}
