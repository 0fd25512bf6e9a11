-- ===== src/Base.antt =====
-- Names and helpers that every module shares: the libraries' names, Boolean tests, effects.
mod Tests
mod Lists
pub mod Effects
pub mod Hoare
pub mod Int
pub mod Text
pub use Tests.*
unfoldable pub use Lists.*
pub use Effects.{Error, not_found, conflict, not_exist, failure, message}
pub use Effects.{Result, ok, err, Outcome, done, failed, panicked, Exec}
pub use Prim.Native.Nat.{ℕ, zero, suc, ◌+◌, ◌-◌, ◌*◌, ◌≤◌, ◌<◌}
pub use Prim.Native.String.{String, ◌++◌ as ◌<>◌}
pub use mathlib.Core.Path.{◌≡◌, refl, sym, ap, ◌∙◌, fun_ext}
pub use mathlib.Core.Logic.{◌≢◌, ◌↔◌, ◌⊎◌, inl, inr}
pub use mathlib.Core.Bool.{Bool, true, false, not, ◌&&◌, ◌||◌}
pub use mathlib.Core.Option.{Option, none, some}
pub use mathlib.Core.List.{List, [], ◌∷◌, ◌++◌, map}
pub use native.Mathlib.Omega.{arith}
pub use text.Mathlib.Text.{◌==◌}
pub use text.Mathlib.TextEquality.{eq_iff}
