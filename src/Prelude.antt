-- ===== src/Prelude.antt =====
-- The names that the modules share: the libraries', passed on, and those of the children.
mod Tests
mod Lists
mod Text
mod Int
mod Decimal
mod Fallible
mod Utf8
mod Parse
mod RoundTrip
mod Options
pub use Tests.*
pub use Lists.*
unfoldable pub use Text.*
pub use Int.*
unfoldable pub use Decimal.*
pub use RoundTrip.*
unfoldable pub use Options.{traverse}
pub use Options.{
  ◌>>=◌, require, Given, bind-Given, bind_cong, then-Given, require-Given, Given_some,
  traverse-Given, traverse-length, and-Given, and_cons,
}
pub use Fallible.*
unfoldable pub use Utf8.{valid_utf8}
unfoldable pub use Parse.{parse_int, digits_from, digits, is_digit}
pub use Prim.Native.Nat.{ℕ, zero, suc, ◌+◌, ◌-◌, ◌*◌, ◌/◌, ◌%◌, ◌^◌, ◌≤◌, ◌<◌, min}
pub use mathlib.Core.Path.{◌≡◌, refl, sym, ap, ◌∙◌, subst}
pub use mathlib.Core.Logic.{◌≢◌, ◌↔◌, ◌⊎◌, inl, inr}
pub use mathlib.Core.Bool.{Bool, true, false, not, ◌&&◌, ◌||◌}
pub use mathlib.Core.Option.{Option, none, some}
pub use mathlib.Core.List.{List, [], ◌∷◌, ◌++◌, map}
pub use native.Mathlib.Omega.{arith}
