-- ===== src/Prelude.antt =====
-- The names that the modules share: the libraries', passed on, and those of the children.
mod Tests
mod Lists
mod Strings
pub mod Int
mod Maps
pub use Tests.*
pub use Lists.{All, All-append, All-map, length, take, drop, length-append, length-take_le}
unfoldable pub use Lists.{select}
pub use Strings.{
  Text, contains, AreDistinct, contains-append_one, AreDistinct-append_one, text, eq_sound, eq_refl,
  eq_iff, is_empty,
}
unfoldable pub use Strings.{◌==◌}
pub use Maps.{Map, IsMap, get-remove, get-put, remove-IsMap, put-IsMap, has}
unfoldable pub use Maps.{get, remove, put}
pub use Prim.Native.Nat.{ℕ, zero, suc, ◌+◌, ◌-◌, ◌*◌, ◌/◌, ◌%◌, ◌^◌, ◌≤◌, ◌<◌}
pub use Prim.Native.String.{String}
pub use mathlib.Core.Path.{◌≡◌, refl, sym, ap, ◌∙◌, subst}
pub use mathlib.Core.Logic.{◌≢◌, ◌↔◌, ◌⊎◌, inl, inr}
pub use mathlib.Core.Bool.{Bool, true, false, not, ◌&&◌, ◌||◌}
pub use mathlib.Core.Option.{Option, none, some}
pub use mathlib.Core.List.{List, [], ◌∷◌, ◌++◌, map}
pub use native.Mathlib.Omega.{arith}
