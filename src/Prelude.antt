-- ===== src/Prelude.antt =====
-- The names that every module shares: the libraries', passed on, and those of the children.
mod Tests
mod Lists
mod Dicts
mod Texts
mod Dots
pub use Tests.*
pub use Lists.*
unfoldable pub use Texts.{
  strip_prefix, strip_or_self, byte_length, trim_left, trim_right, trim_space,
}
pub use Texts.*
pub use Dicts.{Dict, IsKeyed, keyed_laws, dict_laws}
pub use Dicts.{get-put, get-remove, get-empty, put-IsKeyed, remove-IsKeyed, get-key, get-In, In-get}
unfoldable pub use Dicts.{empty, get, put, remove, values}
pub use Prim.Native.Nat.{ℕ, zero, suc, ◌+◌, ◌-◌, ◌*◌, ◌/◌, ◌%◌, ◌^◌, ◌≤◌, ◌<◌, min, max}
pub use Prim.Native.String.{String}
pub use mathlib.Core.Path.{◌≡◌, refl, sym, ap, subst, ◌∙◌}
pub use mathlib.Core.Logic.{◌≢◌, ◌↔◌, ◌⊎◌, inl, inr}
pub use mathlib.Core.Bool.{Bool, true, false, not, ◌&&◌, ◌||◌}
pub use mathlib.Core.Option.{Option, none, some}
pub use mathlib.Core.List.{append-nil, append_assoc}
pub use mathlib.Core.List.{List, [], ◌∷◌, ◌++◌, map}
pub use native.Mathlib.Omega.{arith}
pub use text.Mathlib.Text.{◌==◌}
pub use text.Mathlib.TextEquality.{eq_iff}
pub use text.Mathlib.TextPositions.{eq_refl}
unfoldable pub use Dots.{dotless, split_dots}
pub use Dots.{split_dots-dotless, split_dots-first}
