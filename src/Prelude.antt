-- ===== src/Prelude.antt =====
-- Names that every module shares: the libraries', passed on, and those of the children.
mod Tests
mod Lists
mod Equality
mod Text
mod Split
mod Replace
pub use Tests.*
pub use Lists.*
pub use Equality.*
pub use Text.{len, prefix, len-prefix-le, is_text, is_space, or_text, is_ascii, blank_text}
unfoldable pub use Replace.{replace_char}
unfoldable pub use Split.{
  splitlines, split_colons, split_colons_at_most, after_colon, join_colons, push,
}
unfoldable pub use Text.{lstrip, rstrip, strip, concat, has_text}
pub use Prim.Native.Nat.{ℕ, zero, suc, ◌+◌, ◌-◌, ◌*◌, ◌/◌, ◌%◌, ◌^◌, ◌≤◌, ◌<◌, min, max}
pub use Prim.Native.Char.{Char, code}
pub use Prim.Native.String.{String}
pub use mathlib.Core.Path.{◌≡◌, refl, sym, ap, ◌∙◌, subst}
pub use mathlib.Core.Logic.{◌≢◌, ◌↔◌, ◌⊎◌, inl, inr}
pub use mathlib.Core.Bool.{Bool, true, false, not, ◌&&◌, ◌||◌}
pub use mathlib.Core.Option.{Option, none, some}
pub use mathlib.Core.List.{List, [], ◌∷◌, ◌++◌, map, append_assoc, append-nil}
pub use native.Mathlib.Omega.{arith}
pub use text.Mathlib.TextEquality.{eq_iff}
