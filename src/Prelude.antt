-- ===== src/Prelude.antt =====
-- The names that the other modules share: the libraries', passed on, and those of three children.
pub mod Equality
pub mod Lists
pub mod Assoc
pub mod Order
pub mod Integers
pub use Equality.{Eq, ◌==◌, contains, Text, nat_eq, text_eq}
unfoldable pub use Equality.{text_discrete, nat_discrete}
pub use Lists.*
pub use Integers.*
unfoldable pub use Order.{text_lt, sorted}
pub use Order.{
  text_lt_irrefl, text_lt_trans, text_lt_antisymm, text_lt_asymm, text_ge_trans, contains-sorted,
  IsSorted, sorted-IsSorted,
}
pub use Assoc.{
  Dict, keys, lookup-nil, lookup-insert, contains-keys, contains-keys-insert, Distinct-insert,
  length-insert,
}
unfoldable pub use Assoc.{lookup, insert, get_or}
pub use Prim.Native.Nat.{ℕ, zero, suc, ◌+◌, ◌-◌, ◌*◌, ◌/◌, ◌%◌, ◌^◌, ◌≤◌, ◌<◌, max, min}
pub use Prim.Native.Char.{code}
pub use Prim.Native.String.{String}
pub use mathlib.Core.Path.{◌≡◌, refl, sym, ap, ◌∙◌, subst}
pub use mathlib.Core.Logic.{◌≢◌, ◌↔◌, ◌⊎◌, inl, inr}
pub use mathlib.Core.Bool.{Bool, true, false, ◌&&◌, ◌||◌, not}
pub use mathlib.Core.Option.{Option, none, some}
pub use mathlib.Core.List.{List, [], ◌∷◌, ◌++◌, map, append-nil, append_assoc}
pub use native.Mathlib.Omega.{arith}

-- The code points of a literal.
abbrev pub codes : String → Text
codes String.[] = []
codes (String.◌∷◌ c s) = code c ∷ codes s
