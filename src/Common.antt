-- ===== src/Common.antt =====
-- Names that the other modules share: the libraries', passed on, and those of the children below.
mod Tests
mod Lists
mod Codes
mod Bytes
mod Effects
mod Triples
mod Assoc
mod Integers
pub use Tests.*
pub use Lists.*
pub use Codes.*
pub use Integers.*
unfoldable pub use Bytes.{text_eq, has_prefix}
pub use Bytes.{Text, lit, text_eq_refl, text_eq_iff, text_eq_sym}
pub use Effects.{
  Error, external, plain, wrap, api, Result, ok, err, Exec, continue, ◌>>◌, Preserves,
  pure-Preserves, raise-Preserves, wrapping-Preserves, if-Preserves, bind-Preserves,
  preserves_rules, Yields, bind-Yields, pure-Yields, bind-Preserves_where, bind-after, wrap_result,
}
unfoldable pub use Assoc.{at_key, without}
pub use Assoc.{at_key-without}
pub use Triples.{
  Ensures, pure-Ensures, keeps-Ensures, post-Ensures, if-Ensures, wrapping-Ensures, bind-Ensures,
}
unfoldable pub use Effects.{pure, raise, wrapping, ◌>>=◌}
pub use Prim.Native.Nat.{ℕ, zero, suc, ◌+◌, ◌-◌, ◌*◌, ◌/◌, ◌%◌, ◌^◌, ◌≤◌, ◌<◌, max}
pub use Prim.Native.String.{String}
pub use mathlib.Core.Path.{◌≡◌, refl, sym, ap, ◌∙◌, subst}
pub use mathlib.Core.Logic.{◌≢◌, ◌↔◌, ◌⊎◌, inl, inr}
pub use mathlib.Core.Bool.{Bool, true, false, not, ◌&&◌, ◌||◌}
pub use mathlib.Core.Option.{Option, none, some}
pub use mathlib.Core.List.{List, [], ◌∷◌, ◌++◌, map, reverse}
pub use native.Mathlib.Omega.{arith}
