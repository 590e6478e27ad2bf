-- ===== src/Base.antt =====
-- The names that the other modules share: the libraries', passed on, and those of the children.
pub mod Tests
pub mod Lists
pub mod Slices
pub mod Int
pub mod Chains
pub use Tests.*
pub use Lists.{
  length, get_or, take, drop, length-append, length-take, Returns, Returns-mono, Returns-map,
  Returns-bind, Returns-if, Returns-elim, Returns-test, IfReturns, IfReturns-bind, IfReturns-some,
  IfReturns-then, IfReturns-map, IfReturns-if, IfReturns-Returns, IfReturns-mapped, IfReturns-elim,
  IfReturns-test, upto, mem-upto, Distinct-upto, mem, Distinct, mem-append, replicate,
}
unfoldable pub use Lists.{update}
pub use Slices.{
  drop-append, get_or-drop, drop-suc, take_all, length-drop, take-drop, length-replicate,
  same_text_refl,
}
unfoldable pub use Slices.{same_text}
pub use Chains.{Chain, Chain-start, Chain-frame, ne_of_mem}
pub use Prim.Native.Nat.{ℕ, zero, suc, ◌+◌, ◌-◌, ◌*◌, ◌/◌, ◌%◌, ◌^◌, ◌≤◌, ◌<◌, min}
pub use mathlib.Core.Path.{◌≡◌, refl, sym, ap, ◌∙◌, fun_ext}
pub use mathlib.Core.Logic.{◌≢◌, ◌⊎◌, inl, inr}
pub use mathlib.Core.Bool.{Bool, true, false, ◌&&◌, ◌||◌, not}
pub use mathlib.Core.Option.{Option, none, some}
pub use mathlib.Core.List.{List, [], ◌∷◌, ◌++◌, map, reverse}
pub use native.Mathlib.Omega.{arith}
