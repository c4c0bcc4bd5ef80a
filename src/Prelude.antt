-- ===== src/Prelude.antt =====
-- What the modules of every component share: the library's names, passed on, tests on numbers,
-- lists under native indices, signed integers, outcomes of Go functions and string-keyed maps.
mod Tests
mod Lists
mod Bytes
mod Uuids
pub mod Int
pub mod Outcome
pub mod Channels
pub mod Maps
pub mod Text
pub use Tests.*
pub use Lists.*
pub use Bytes.*
pub use Uuids.*
pub use Prim.Native.Nat.{ℕ, zero, suc, ◌+◌, ◌-◌, ◌*◌, ◌/◌, ◌%◌, ◌^◌, ◌≤◌, ◌<◌}
pub use Prim.Native.String.{String}
pub use mathlib.Core.Path.{◌≡◌, refl, sym, ap, subst, fun_ext, ◌∙◌}
pub use mathlib.Core.Logic.{◌≢◌, ◌↔◌, ◌⊎◌, inl, inr, ⊎_elim}
pub use mathlib.Core.Bool.{Bool, true, false, not, ◌&&◌, ◌||◌}
pub use mathlib.Core.Option.{Option, none, some}
pub use mathlib.Core.List.{List, [], ◌∷◌, ◌++◌, map, foldl, append-nil, append_assoc, Memᴰ}
pub use native.Mathlib.Omega.{arith}
pub use native.Mathlib.Numerals.{towards_suc, add-one}
pub use text.Mathlib.Text.{◌==◌ as str_eq}
pub use text.Mathlib.TextEquality.{eq_iff}
pub use text.Mathlib.TextPositions.{eq_refl}
unfoldable pub use native.Mathlib.Decide.{dec_lt, ℕ_discrete}
