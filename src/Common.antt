-- ===== src/Common.antt =====
-- The names that the other modules share: the libraries', passed on, and those of three children.
pub mod Tests
pub mod Lists
pub mod Int
pub mod ErrorCode
pub use Prim.Native.Nat.{ℕ, zero, suc, ◌+◌, ◌-◌, ◌*◌, ◌/◌, ◌%◌, ◌^◌, ◌≤◌, ◌<◌, bit_and, bit_xor}
pub use Lists.{
  length, get_or, set, take, drop, All, length-append, take-length_append, drop-length_append,
  All-append,
}
pub use Tests.{
  ltb, leb, ◌==◌, if◌then◌else◌, ==_iff, ltb→lt, lt→ltb, Bool-cases, Option-cases, all_below_sound,
}
unfoldable pub use Tests.{all_below}
pub use Int.*
pub use mathlib.Core.Path.{◌≡◌, refl, sym, ap, ◌∙◌, subst}
pub use mathlib.Core.Logic.{◌≢◌, ◌↔◌, ◌⊎◌, inl, inr}
pub use mathlib.Core.Bool.{Bool, true, false, not, ◌&&◌, ◌||◌}
pub use mathlib.Core.Option.{Option, none, some}
pub use mathlib.Core.List.{List, [], ◌∷◌, ◌++◌, map, append_assoc, append-nil}
pub use native.Mathlib.Omega.{arith}

-- A `char` is its `unsigned char` value, a C string or a buffer the list of them.
abbrev pub Bytes : Type 0
Bytes = List ℕ

pub some_injective {ℓ} : {A : Type ℓ} → {x y : A} → some x ≡ some y → x ≡ y
some_injective {x = x} {y} e = ap (λ o. elim o [ none ↦ x | some z ↦ z ]) e
