-- ===== src/Base.antt =====
-- The names that every component shares: those of the libraries, passed on, the Boolean tests on
-- numbers, and in the children lists and the actions that may throw.
pub mod Lists
pub mod Action
pub mod Int
pub mod Keeping
pub mod Following
pub mod Preserving
pub mod Chosen
pub mod Distinct
pub use Prim.Native.Nat.{ℕ, zero, suc, ◌+◌, ◌-◌, ◌*◌, ◌/◌, ◌≤◌, ◌<◌, min, max}
pub use Prim.Native.String.{String, ◌++◌ as ◌<>◌}
pub use mathlib.Core.Path.{◌≡◌, refl, sym, ap, ap₂, ◌∙◌, subst}
pub use mathlib.Core.Logic.{◌≢◌, ◌↔◌, ◌⊎◌, inl, inr}
pub use mathlib.Core.Bool.{Bool, true, false, not, ◌&&◌, ◌||◌}
pub use mathlib.Core.Option.{Option, none, some}
pub use mathlib.Core.List.{List, [], ◌∷◌, ◌++◌, map, reverse}
pub use native.Mathlib.Omega.{arith}
pub use text.Mathlib.Text.{◌==◌ as str_eq}
pub use text.Mathlib.TextEquality.{eq_iff}
pub use text.Mathlib.TextPositions.{eq_refl}
use Prim.Native.Nat.{compare, Ordering}
use Prim.Native.String.{compare as compare_text}
use text.Mathlib.Text.{is_lt}

abbrev pub ltb : ℕ → ℕ → Bool
ltb a b = elim (compare a b) [ Ordering.lt ↦ true | _ ↦ false ]

abbrev pub leb : ℕ → ℕ → Bool
leb a b = elim (compare a b) [ Ordering.gt ↦ false | _ ↦ true ]

infix 50 ◌==◌
abbrev pub ◌==◌ : ℕ → ℕ → Bool
a == b = elim (compare a b) [ Ordering.eq ↦ true | _ ↦ false ]

infix 1 if◌then◌else◌
abbrev pub if◌then◌else◌ {ℓ} : {A : Type ℓ} → Bool → A → A → A
if true then x else y = x
if false then x else y = y

pub Bool-cases : (b : Bool) → (b ≡ true) ⊎ (b ≡ false)
Bool-cases true = inl refl
Bool-cases false = inr refl

pub Option-cases {ℓ} : {A : Type ℓ} (o : Option A) → (o ≡ none) ⊎ ((a : A) × (o ≡ some a))
Option-cases none = inl refl
Option-cases (some a) = inr (a, refl)

pub leb→le : (a b : ℕ) → leb a b ≡ true → a ≤ b
leb→le a b h = ground arith

pub leb→gt : (a b : ℕ) → leb a b ≡ false → b < a
leb→gt a b h = ground arith

pub ==_self : (a : ℕ) → (a == a) ≡ true
==_self a = ground arith

-- JavaScript reads a missing number as 0 where it compares and multiplies.
abbrev pub number : Option ℕ → ℕ
number none = 0
number (some n) = n

-- A column that may be NULL equals a text.
abbrev pub is_text : Option String → String → Bool
is_text none s = false
is_text (some t) s = str_eq t s

-- A condition on `undefined` is left out of what `find` and `findOne` ask.
abbrev pub is_named : Option String → String → Bool
is_named none s = true
is_named (some t) s = str_eq s t

abbrev pub is_numbered : Option ℕ → ℕ → Bool
is_numbered none n = true
is_numbered (some m) n = n == m

-- A condition on `undefined` is met by no row where `update`, `increment` or `decrement` has it.
abbrev pub is_given_text : Option String → String → Bool
is_given_text none s = false
is_given_text (some t) s = str_eq s t

abbrev pub is_given_number : Option ℕ → ℕ → Bool
is_given_number none n = false
is_given_number (some m) n = n == m

-- The order `<` of texts: by the first character that differs.
abbrev pub text_below : String → String → Bool
text_below s t = is_lt (compare_text s t)
