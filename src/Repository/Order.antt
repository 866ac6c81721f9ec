-- ===== src/Repository/Order.antt =====
-- The `order` option of `find`: a list of sort keys, each with its direction.
use exchange_backend.Base.{
  ℕ, ◌≡◌, refl, Bool, true, false, List, [], ◌∷◌, arith, ltb, if◌then◌else◌,
}
use exchange_backend.Base.Lists.{Ordered}

pub data Direction : Type 0 where
  asc desc : Direction

pub record SortKey (Row : Type 0) : Type 0 where
  pub direction : Direction
  pub column : Row → ℕ

abbrev pub OrderBy : Type 0 → Type 0
OrderBy Row = List (SortKey Row)

abbrev pub precedes : Direction → ℕ → ℕ → Bool
precedes asc a b = ltb a b
precedes desc a b = ltb b a

-- The order by a first key, where `rest` decides between equal keys.
abbrev lexicographic : Direction → ℕ → ℕ → Bool → Bool
lexicographic d a b rest = if precedes d a b then true else if precedes d b a then false else rest

-- The first row may stand before the second: on the first key that differs it comes first.
abbrev pub may_precede : {Row : Type 0} → OrderBy Row → Row → Row → Bool
may_precede [] x y = true
may_precede (k ∷ ks) x y = lexicographic k.direction (k.column x) (k.column y) (may_precede ks x y)

abbrev pub Sorted : {Row : Type 0} → OrderBy Row → List Row → Type 0
Sorted order = Ordered (λ x y. may_precede order x y ≡ true)

lexicographic_total :
    (d : Direction) (a b : ℕ) (r s : Bool)
    → (r ≡ false → s ≡ true)
    → lexicographic d a b r ≡ false
    → lexicographic d b a s ≡ true
lexicographic_total asc a b r s h e = ground arith
lexicographic_total desc a b r s h e = ground arith

lexicographic_trans :
    (d : Direction) (a b c : ℕ) (r s t : Bool)
    → (r ≡ true → s ≡ true → t ≡ true)
    → lexicographic d a b r ≡ true
    → lexicographic d b c s ≡ true
    → lexicographic d a c t ≡ true
lexicographic_trans asc a b c r s t h e f = ground arith
lexicographic_trans desc a b c r s t h e f = ground arith

module _ {Row : Type 0} where
  pub may_precede_total :
      (order : OrderBy Row) (x y : Row)
      → may_precede order x y ≡ false
      → may_precede order y x ≡ true
  may_precede_total [] x y h = refl
  may_precede_total (k ∷ ks) x y h =
      lexicographic_total k.direction _ _ _ _ (may_precede_total ks x y) h

  pub may_precede_trans :
      (order : OrderBy Row) (x y z : Row)
      → may_precede order x y ≡ true
      → may_precede order y z ≡ true
      → may_precede order x z ≡ true
  may_precede_trans [] x y z h g = refl
  may_precede_trans (k ∷ ks) x y z h g =
      lexicographic_trans k.direction (k.column x) (k.column y) (k.column z) _ _ _
        (may_precede_trans ks x y z) h g
