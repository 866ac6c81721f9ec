-- ===== src/Repository/Laws.antt =====
-- What follows from the laws of a repository for the rows that `find` returns.
use mathlib.Core.List.{Permᴰ}
use mathlib.Core.List.Permᴰ
use exchange_backend.Base.{
  Bool, map, if◌then◌else◌, ℕ, zero, suc, ◌≡◌, refl, ◌∙◌, true, false, Option, none, some, List, [],
  ◌∷◌, subst, sym, ap, ◌++◌, ◌⊎◌, inl, inr, Option-cases,
}
use exchange_backend.Base.Lists.{
  All, All-filter, All-perm, All-take, take, filter-empty, filter-none, filter-All,
}
use exchange_backend.Repository.{FindOptions, Repository, IsLawful, limited}

perm-nil {ℓ} : {A : Type ℓ} (xs : List A) → Permᴰ xs [] → All (λ _. ⊥) xs
perm-nil xs p = All-perm (λ _. ⊥) (Permᴰ.symm p) tt

none-in {ℓ} : {A : Type ℓ} (xs : List A) → All (λ _. ⊥) xs → xs ≡ []
none-in [] h = refl
none-in (x ∷ xs) h = absurd h.0

limited-nil : {Row : Type 0} (k : Option ℕ) → limited {Row = Row} k [] ≡ []
limited-nil none = refl
limited-nil (some zero) = refl
limited-nil (some (suc n)) = refl

limited-All :
    {Row : Type 0} (P : Row → Type 0) (k : Option ℕ) (xs : List Row)
    → All P xs
    → All P (limited k xs)
limited-All P none xs h = h
limited-All P (some n) xs h = All-take P n xs h

module _ {Row : Type 0} {key : Row → ℕ} {keyed : ℕ → ℕ → Row → Row} {R : Repository Row}
    (L : IsLawful key keyed R) (o : FindOptions Row) (s : R.State) {found : List Row}
    (e : (R.find o s).0 ≡ some found) where
  -- What holds of every row holds of those found, and they meet the condition.
  pub find-All : (P : Row → Type 0) → All P (R.rows s) → All P found
  find-All P h =
      let (sorted, perm, order, eq) = L.find-some o s found e in
      subst (All P) (sym eq)
        (limited-All P o.limit sorted (All-perm P perm (filter-All P o.condition (R.rows s) h)))

  pub find-condition : All (λ r. o.condition r ≡ true) found
  find-condition =
      let (sorted, perm, order, eq) = L.find-some o s found e in
      subst (All (λ r. o.condition r ≡ true)) (sym eq)
        (limited-All _ o.limit sorted (All-perm _ perm (All-filter o.condition (R.rows s))))

  -- Nothing is found if no row meets the condition.
  pub find-nothing : All (λ r. o.condition r ≡ false) (R.rows s) → found ≡ []
  find-nothing h =
      let (sorted, perm, order, eq) = L.find-some o s found e in
      eq
      ∙ ap (limited o.limit) (
          none-in sorted (
            perm-nil sorted (
              subst (λ xs. Permᴰ sorted xs) (filter-none o.condition (R.rows s) h)
                (Permᴰ.symm perm))))
      ∙ limited-nil o.limit

  -- If nothing is found under a positive limit, no row meets the condition.
  pub nothing-found :
      (n : ℕ) → o.limit ≡ some (suc n) → found ≡ [] → All (λ r. o.condition r ≡ false) (R.rows s)
  nothing-found n limit empty =
      let (sorted, perm, order, eq) = L.find-some o s found e in
      filter-empty o.condition (R.rows s) (
        All-perm _ (Permᴰ.symm perm)
          (all-nothing sorted (sym empty ∙ eq ∙ ap (λ k. limited k sorted) limit)))
    where
      all-nothing : (xs : List Row) → [] ≡ take (suc n) xs → All (λ y. o.condition y ≡ true → ⊥) xs
      all-nothing [] h = tt
      all-nothing (x ∷ xs) h = cc

  -- If nothing is found without a limit, no row meets the condition.
  pub none-found : o.limit ≡ none → found ≡ [] → All (λ r. o.condition r ≡ false) (R.rows s)
  none-found limit empty =
      let (sorted, perm, order, eq) = L.find-some o s found e in
      filter-empty o.condition (R.rows s) (
        All-perm _ (Permᴰ.symm perm)
          (subst (All _) (sym empty ∙ eq ∙ ap (λ k. limited k sorted) limit) tt))

module _ {Row : Type 0} {key : Row → ℕ} {keyed : ℕ → ℕ → Row → Row} {R : Repository Row}
    (L : IsLawful key keyed R) (r : Row) (s : R.State) where
  -- A new row is added, with what the server generates, or the call is rejected and nothing is.
  pub save-cases :
      key r ≡ 0
      → (((R.save r s).0 ≡ none) × (R.rows (R.save r s).1 ≡ R.rows s))
        ⊎ ((r' : Row) × ((R.save r s).0 ≡ some r')
            × ((time : ℕ) × (r' ≡ keyed (key r') time r))
            × (R.rows (R.save r s).1 ≡ R.rows s ++ (r' ∷ [])))
  save-cases new = elim (Option-cases (R.save r s).0) [
    | inl e ↦ inl (e, L.rows-save r s ∙ ap rows_after e)
    | inr (r', e) ↦ inr (r', e, (L.save-some r r' s new e).0, L.rows-save r s ∙ ap rows_after e)
  ]
    where
      rows_after : Option Row → List Row
      rows_after o = elim o [ none ↦ R.rows s | some x ↦ R.rows s ++ (x ∷ []) ]

module _ {Row : Type 0} {key : Row → ℕ} {keyed : ℕ → ℕ → Row → Row} {R : Repository Row}
    (L : IsLawful key keyed R) (condition : Row → Bool) (write : Row → Row) (s : R.State) where
  -- The rows of the condition are written, or none are.
  pub update-cases :
      (R.rows (R.update condition write s).1 ≡ R.rows s)
      ⊎ (R.rows (R.update condition write s).1
          ≡ map (λ r. if condition r then write r else r) (R.rows s))
  update-cases = elim (Option-cases (R.update condition write s).0) [
    | inl e ↦ inl (L.rows-update condition write s ∙ ap rows_after e)
    | inr (u, e) ↦ inr (L.rows-update condition write s ∙ ap rows_after e)
  ]
    where
      rows_after : Option (Unit {0}) → List Row
      rows_after o = elim o [
        | none ↦ R.rows s
        | some _ ↦ map (λ r. if condition r then write r else r) (R.rows s)
      ]

  -- What holds of the rows holds afterwards, if the write gives it.
  pub update-rows-All :
      (P : Row → Type 0)
      → ((r : Row) → P (write r))
      → All P (R.rows s)
      → All P (R.rows (R.update condition write s).1)
  update-rows-All P h rows = elim update-cases [
    | inl e ↦ subst (All P) (sym e) rows
    | inr e ↦ subst (All P) (sym e) (written (R.rows s) rows)
  ]
    where
      one : (b : Bool) (r : Row) → P r → P (if b then write r else r)
      one true r p = h r
      one false r p = p

      written :
          (rs : List Row) → All P rs → All P (map (λ r. if condition r then write r else r) rs)
      written [] q = tt
      written (r ∷ rs) (p, q) = (one (condition r) r p, written rs q)
