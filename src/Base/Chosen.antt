-- ===== src/Base/Chosen.antt =====
-- The elements of a list that have a property, by what `filter` keeps of it.
use mathlib.Core.Path.{◌≡◌, refl}
use mathlib.Core.Bool.{Bool, true, false, not, ◌&&◌}
use mathlib.Core.List.{List, [], ◌∷◌, ◌++◌, Permᴰ}
use mathlib.Core.List.Permᴰ
use exchange_backend.Base.Lists.{All, All-map, All-perm, All-filter, filter, keep}

pub both : {a b : Bool} → (a && b) ≡ true → (a ≡ true) × (b ≡ true)
both {a = true} h = (refl, h)
both {a = false} h = cc

module _ {A : Type 0} where
  -- In some order, the elements with the property, each as often as it stands in the list: the list is those
  -- found and some without the property.
  abbrev pub Chosen : (A → Type 0) → List A → List A → Type 0
  Chosen P xs found =
      (left : List A) × Permᴰ xs (found ++ left) × All P found × All (λ x. ¬ (P x)) left

  keep-partition :
      (b : Bool) (x : A) (xs found left : List A)
      → Permᴰ xs (found ++ left)
      → Permᴰ (x ∷ xs) (keep b x found ++ keep (not b) x left)
  keep-partition true x xs found left p = Permᴰ.cons refl p
  keep-partition false x xs found left p =
      Permᴰ.trans (Permᴰ.cons refl p) (Permᴰ.symm (Permᴰ.middle x found left))

  filter-partition :
      (test : A → Bool) (xs : List A) → Permᴰ xs (filter test xs ++ filter (λ x. not (test x)) xs)
  filter-partition test [] = Permᴰ.nil
  filter-partition test (x ∷ xs) =
      keep-partition (test x) x xs (filter test xs) _ (filter-partition test xs)

  pub Chosen-of_filter :
      {P : A → Type 0} (test : A → Bool)
      → ((x : A) → test x ≡ true → P x)
      → ((x : A) → P x → test x ≡ true)
      → (xs found : List A) → Permᴰ (filter test xs) found
      → Chosen P xs found
  Chosen-of_filter {P} test sound complete xs found perm =
      let left : List A = filter (λ x. not (test x)) xs in
      (
        left,
        Permᴰ.trans (filter-partition test xs) (Permᴰ.append_right left perm),
        All-perm P perm (All-map _ _ sound (filter test xs) (All-filter test xs)),
        All-map _ _ (λ x h p. clash (test x) h (complete x p)) left
            (All-filter (λ x. not (test x)) xs),
      )
    where
      clash : (b : Bool) → not b ≡ true → b ≡ true → ⊥
      clash true h e = cc
      clash false h e = cc
