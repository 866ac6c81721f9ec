-- ===== src/Base/Distinct.antt =====
-- Lists without repetitions, and membership, for rows under `update` and `save`.
use mathlib.Core.Path.{◌≡◌, refl, sym, ap, ap₂, subst, ◌∙◌}
use mathlib.Core.Logic.{◌≢◌, ◌⊎◌, inl, inr}
use mathlib.Core.Bool.{Bool, true, false}
use mathlib.Core.List.{List, [], ◌∷◌, ◌++◌, map, map-append}
use exchange_backend.Base.{if◌then◌else◌}
use exchange_backend.Base.Lists.{All, All-map, All-of_map, map-All, Ordered, Ordered-append}

module _ {ℓ} {A : Type ℓ} where
  -- No element occurs twice.
  abbrev pub Distinct : List A → Type ℓ
  Distinct = Ordered (λ x y. x ≢ y)

module _ {A : Type 0} where
  -- The element stands in the list.
  abbrev pub Among : A → List A → Type 0
  Among x [] = ⊥
  Among x (y ∷ ys) = (y ≡ x) ⊎ Among x ys

  pub All-Among : (xs : List A) → All (λ x. Among x xs) xs
  All-Among [] = tt
  All-Among (x ∷ xs) = (inl refl, All-map _ _ (λ y m. inr m) xs (All-Among xs))

  pub Among-last : (x : A) (xs : List A) → Among x (xs ++ (x ∷ []))
  Among-last x [] = inl refl
  Among-last x (y ∷ ys) = inr (Among-last x ys)

  pub Among-left : (x : A) (xs ys : List A) → Among x xs → Among x (xs ++ ys)
  Among-left x [] ys m = absurd m
  Among-left x (y ∷ xs) ys (inl e) = inl e
  Among-left x (y ∷ xs) ys (inr m) = inr (Among-left x xs ys m)

  pub Among-All : (P : A → Type 0) (x : A) (xs : List A) → Among x xs → All P xs → P x
  Among-All P x [] m h = absurd m
  Among-All P x (y ∷ ys) (inl e) h = subst P e h.0
  Among-All P x (y ∷ ys) (inr m) h = Among-All P x ys m h.1

module _ {ℓ κ} {A : Type ℓ} {B : Type κ} where
  -- A write that keeps a column keeps the list of its values.
  written-column :
      (column : A → B) (b : Bool) (x x' : A)
      → column x' ≡ column x
      → column (if b then x' else x) ≡ column x
  written-column column true x x' e = e
  written-column column false x x' e = refl

  pub update-column :
      (column : A → B) (condition : A → Bool) (write : A → A)
      → ((x : A) → column (write x) ≡ column x)
      → (xs : List A)
      → map column (map (λ x. if condition x then write x else x) xs) ≡ map column xs
  update-column column condition write keep [] = refl
  update-column column condition write keep (x ∷ xs) =
      ap₂ (λ y (ys : List B). y ∷ ys) (written-column column (condition x) x (write x) (keep x))
        (update-column column condition write keep xs)

  pub Distinct-snoc :
      (column : A → B) (xs : List A) (x : A)
      → Distinct (map column xs)
      → All (λ y. column y ≢ column x) xs
      → Distinct (map column (xs ++ (x ∷ [])))
  Distinct-snoc column xs x d new = rw (map-append column xs (x ∷ [])) (
      Ordered-append _ (map column xs) (column x ∷ []) d (tt, tt)
        (All-of_map _ column xs (All-map _ _ (λ y n. (n, tt)) xs new)))

  module _ (column : A → B) (condition : A → Bool) (write : A → A) (e : B)
      (writes : (x : A) → column (write x) ≡ e) where
    abbrev updated : A → A
    updated x = if condition x then write x else x

    untouched :
        (b : Bool) (x : A)
        → condition x ≡ b
        → (condition x ≡ true → ⊥)
        → column (if b then write x else x) ≡ column x
    untouched true x t h = absurd (h t)
    untouched false x t h = refl

    other-new :
        (xs : List A)
        → All (λ x. column x ≢ e) xs
        → All (λ x. condition x ≡ true → ⊥) xs
        → All (λ y. e ≢ y) (map column (map updated xs))
    other-new [] n h = tt
    other-new (x ∷ xs) n h =
        ((λ p. n.0 (sym (untouched (condition x) x refl h.0) ∙ sym p)), other-new xs n.1 h.1)

    old-or_new :
        (b : Bool) (x : A) (c : B) → c ≢ column x → c ≢ e → c ≢ column (if b then write x else x)
    old-or_new true x c old new p = new (p ∙ writes x)
    old-or_new false x c old new p = old p

    old-others :
        (c : B) (xs : List A)
        → All (λ y. c ≢ y) (map column xs)
        → c ≢ e
        → All (λ y. c ≢ y) (map column (map updated xs))
    old-others c [] h n = tt
    old-others c (x ∷ xs) h n = (old-or_new (condition x) x c h.0 n, old-others c xs h.1 n)

    head-first :
        (b : Bool) (x : A) (xs : List A)
        → condition x ≡ b
        → All (λ y. column x ≢ y) (map column xs)
        → column x ≢ e
        → All (λ y. column y ≢ e) xs
        → All (λ y. condition x ≡ true → condition y ≡ true → ⊥) xs
        → All (λ y. column (if b then write x else x) ≢ y) (map column (map updated xs))
    head-first true x xs t d n new one =
        subst (λ c. All (λ y. c ≢ y) (map column (map updated xs))) (sym (writes x))
          (other-new xs new (All-map _ _ (λ y h. h t) xs one))
    head-first false x xs t d n new one = old-others (column x) xs d n

    -- Writing a new value into a column of at most one element keeps its values distinct.
    pub rename-Distinct :
        (xs : List A)
        → Distinct (map column xs)
        → All (λ x. column x ≢ e) xs
        → Ordered (λ x y. condition x ≡ true → condition y ≡ true → ⊥) xs
        → Distinct (map column (map updated xs))
    rename-Distinct [] d n one = tt
    rename-Distinct (x ∷ xs) d n one =
        (head-first (condition x) x xs refl d.0 n.0 n.1 one.0, rename-Distinct xs d.1 n.1 one.1)

  -- Distinct values of a column, and a condition that holds of one value of it.
  pub Ordered-column :
      (column : A → B) (condition : A → Bool) (value : B)
      → ((x : A) → condition x ≡ true → column x ≡ value)
      → (xs : List A) → Distinct (map column xs)
      → Ordered (λ x y. condition x ≡ true → condition y ≡ true → ⊥) xs
  Ordered-column column condition value named [] d = tt
  Ordered-column column condition value named (x ∷ xs) d = (
    All-map _ _ (λ y n p q. n (named x p ∙ sym (named y q))) xs
        (map-All (λ y. column x ≢ y) column xs d.0),
    Ordered-column column condition value named xs d.1,
  )

  -- What holds of the values of a column holds of them after a write that keeps the column.
  pub update-All {μ} :
      (column : A → B) (condition : A → Bool) (write : A → A)
      → ((x : A) → column (write x) ≡ column x)
      → (P : B → Type μ) (xs : List A) → All (λ x. P (column x)) xs
      → All (λ x. P (column x)) (map (λ x. if condition x then write x else x) xs)
  update-All column condition write keeps P xs h = map-All P column _ (
      subst (All P) (sym (update-column column condition write keeps xs))
        (All-of_map P column xs h))

module _ {A B : Type 0} where
  -- In a list with distinct values of a column, a value belongs to one element.
  pub Distinct-one :
      (column : A → B) (x : A) (xs : List A)
      → Distinct (map column xs)
      → Among x xs
      → All (λ y. column y ≡ column x → y ≡ x) xs
  Distinct-one column x [] d m = tt
  Distinct-one column x (y ∷ ys) d (inl e) = (
    (λ _. e),
    All-map _ _ (λ z n p. absurd (n (ap column e ∙ sym p))) ys
        (map-All (λ z. column y ≢ z) column ys d.0),
  )
  Distinct-one column x (y ∷ ys) d (inr m) = (
    (λ p. absurd (
        Among-All (λ z. column y ≢ column z) x ys m (map-All (λ z. column y ≢ z) column ys d.0) p)),
    Distinct-one column x ys d.1 m,
  )

  pub Among-map : (f : A → B) (x : A) (xs : List A) → Among x xs → Among (f x) (map f xs)
  Among-map f x [] m = absurd m
  Among-map f x (y ∷ ys) (inl e) = inl (ap f e)
  Among-map f x (y ∷ ys) (inr m) = inr (Among-map f x ys m)
