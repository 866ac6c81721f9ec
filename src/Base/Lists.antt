-- ===== src/Base/Lists.antt =====
-- Lists by native numbers and Boolean tests, and predicates on their elements.
use Prim.Native.Nat.{ℕ, zero, suc, ◌+◌}
use mathlib.Core.Path.{◌≡◌, refl, ap, subst}
use mathlib.Core.Bool.{Bool, true, false}
use mathlib.Core.List.{List, [], ◌∷◌, ◌++◌, map, reverse, Permᴰ, reverse-append}
use native.Mathlib.Omega.{arith}

module _ {ℓ} {A : Type ℓ} where
  abbrev pub length : List A → ℕ
  length [] = 0
  length (x ∷ xs) = suc (length xs)

  abbrev pub take : ℕ → List A → List A
  take zero xs = []
  take (suc n) [] = []
  take (suc n) (x ∷ xs) = x ∷ take n xs

  abbrev pub drop : ℕ → List A → List A
  drop zero xs = xs
  drop (suc n) [] = []
  drop (suc n) (x ∷ xs) = drop n xs

  abbrev pub keep : Bool → A → List A → List A
  keep true x xs = x ∷ xs
  keep false x xs = xs

  -- The elements that pass a Boolean test.
  abbrev pub filter : (A → Bool) → List A → List A
  filter test [] = []
  filter test (x ∷ xs) = keep (test x) x (filter test xs)

  -- The sum of a number over a list.
  abbrev pub sum_by : (A → ℕ) → List A → ℕ
  sum_by f [] = 0
  sum_by f (x ∷ xs) = f x + sum_by f xs

  pub take-append-drop : (n : ℕ) (xs : List A) → take n xs ++ drop n xs ≡ xs
  take-append-drop zero xs = refl
  take-append-drop (suc n) [] = refl
  take-append-drop (suc n) (x ∷ xs) = ap (λ (l : List A). x ∷ l) (take-append-drop n xs)

  pub sum_by-append : (f : A → ℕ) (xs ys : List A) → sum_by f (xs ++ ys) ≡ sum_by f xs + sum_by f ys
  sum_by-append f [] ys = omega arith
  sum_by-append f (x ∷ xs) ys = omega (arith, sum_by-append f xs ys)

module _ {ℓ κ} {A : Type ℓ} (P : A → Type κ) where
  abbrev pub All : List A → Type κ
  All [] = Unit
  All (x ∷ xs) = P x × All xs

  pub All-every : ((x : A) → P x) → (xs : List A) → All xs
  All-every h [] = tt
  All-every h (x ∷ xs) = (h x, All-every h xs)

  pub All-append : (xs ys : List A) → All xs → All ys → All (xs ++ ys)
  All-append [] ys hx hy = hy
  All-append (x ∷ xs) ys hx hy = (hx.0, All-append xs ys hx.1 hy)

  pub All-left : (xs ys : List A) → All (xs ++ ys) → All xs
  All-left [] ys h = tt
  All-left (x ∷ xs) ys h = (h.0, All-left xs ys h.1)

  pub All-right : (xs ys : List A) → All (xs ++ ys) → All ys
  All-right [] ys h = h
  All-right (x ∷ xs) ys h = All-right xs ys h.1

  pub All-take : (n : ℕ) (xs : List A) → All xs → All (take n xs)
  All-take zero xs h = tt
  All-take (suc n) [] h = tt
  All-take (suc n) (x ∷ xs) h = (h.0, All-take n xs h.1)

  pub All-perm : {xs ys : List A} → Permᴰ xs ys → All xs → All ys
  All-perm Permᴰ.nil h = h
  All-perm (Permᴰ.cons e p) h = (subst P e h.0, All-perm p h.1)
  All-perm (Permᴰ.swap e f) h = (subst P f h.1.0, (subst P e h.0, h.1.1))
  All-perm (Permᴰ.trans p q) h = All-perm q (All-perm p h)

module _ {ℓ} {A : Type ℓ} where
  pub All-map {κ μ} :
      (P : A → Type κ) (Q : A → Type μ)
      → ((x : A) → P x → Q x)
      → (xs : List A) → All P xs
      → All Q xs
  All-map P Q f [] h = tt
  All-map P Q f (x ∷ xs) h = (f x h.0, All-map P Q f xs h.1)

  keep-All :
      (test : A → Bool) (b : Bool) (x : A) (xs : List A)
      → test x ≡ b
      → All (λ y. test y ≡ true) xs
      → All (λ y. test y ≡ true) (keep b x xs)
  keep-All test true x xs e h = (e, h)
  keep-All test false x xs e h = h

  -- What a filter keeps passes its test.
  pub All-filter : (test : A → Bool) (xs : List A) → All (λ y. test y ≡ true) (filter test xs)
  All-filter test [] = tt
  All-filter test (x ∷ xs) = keep-All test (test x) x (filter test xs) refl (All-filter test xs)

  keep-All_of_All {κ} :
      (P : A → Type κ) (b : Bool) (x : A) (xs : List A) → P x → All P xs → All P (keep b x xs)
  keep-All_of_All P true x xs e h = (e, h)
  keep-All_of_All P false x xs e h = h

  pub filter-All {κ} :
      (P : A → Type κ) (test : A → Bool) (xs : List A) → All P xs → All P (filter test xs)
  filter-All P test [] h = tt
  filter-All P test (x ∷ xs) h =
      keep-All_of_All P (test x) x (filter test xs) h.0 (filter-All P test xs h.1)

  pub All-reverse {κ} : (P : A → Type κ) (xs : List A) → All P xs → All P (reverse xs)
  All-reverse P [] h = tt
  All-reverse P (x ∷ xs) h =
      rw (reverse-append (x ∷ []) xs)
        (All-append P (reverse xs) (x ∷ []) (All-reverse P xs h.1) (h.0, tt))

module _ {ℓ} {A : Type ℓ} (test : A → Bool) where
  keep-empty :
      (b : Bool) (x : A) (xs : List A)
      → test x ≡ b
      → All (λ y. test y ≡ true → ⊥) (keep b x xs)
      → (test x ≡ false) × All (λ y. test y ≡ true → ⊥) xs
  keep-empty true x xs e h = absurd (h.0 e)
  keep-empty false x xs e h = (e, h)

  -- If nothing passes a filter, the test fails everywhere.
  pub filter-empty :
      (xs : List A) → All (λ y. test y ≡ true → ⊥) (filter test xs) → All (λ y. test y ≡ false) xs
  filter-empty [] h = tt
  filter-empty (x ∷ xs) h =
      let (e, rest) = keep-empty (test x) x (filter test xs) refl h in (e, filter-empty xs rest)

  pub filter-none : (xs : List A) → All (λ y. test y ≡ false) xs → filter test xs ≡ []
  filter-none [] h = refl
  filter-none (x ∷ xs) h = rw h.0 (filter-none xs h.1)

-- Every element stands in the relation to all behind it.
module _ {ℓ κ} {A : Type ℓ} (R : A → A → Type κ) where
  abbrev pub Ordered : List A → Type κ
  Ordered [] = Unit
  Ordered (x ∷ xs) = All (R x) xs × Ordered xs

  pub Ordered-left : (xs ys : List A) → Ordered (xs ++ ys) → Ordered xs
  Ordered-left [] ys h = tt
  Ordered-left (x ∷ xs) ys h = (All-left (R x) xs ys h.0, Ordered-left xs ys h.1)

  pub Ordered-across : (xs ys : List A) → Ordered (xs ++ ys) → All (λ x. All (R x) ys) xs
  Ordered-across [] ys h = tt
  Ordered-across (x ∷ xs) ys h = (All-right (R x) xs ys h.0, Ordered-across xs ys h.1)

  pub Ordered-append :
      (xs ys : List A) → Ordered xs → Ordered ys → All (λ x. All (R x) ys) xs → Ordered (xs ++ ys)
  Ordered-append [] ys hx hy h = hy
  Ordered-append (x ∷ xs) ys hx hy h =
      (All-append (R x) xs ys hx.0 h.0, Ordered-append xs ys hx.1 hy h.1)

module _ {ℓ κ} {A : Type ℓ} (R : A → A → Type κ) where
  pub Ordered-reverse : (xs : List A) → Ordered R xs → Ordered (λ x y. R y x) (reverse xs)
  Ordered-reverse [] h = tt
  Ordered-reverse (x ∷ xs) h = rw (reverse-append (x ∷ []) xs) (
      Ordered-append (λ a b. R b a) (reverse xs) (x ∷ []) (Ordered-reverse xs h.1) (tt, tt)
        (All-map _ _ (λ y r. (r, tt)) (reverse xs) (All-reverse (R x) xs h.0)))

  pub Ordered-map {μ} :
      (S : A → A → Type μ)
      → ((x y : A) → R x y → S x y)
      → (xs : List A) → Ordered R xs
      → Ordered S xs
  Ordered-map S f [] h = tt
  Ordered-map S f (x ∷ xs) h = (All-map _ _ (f x) xs h.0, Ordered-map S f xs h.1)

module _ {ℓ κ} {A : Type ℓ} {B : Type κ} where
  pub sum_by-map :
      (f : B → ℕ) (g : A → B) (xs : List A) → sum_by f (map g xs) ≡ sum_by (λ x. f (g x)) xs
  sum_by-map f g [] = refl
  sum_by-map f g (x ∷ xs) = ap (λ n. f (g x) + n) (sum_by-map f g xs)

  pub All-of_map {μ} :
      (P : B → Type μ) (g : A → B) (xs : List A) → All (λ x. P (g x)) xs → All P (map g xs)
  All-of_map P g [] h = tt
  All-of_map P g (x ∷ xs) h = (h.0, All-of_map P g xs h.1)

  pub map-All {μ} :
      (P : B → Type μ) (g : A → B) (xs : List A) → All P (map g xs) → All (λ x. P (g x)) xs
  map-All P g [] h = tt
  map-All P g (x ∷ xs) h = (h.0, map-All P g xs h.1)
