-- ===== src/Repository/Memory.antt =====
-- A repository over a list of rows in memory: it shows that the laws can be met, and runs the tests.
use Prim.Native.Nat.{max}
use mathlib.Core.List.Permᴰ
use mathlib.Core.List.{Permᴰ}
use exchange_backend.Base.{
  ℕ, suc, ◌<◌, ◌≡◌, ◌≢◌, refl, sym, subst, Bool, true, false, Option, none, some, List, [], ◌∷◌,
  ◌++◌, map, arith, if◌then◌else◌, Bool-cases, inl, inr,
}
use exchange_backend.Base.Lists.{All, All-map, All-perm, filter, length}
use exchange_backend.Repository.{Repository, IsLawful, limited}
use exchange_backend.Repository.Order.{
  OrderBy, Sorted, may_precede, may_precede_total, may_precede_trans,
}

-- The rows, and a script of the outcomes of the later calls.
pub record Table (Row : Type 0) : Type 0 where
  pub stored : List Row
  pub outcomes : List Bool

-- Which calls succeed: all of them, or those whose entry in the script is not `false`.
abbrev pub always : List Bool → Bool
always script = true

abbrev pub scripted : List Bool → Bool
scripted [] = true
scripted (b ∷ bs) = b

abbrev later : List Bool → List Bool
later [] = []
later (b ∷ bs) = bs

abbrev advance : {Row : Type 0} → Table Row → Table Row
advance t = record t { outcomes = later t.outcomes }

abbrev largest : {Row : Type 0} → (Row → ℕ) → List Row → ℕ
largest key [] = 0
largest key (r ∷ rs) = max (key r) (largest key rs)

module _ {Row : Type 0} (order : OrderBy Row) where
  abbrev insert_sorted : Row → List Row → List Row
  insert_sorted x [] = x ∷ []
  insert_sorted x (y ∷ ys) = if may_precede order x y then x ∷ y ∷ ys else y ∷ insert_sorted x ys

  abbrev sort : List Row → List Row
  sort [] = []
  sort (x ∷ xs) = insert_sorted x (sort xs)

  insert_sorted-perm : (x : Row) (ys : List Row) → Permᴰ (x ∷ ys) (insert_sorted x ys)
  insert_sorted-perm x [] = Permᴰ.refl (x ∷ [])
  insert_sorted-perm x (y ∷ ys) = elim (Bool-cases (may_precede order x y)) [
    | inl first ↦ rw first (Permᴰ.refl (x ∷ y ∷ ys))
    | inr second ↦
        rw second (Permᴰ.trans (Permᴰ.swap refl refl) (Permᴰ.cons refl (insert_sorted-perm x ys)))
  ]

  sort-perm : (xs : List Row) → Permᴰ xs (sort xs)
  sort-perm [] = Permᴰ.nil
  sort-perm (x ∷ xs) = Permᴰ.trans (Permᴰ.cons refl (sort-perm xs)) (insert_sorted-perm x (sort xs))

  insert_sorted-Sorted :
      (x : Row) (ys : List Row) → Sorted order ys → Sorted order (insert_sorted x ys)
  insert_sorted-Sorted x [] h = (tt, tt)
  insert_sorted-Sorted x (y ∷ ys) (least, rest) = elim (Bool-cases (may_precede order x y)) [
    | inl first ↦
        rw first (
          ((first, All-map _ _ (λ z. may_precede_trans order x y z first) ys least)),
          (least, rest),
        )
    | inr second ↦ rw second (
      All-perm _ (insert_sorted-perm x ys) (may_precede_total order x y second, least),
      insert_sorted-Sorted x ys rest,
    )
  ]

  sort-Sorted : (xs : List Row) → Sorted order (sort xs)
  sort-Sorted [] = tt
  sort-Sorted (x ∷ xs) = insert_sorted-Sorted x (sort xs) (sort-Sorted xs)

module _ {Row : Type 0} (accepted : List Bool → Bool) (key : Row → ℕ)
    (keyed : ℕ → ℕ → Row → Row) where
  abbrev saved : Row → Table Row → Row
  saved r t = keyed (suc (largest key t.stored)) (length t.stored) r

  abbrev pub memory_repository : Repository Row
  memory_repository = record {
    State = Table Row;
    rows = λ t. t.stored;
    find = λ o t. (
      (if accepted t.outcomes
          then some (limited o.limit (sort o.order (filter o.condition t.stored)))
          else none),
      advance t,
    );
    save = λ r t.
        if accepted t.outcomes
        then (
          some (saved r t),
          record { stored = t.stored ++ (saved r t ∷ []); outcomes = later t.outcomes },
        )
        else (none, advance t);
    update = λ condition write t.
        if accepted t.outcomes
        then (
          some tt,
          record {
            stored = map (λ r. if condition r then write r else r) t.stored;
            outcomes = later t.outcomes;
          },
        )
        else (none, advance t);
  }

  le-largest : (n : ℕ) (rs : List Row) → largest key rs < n → All (λ x. key x ≢ n) rs
  le-largest n [] h = tt
  le-largest n (r ∷ rs) h = ((omega arith), le-largest n rs (omega arith))

  find-some-limited :
      (b : Bool) (k : Option ℕ) (sorted found : List Row)
      → ◌≡◌ {A = Option (List Row)} (if b then some (limited k sorted) else none) (some found)
      → found ≡ limited k sorted
  find-some-limited true k sorted found h = cc
  find-some-limited false k sorted found h = cc

  save-some-saved :
      (r r' : Row) (t : Table Row) → (memory_repository.save r t).0 ≡ some r' → r' ≡ saved r t
  save-some-saved r r' t h = ground arith

  module _ (key-keyed : (n time : ℕ) (r : Row) → key (keyed n time r) ≡ n) where
    saved-fresh :
        (r : Row) (t : Table Row)
        → ((time : ℕ) × (saved r t ≡ keyed (key (saved r t)) time r))
          × All (λ x. key x ≢ key (saved r t)) t.stored
    saved-fresh r t = rw key-keyed ((length t.stored, refl), le-largest _ t.stored (omega arith))

    pub memory_repository-IsLawful : IsLawful key keyed memory_repository
    memory_repository-IsLawful = record {
      rows-find = λ o t. refl;
      find-some = λ o t found h. (
        sort o.order (filter o.condition t.stored),
        sort-perm o.order (filter o.condition t.stored),
        sort-Sorted o.order (filter o.condition t.stored),
        find-some-limited (accepted t.outcomes) o.limit _ found h,
      );
      rows-save = λ r t. ground arith;
      save-some = λ r r' t new h.
          subst
            (λ (x : Row).
              ((time : ℕ) × (x ≡ keyed (key x) time r)) × All (λ y. key y ≢ key x) t.stored)
            (sym (save-some-saved r r' t h)) (saved-fresh r t);
      rows-update = λ condition write t. ground arith;
    }
