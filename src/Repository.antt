-- ===== src/Repository.antt =====
-- A TypeORM repository over one MySQL table, as the program uses it: `find`, `save` and `update`.
-- The library and the server are not part of this code, so a repository is a parameter: its
-- operations over an unknown state, and in `IsLawful` what their documentation promises.
pub mod Order
pub mod Memory
pub mod Laws
use mathlib.Core.List.{Permᴰ}
use exchange_backend.Base.{
  ℕ, ◌≡◌, ◌≢◌, Bool, true, Option, none, some, List, [], ◌∷◌, ◌++◌, map, ◌==◌, if◌then◌else◌,
}
use exchange_backend.Base.Lists.{All, filter, take}
use exchange_backend.Repository.Order.{OrderBy, Sorted}

-- `where`, `order` and `take` of the options of `find`.
pub record FindOptions (Row : Type 0) : Type 0 where
  pub condition : Row → Bool
  pub order : OrderBy Row
  pub limit : Option ℕ

-- A call that is rejected gives `none`. `save` gives the saved row, with its generated key.
pub record Repository (Row : Type 0) : Type 1 where
  pub State : Type 0
  pub rows : State → List Row
  pub find : FindOptions Row → State → Option (List Row) × State
  pub save : Row → State → Option Row × State
  pub update : (Row → Bool) → (Row → Row) → State → Option (Unit {0}) × State

abbrev pub limited : {Row : Type 0} → Option ℕ → List Row → List Row
limited none xs = xs
limited (some n) xs = take n xs

-- `key` reads the generated primary key; `keyed` writes the columns that the server generates, the
-- key and, where the row leaves it open, the time of creation. A row that was never saved has key 0.
pub record IsLawful {Row : Type 0} (key : Row → ℕ) (keyed : ℕ → ℕ → Row → Row) (R : Repository Row)
    : Type 0 where
  pub rows-find : (o : FindOptions Row) (s : R.State) → R.rows (R.find o s).1 ≡ R.rows s
  -- `find` returns the rows that meet the condition, sorted, up to the limit.
  pub find-some :
      (o : FindOptions Row) (s : R.State) (found : List Row)
      → (R.find o s).0 ≡ some found
      → (sorted : List Row) × Permᴰ (filter o.condition (R.rows s)) sorted
        × Sorted o.order sorted
        × (found ≡ limited o.limit sorted)
  -- `save` inserts a new row under a fresh key, or is rejected and inserts nothing.
  pub rows-save :
      (r : Row) (s : R.State)
      → R.rows (R.save r s).1
        ≡ elim (R.save r s).0 [ none ↦ R.rows s | some r' ↦ R.rows s ++ (r' ∷ []) ]
  pub save-some :
      (r r' : Row) (s : R.State)
      → key r ≡ 0
      → (R.save r s).0 ≡ some r'
      → ((time : ℕ) × (r' ≡ keyed (key r') time r)) × All (λ x. key x ≢ key r') (R.rows s)
  -- `update` writes to the rows that meet the condition, or is rejected and writes nothing.
  pub rows-update :
      (condition : Row → Bool) (write : Row → Row) (s : R.State)
      → R.rows (R.update condition write s).1 ≡ elim (R.update condition write s).0 [
        | none ↦ R.rows s
        | some _ ↦ map (λ r. if condition r then write r else r) (R.rows s)
      ]

-- No call is rejected.
pub record IsReliable {Row : Type 0} (R : Repository Row) : Type 0 where
  pub finds :
      (o : FindOptions Row) (s : R.State) → (found : List Row) × ((R.find o s).0 ≡ some found)
  pub saves : (r : Row) (s : R.State) → (row : Row) × ((R.save r s).0 ≡ some row)
  pub updates :
      (condition : Row → Bool) (write : Row → Row) (s : R.State)
      → (R.update condition write s).0 ≡ some tt

-- The entity is not among those of the connection: no row is saved.
pub record IsUnregistered {Row : Type 0} (R : Repository Row) : Type 0 where
  pub rejects : (r : Row) (s : R.State) → (R.save r s).0 ≡ none

-- Some call to save a row is rejected.
abbrev pub RejectsSome : {Row : Type 0} → Repository Row → Type 0
RejectsSome {Row} R = (r : Row) × (s : R.State) × ((R.save r s).0 ≡ none)
