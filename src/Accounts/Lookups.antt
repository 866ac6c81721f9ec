-- ===== src/Accounts/Lookups.antt =====
-- What the queries and the updates of the table of users do to it.
use mathlib.Core.List.{head?}
use exchange_backend.Base.{
  ◌≡◌, refl, ap, ◌∙◌, inl, inr, Bool, true, false, Option, none, some, Option-cases, List, [], ◌∷◌,
  map, if◌then◌else◌,
}
use exchange_backend.Base.Lists.{All}
use exchange_backend.Base.Distinct.{Among, All-Among}
use exchange_backend.Base.Action.{Ends, Gives, Ends-pure, Ends-throw, ◌>>=◌}
use exchange_backend.Repository.{FindOptions, IsReliable}
use exchange_backend.Repository.Laws.{find-condition, find-All, nothing-found}
use exchange_backend.Accounts.Entity.{User}
use exchange_backend.Accounts.World.{AccountsEnv, Accounts, user_rows, IsLawfulUsers, on_users}
use exchange_backend.Accounts.Database.{find_one}

-- The table and the count of readings are as before.
abbrev pub Unread : {E : AccountsEnv} → Accounts E → Accounts E → Type 0
Unread {E} a a' = (user_rows E a' ≡ user_rows E a) × (a'.ticks ≡ a.ticks)

-- What `findOne` says of the table: no row fits, or the one found does.
abbrev pub Looked : (User → Bool) → List User → Option User → Type 0
Looked condition rows none = All (λ u. condition u ≡ false) rows
Looked condition rows (some u) = (condition u ≡ true) × Among u rows

module _ (E : AccountsEnv) (L : IsLawfulUsers E) where
  abbrev one : (User → Bool) → FindOptions User
  one condition = record { condition = condition; order = []; limit = some 1 }

  first-Looked :
      (condition : User → Bool) (a : Accounts E) (found : List User)
      → (E.users.find (one condition) a.users).0 ≡ some found
      → Looked condition (user_rows E a) (head? found)
  first-Looked condition a [] e = nothing-found L (one condition) a.users e 0 refl refl
  first-Looked condition a (u ∷ us) e = (
    (find-condition L (one condition) a.users e).0,
    (find-All L (one condition) a.users e (λ x. Among x (user_rows E a))
        (All-Among (user_rows E a))).0,
  )

  pub find_one-Ends :
      (condition : User → Bool) (a : Accounts E)
      → Ends
          (Unread a)
          (λ found a'. Unread a a' × Looked condition (user_rows E a) found)
          (find_one E condition a)
  unfolding find_one ◌>>=◌
  find_one-Ends condition a = elim (Option-cases (E.users.find (one condition) a.users).0) [
    | inl e ↦ rw e (Ends-throw _ _ (L.rows-find (one condition) a.users, refl))
    | inr (found, e) ↦ rw e (
        Ends-pure _ _
          ((L.rows-find (one condition) a.users, refl), first-Looked condition a found e))
  ]

module _ (E : AccountsEnv) (L : IsLawfulUsers E) (R : IsReliable E.users) where
  pub find_one-Gives :
      (condition : User → Bool) (a : Accounts E)
      → Gives
          (λ found a'. Unread a a' × Looked condition (user_rows E a) found)
          (find_one E condition a)
  unfolding find_one ◌>>=◌
  find_one-Gives condition a =
      let (found, e) = R.finds (one E L condition) a.users in
      rw e (
        Ends-pure _ _
          ((L.rows-find (one E L condition) a.users, refl), first-Looked E L condition a found e))

  pub update-Gives :
      (condition : User → Bool) (write : User → User) (a : Accounts E)
      → Gives
          (λ _ a'. user_rows E a' ≡ map (λ u. if condition u then write u else u) (user_rows E a))
          (on_users E (E.users.update condition write) a)
  update-Gives condition write a = rw (R.updates condition write a.users) (
      Ends-pure _ _ (
        L.rows-update condition write a.users
        ∙ ap
            (λ (r : Option (Unit {0})). elim r [
              | none ↦ user_rows E a
              | some _ ↦ map (λ u. if condition u then write u else u) (user_rows E a)
            ])
            (R.updates condition write a.users)))
