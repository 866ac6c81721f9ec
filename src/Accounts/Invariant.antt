-- ===== src/Accounts/Invariant.antt =====
-- No two users have the same email address or the same uuid.
use exchange_backend.Base.{
  ℕ, ◌≤◌, arith, ◌≡◌, ◌≢◌, refl, sym, subst, Bool, Option, none, some, map, if◌then◌else◌,
}
use exchange_backend.Base.Lists.{All}
use exchange_backend.Base.Distinct.{Distinct, update-column, update-All}
use exchange_backend.Base.Action.{Action, Exception, Ends-mono, Ends-state, pure, throw, ◌>>=◌}
use exchange_backend.Base.Keeping.{Yields-any}
use exchange_backend.Base.Preserving
use exchange_backend.Accounts.Entity.{User}
use exchange_backend.Accounts.World.{
  AccountsEnv, Accounts, user_rows, IsLawfulUsers, on_users, drawn,
}
use exchange_backend.Accounts.Database.{find_one}
use exchange_backend.Accounts.Lookups.{Unread, find_one-Ends}

pub record IsWellFormed (E : AccountsEnv) (a : Accounts E) : Type 0 where
  pub emails : Distinct (map (λ u. u.email) (user_rows E a))
  pub uuids : Distinct (map (λ u. u.uuid) (user_rows E a))
  -- What `uuidv4` gives from now on is the uuid of no user.
  pub fresh : (n : ℕ) → a.ticks ≤ n → All (λ u. u.uuid ≢ E.uuidv4 n) (user_rows E a)

-- The calls of `uuidv4` give different texts.
abbrev pub IsUnique : AccountsEnv → Type 0
IsUnique E = (m n : ℕ) → E.uuidv4 m ≡ E.uuidv4 n → m ≡ n

-- An action that keeps the invariant, however it ends.
abbrev pub Preserves : (E : AccountsEnv) {A : Type 0} → Action (Accounts E) A → Type 0
Preserves E m = Preserving.Preserves (IsWellFormed E) m

module _ {E : AccountsEnv} where
  pub Preserves-bind :
      {A B : Type 0} {m : Action (Accounts E) A} {f : A → Action (Accounts E) B}
      → Preserves E m
      → ((x : A) → Preserves E (f x))
      → Preserves E (m >>= f)
  Preserves-bind h k = Preserving.Preserves-after (IsWellFormed E) h (Yields-any _) (λ x _. k x)

  pub pure-Preserves : {A : Type 0} (x : A) → Preserves E (pure x)
  pure-Preserves = Preserving.Preserves-pure (IsWellFormed E)

  pub throw-Preserves :
      {A : Type 0} (e : Exception) → Preserves E (throw {S = Accounts E} {A = A} e)
  throw-Preserves = Preserving.Preserves-throw (IsWellFormed E)

  -- The invariant reads the table and the count alone.
  pub Unread-IsWellFormed :
      {a a' : Accounts E}
      → user_rows E a' ≡ user_rows E a
      → a.ticks ≤ a'.ticks
      → IsWellFormed E a
      → IsWellFormed E a'
  Unread-IsWellFormed {a} {a'} e t w = record {
    emails = subst (λ rows. Distinct (map (λ u. u.email) rows)) (sym e) w.emails;
    uuids = subst (λ rows. Distinct (map (λ u. u.uuid) rows)) (sym e) w.uuids;
    fresh = λ n h. subst (All (λ u. u.uuid ≢ E.uuidv4 n)) (sym e) (w.fresh n (omega arith));
  }

  pub drawn-Preserves : {A : Type 0} (source : ℕ → A) → Preserves E (drawn E source)
  drawn-Preserves source = record { preserves = λ a w. Unread-IsWellFormed refl (omega arith) w }

module _ (E : AccountsEnv) (L : IsLawfulUsers E) where
  pub find_one-Preserves : (condition : User → Bool) → Preserves E (find_one E condition)
  find_one-Preserves condition = record {
    preserves = λ a w.
        let same = λ (a' : Accounts E) (u : Unread a a').
          Unread-IsWellFormed {a = a} {a' = a'} u.0 (omega (arith, u.1)) w in
        Ends-state (IsWellFormed E) (find_one E condition a)
          (Ends-mono same (λ found a' h. same a' h.0) (find_one-Ends E L condition a));
  }

  -- A write that leaves email and uuid.
  pub update-Preserves :
      (condition : User → Bool) (write : User → User)
      → ((u : User) → (write u).email ≡ u.email)
      → ((u : User) → (write u).uuid ≡ u.uuid)
      → Preserves E (on_users E (E.users.update condition write))
  update-Preserves condition write keeps_email keeps_uuid = record {
    preserves = λ a w.
        written a w (E.users.update condition write a.users).0
          (L.rows-update condition write a.users);
  }
    where
      written :
          (a : Accounts E)
          → IsWellFormed E a
          → (r : Option (Unit {0}))
          → E.users.rows (E.users.update condition write a.users).1 ≡ elim r [
            | none ↦ user_rows E a
            | some _ ↦ map (λ u. if condition u then write u else u) (user_rows E a)
          ]
          → IsWellFormed E (on_users E (E.users.update condition write) a).1
      written a w none e = Unread-IsWellFormed e (omega arith) w
      written a w (some u) e = record {
        emails =
            subst (λ rows. Distinct (map (λ u. u.email) rows)) (sym e)
              (subst Distinct
                (sym (update-column (λ u. u.email) condition write keeps_email (user_rows E a)))
                w.emails);
        uuids =
            subst (λ rows. Distinct (map (λ u. u.uuid) rows)) (sym e)
              (subst Distinct
                (sym (update-column (λ u. u.uuid) condition write keeps_uuid (user_rows E a)))
                w.uuids);
        fresh = λ n h. subst (All (λ u. u.uuid ≢ E.uuidv4 n)) (sym e) (
            update-All (λ u. u.uuid) condition write keeps_uuid (λ t. t ≢ E.uuidv4 n)
              (user_rows E a) (w.fresh n h));
      }
