-- ===== src/Accounts/World.antt =====
-- The table of users, and the parameters that stand for what is not in this code.
use exchange_backend.Base.{ℕ, ◌+◌, String, Bool, true, ◌≡◌, Option, List}
use exchange_backend.Base.Action.{Action, ok, attempt}
use exchange_backend.Repository.{Repository, IsLawful}
use exchange_backend.Accounts.Entity.{User, Payload, user_key, user_keyed}

-- The n-th call of the clock, of `uuidv4` and of `bcrypt.genSalt` gives `clock n`, `uuidv4 n` and
-- `gen_salt n`; `hash password salt` and `compare password hash` are those of bcrypt; `sign payload
-- secret expiration time` is that of the JWT service; `verify token secret time` is that of otplib, or
-- `none` where it throws;
-- `callback` is what the fields `sub` and `uuid` of a callback of passport are.
pub record AccountsEnv : Type 1 where
  pub users : Repository User
  pub clock : ℕ → ℕ
  pub uuidv4 : ℕ → String
  pub gen_salt : ℕ → String
  pub hash : String → String → String
  pub compare : String → String → Bool
  pub sign : Payload → String → String → ℕ → String
  pub verify : Option String → Option String → ℕ → Option Bool
  pub callback : Payload

-- bcrypt accepts the password that it has hashed.
pub record IsHashing (E : AccountsEnv) : Type 0 where
  pub compare-hash : (password salt : String) → E.compare password (E.hash password salt) ≡ true

pub record Accounts (E : AccountsEnv) : Type 0 where
  pub users : E.users.State
  pub ticks : ℕ

module _ (E : AccountsEnv) where
  abbrev pub user_rows : Accounts E → List User
  user_rows a = E.users.rows a.users

  abbrev pub IsLawfulUsers : Type 0
  IsLawfulUsers = IsLawful user_key user_keyed E.users

  abbrev pub on_users :
      {A : Type 0} → (E.users.State → Option A × E.users.State) → Action (Accounts E) A
  on_users call a = let (r, s) = call a.users in (attempt r, record a { users = s })

  abbrev pub drawn : {A : Type 0} → (ℕ → A) → Action (Accounts E) A
  drawn source a = (ok (source a.ticks), record a { ticks = a.ticks + 1 })
