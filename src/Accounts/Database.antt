-- ===== src/Accounts/Database.antt =====
-- The methods of src/database/database.service.ts on users.
use mathlib.Core.List.{head?}
use exchange_backend.Base.{
  ℕ, String, Bool, ◌==◌, str_eq, is_numbered, is_given_text, is_given_number, Option, none, some,
  [],
}
use exchange_backend.Base.Action.{Action, pure, throw, database_error, ◌>>=◌}
use exchange_backend.Custody.Entity.{active, no}
use exchange_backend.Accounts.Entity.{User, UserQuery, SignUpDto, fits}
use exchange_backend.Accounts.World.{AccountsEnv, Accounts, on_users, drawn}

module _ (E : AccountsEnv) where
  -- `findOne`
  unfoldable pub find_one : (User → Bool) → Action (Accounts E) (Option User)
  find_one condition = do
    found ← on_users E (E.users.find (record { condition = condition; order = []; limit = some 1 }))
    pure (head? found)

  abbrev pub find_user : String → Action (Accounts E) (Option User)
  find_user email = find_one (λ u. str_eq u.email email)

  abbrev pub find_user_by_id : Option ℕ → Action (Accounts E) (Option User)
  find_user_by_id id = find_one (λ u. is_numbered id u.id)

  abbrev pub exist_user_data : UserQuery → Action (Accounts E) (Option User)
  exist_user_data query = find_one (fits query)

  -- The row that `saveUser` saves: the password itself goes to `zasper_id`.
  abbrev pub new_user : SignUpDto → String → String → User
  new_user dto uuid hashed = record {
    id = 0;
    email = dto.email;
    name = dto.name;
    uuid = uuid;
    referral_id = dto.referral_id;
    password = hashed;
    zasper_id = dto.password;
    phone_number = dto.phone_number;
    refresh_token = none;
    twofa_secret = none;
    status = active;
    email_verified = no;
    is_two_fa_enabled = no;
    id_verified = no;
    spot_wallet = 0;
    fund_wallet = 0;
    ip_address = none;
    logged_in_at = none;
    created_at = 0;
  }

  unfoldable pub save_user : SignUpDto → Action (Accounts E) User
  save_user dto = do
    salt ← drawn E E.gen_salt
    uuid ← drawn E E.uuidv4
    on_users E (E.users.save (new_user dto uuid (E.hash dto.password salt)))

  -- TypeORM rejects an update whose criterion is undefined.
  unfoldable pub remove_refresh_token : Option ℕ → Action (Accounts E) (Unit {0})
  remove_refresh_token none = throw database_error
  remove_refresh_token (some id) =
      on_users E (E.users.update (λ u. u.id == id) (λ u. record u { refresh_token = none }))

  -- The columns that `data` names are what `write` writes. An undefined `uuid` or `id` is met by no row.
  unfoldable pub update_user : Option String → (User → User) → Action (Accounts E) (Unit {0})
  update_user uuid write = on_users E (E.users.update (λ u. is_given_text uuid u.uuid) write)

  unfoldable pub update_user_by_id : Option ℕ → (User → User) → Action (Accounts E) (Unit {0})
  update_user_by_id id write = on_users E (E.users.update (λ u. is_given_number id u.id) write)

  unfoldable pub set_current_refresh_token : String → ℕ → Action (Accounts E) (Unit {0})
  set_current_refresh_token refresh_token id = do
    salt ← drawn E E.gen_salt
    on_users E (
        E.users.update (λ u. u.id == id)
          (λ u. record u { refresh_token = some (E.hash refresh_token salt) }))
