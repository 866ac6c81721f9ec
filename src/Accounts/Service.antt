-- ===== src/Accounts/Service.antt =====
-- src/auth/auth.service.ts, with src/constants/contants.ts.
use exchange_backend.Base.{ℕ, String, Bool, true, false, Option, none, some}
use exchange_backend.Base.Action.{
  Action, pure, throw, type_error, library_error, http_exception, ◌>>=◌, ◌>>◌,
}
use exchange_backend.Accounts.Entity.{User, SignUpDto, Payload}
use exchange_backend.Accounts.World.{AccountsEnv, Accounts, drawn}
use exchange_backend.Accounts.Database.{
  find_user, find_user_by_id, save_user, update_user_by_id, set_current_refresh_token,
}

abbrev token_secret : String
token_secret = "@32432)p."

abbrev token_expiration : String
token_expiration = "1d"

abbrev refresh_token_secret : String
refresh_token_secret = "@42432)p."

abbrev refresh_token_expiration : String
refresh_token_expiration = "7d"

-- What `signIn` returns; `user` is the row as it was before the login was noted.
pub record SignedIn : Type 0 where
  pub access_token : String
  pub refresh_token : String
  pub user : User

module _ (E : AccountsEnv) where
  abbrev pub get_cookie_with_jwt_access_token : Payload → Action (Accounts E) String
  get_cookie_with_jwt_access_token payload = do
    time ← drawn E E.clock
    pure (E.sign payload token_secret token_expiration time)

  abbrev pub get_cookie_with_jwt_refresh_token : Payload → Action (Accounts E) String
  get_cookie_with_jwt_refresh_token payload = do
    time ← drawn E E.clock
    pure (E.sign payload refresh_token_secret refresh_token_expiration time)

  abbrev pub payload_of : User → Payload
  payload_of user = record { sub = some user.id; uuid = some user.uuid }

  -- The steps of `signIn` for a user whose password matches.
  unfoldable pub admit : User → Action (Accounts E) SignedIn
  admit user = do
    access_token ← get_cookie_with_jwt_access_token (payload_of user)
    refresh_token ← get_cookie_with_jwt_refresh_token (payload_of user)
    date ← drawn E E.clock
    update_user_by_id E (some user.id) (λ u. record u { logged_in_at = some date })
    set_current_refresh_token E refresh_token user.id
    pure (record { access_token = access_token; refresh_token = refresh_token; user = user })

  abbrev pub invalid_credentials : Action (Accounts E) SignedIn
  invalid_credentials = throw (http_exception 401 "Invalid login credentials")

  abbrev pub matched_user : User → Bool → Action (Accounts E) SignedIn
  matched_user user true = admit user
  matched_user user false = invalid_credentials

  abbrev pub checked_user : String → Option User → Action (Accounts E) SignedIn
  checked_user pass none = invalid_credentials
  checked_user pass (some user) = matched_user user (E.compare pass user.password)

  unfoldable pub sign_in : String → String → Action (Accounts E) SignedIn
  sign_in email pass = do found ← find_user E email; checked_user pass found

  abbrev pub sign_up : SignUpDto → Action (Accounts E) User
  sign_up dto = save_user E dto

  -- `bcrypt.compare` rejects a hash that is null.
  abbrev pub matching_user : String → User → Option String → Action (Accounts E) (Option User)
  matching_user token user none = throw library_error
  matching_user token user (some hashed) =
      pure (elim (E.compare token hashed) [ true ↦ some user | false ↦ none ])

  abbrev pub found_user : String → Option User → Action (Accounts E) (Option User)
  found_user token none = throw type_error
  found_user token (some user) = matching_user token user user.refresh_token

  unfoldable pub get_user_if_refresh_token_matches :
      String → Option ℕ → Action (Accounts E) (Option User)
  get_user_if_refresh_token_matches token user_id = do
    user ← find_user_by_id E user_id
    found_user token user
