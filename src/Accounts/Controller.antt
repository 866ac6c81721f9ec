-- ===== src/Accounts/Controller.antt =====
-- src/auth/auth.controller.ts. The guards hand a handler the authenticated user.
use exchange_backend.Base.{String, Bool, true, false, Option, none, some}
use exchange_backend.Base.Action.{
  Action, pure, throw, database_error, type_error, library_error, http_exception, ◌>>=◌, ◌>>◌,
}
use exchange_backend.Custody.Entity.{yes}
use exchange_backend.Accounts.Entity.{
  User, UserQuery, SignUpDto, Payload, Authenticated, validate_refresh,
}
use exchange_backend.Accounts.World.{AccountsEnv, Accounts, drawn}
use exchange_backend.Accounts.Database.{
  find_user_by_id, exist_user_data, update_user, update_user_by_id, remove_refresh_token,
}
use exchange_backend.Accounts.Service.{sign_up, get_cookie_with_jwt_access_token}

pub record Reply : Type 0 where
  pub success : Bool
  pub message : String

abbrev pub by_email : Option String → UserQuery
by_email email = record { id = none; uuid = none; email = email; phone_number = none }

abbrev pub by_phone : Option String → UserQuery
by_phone phone = record { id = none; uuid = none; email = none; phone_number = phone }

module _ (E : AccountsEnv) where
  abbrev pub registration : SignUpDto → Option User → Option User → Action (Accounts E) Reply
  registration dto (some u) _ =
      pure (record { success = false; message = "Email already  registered" })
  registration dto none (some u) =
      pure (record { success = false; message = "Phone Number already  registered" })
  registration dto none none = do
    sign_up E dto
    pure (record { success = true; message = "Successfully registered" })

  -- `register`
  unfoldable pub register : SignUpDto → Action (Accounts E) Reply
  register dto = do
    exist_email ← exist_user_data E (by_email (some dto.email))
    exist_phone ← exist_user_data E (by_phone dto.phone_number)
    registration dto exist_email exist_phone

  abbrev pub profile_of : Option User → Action (Accounts E) User
  profile_of none = throw (http_exception 401 "Access denied")
  profile_of (some u) = pure u

  -- `getProfile`: `user.id` is undefined.
  unfoldable pub get_profile : Authenticated → Action (Accounts E) User
  get_profile user = do
    found ←
        exist_user_data E
          (record { id = none; uuid = user.uuid; email = none; phone_number = none })
    profile_of found

  abbrev pub with_password : String → String → User → User
  with_password password hashed u = record u { zasper_id = password; password = hashed }

  -- bcrypt throws where there is no password.
  unfoldable pub change_password : Option String → Authenticated → Action (Accounts E) (Unit {0})
  change_password none user = throw library_error
  change_password (some password) user = do
    salt ← drawn E E.gen_salt
    update_user E user.uuid (with_password password (E.hash password salt))

  -- TypeORM rejects an update that writes nothing.
  abbrev pub write_email : Option String → Option String → Action (Accounts E) (Unit {0})
  write_email none uuid = throw database_error
  write_email (some email) uuid = update_user E uuid (λ u. record u { email = email })

  abbrev pub free_email :
      Option String → Authenticated → Option User → Action (Accounts E) (Unit {0})
  free_email email user (some u) = throw (http_exception 500 "Email aready exist")
  free_email email user none = write_email email user.uuid

  unfoldable pub change_email : Option String → Authenticated → Action (Accounts E) Reply
  change_email email user = do
    found ← exist_user_data E (by_email email)
    free_email email user found
    pure (record { success = true; message = "Email succesfully updated" })

  -- The guard of `refresh`: passport calls the strategy with the payload and a callback.
  abbrev pub refresh_guard : Payload → Authenticated
  refresh_guard payload = validate_refresh payload E.callback

  -- The payload that `getCookieWithJwtAccessToken` reads off `request.user`, which has no `id`.
  abbrev pub refreshed_payload : Authenticated → Payload
  refreshed_payload user = record { sub = none; uuid = user.uuid }

  -- `refresh`, for a request whose refresh token carries the payload.
  unfoldable pub refresh : Payload → Action (Accounts E) String
  refresh payload = get_cookie_with_jwt_access_token E (refreshed_payload (refresh_guard payload))

  -- `logOut`: `request.user.id` is undefined.
  unfoldable pub log_out : Authenticated → Action (Accounts E) (Unit {0})
  log_out user = remove_refresh_token E none

  -- `authenticator.verify` at the present time.
  unfoldable pub verify_otp : Option String → Option String → Action (Accounts E) Bool
  verify_otp otp secret = do
    time ← drawn E E.clock
    elim (E.verify otp secret time) as (λ _. Action (Accounts E) Bool) [
      | none ↦ throw library_error
      | some b ↦ pure b
    ]

  abbrev pub with_secret : Option String → User → User
  with_secret none u = record u { is_two_fa_enabled = yes }
  with_secret (some secret) u = record u { twofa_secret = some secret; is_two_fa_enabled = yes }

  abbrev pub turned_on : Option String → Authenticated → Bool → Action (Accounts E) Reply
  turned_on secret user true = do
    update_user_by_id E user.user_id (with_secret secret)
    pure (record { success = true; message = "Two FA enabled Successfully" })
  turned_on secret user false =
      pure (record { success = false; message = "Otp is expired or wrong" })

  -- `turnOnTwoFactorAuthentication`
  unfoldable pub turn_on : Option String → Option String → Authenticated → Action (Accounts E) Reply
  turn_on secret otp user = do verified ← verify_otp otp secret; turned_on secret user verified

  abbrev pub otp_reply : Bool → Reply
  otp_reply true = record { success = true; message = "Logged In successfully" }
  otp_reply false = record { success = false; message = "Otp is expired or wrong" }

  abbrev pub checked_otp : Option String → Option User → Action (Accounts E) Reply
  checked_otp otp none = throw type_error
  checked_otp otp (some u) = do verified ← verify_otp otp u.twofa_secret; pure (otp_reply verified)

  -- `verifyTwoFaCode`
  unfoldable pub verify_two_fa_code : Option String → Authenticated → Action (Accounts E) Reply
  verify_two_fa_code otp user = do found ← find_user_by_id E user.user_id; checked_otp otp found
