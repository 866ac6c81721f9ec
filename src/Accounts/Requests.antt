-- ===== src/Accounts/Requests.antt =====
-- The requests of src/auth/auth.controller.ts, handled one after the other.
use exchange_backend.Base.{String, ◌≡◌, Option, some, List, [], ◌∷◌}
use exchange_backend.Accounts.Entity.{SignUpDto, Payload, Authenticated}
use exchange_backend.Accounts.World.{AccountsEnv, Accounts}
use exchange_backend.Accounts.Service.{sign_in}
use exchange_backend.Accounts.Controller.{
  register, get_profile, change_password, change_email, refresh, log_out, turn_on,
  verify_two_fa_code,
}

pub data Request : Type 0 where
  registering : SignUpDto → Request
  logging_in : String → String → Request
  reading_profile : Authenticated → Request
  changing_password : Option String → Authenticated → Request
  changing_email : Option String → Authenticated → Request
  refreshing : Payload → Request
  logging_out : Authenticated → Request
  turning_on : Option String → Option String → Authenticated → Request
  verifying : Option String → Authenticated → Request

-- A change of the email address is asked for by a user whose token names a uuid.
abbrev pub NamesUuid : Request → Type 0
NamesUuid (changing_email email user) = (uuid : String) × (user.uuid ≡ some uuid)
NamesUuid _ = Unit

module _ (E : AccountsEnv) where
  -- The state after a request, whatever its reply.
  abbrev pub serve : Request → Accounts E → Accounts E
  serve (registering dto) a = (register E dto a).1
  serve (logging_in email pass) a = (sign_in E email pass a).1
  serve (reading_profile user) a = (get_profile E user a).1
  serve (changing_password password user) a = (change_password E password user a).1
  serve (changing_email email user) a = (change_email E email user a).1
  serve (refreshing payload) a = (refresh E payload a).1
  serve (logging_out user) a = (log_out E user a).1
  serve (turning_on secret otp user) a = (turn_on E secret otp user a).1
  serve (verifying otp user) a = (verify_two_fa_code E otp user a).1

  abbrev pub serve_all : List Request → Accounts E → Accounts E
  serve_all [] a = a
  serve_all (r ∷ rs) a = serve_all rs (serve r a)
