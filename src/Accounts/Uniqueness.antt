-- ===== src/Accounts/Uniqueness.antt =====
-- Every request keeps the users' email addresses and uuids distinct.
use exchange_backend.Base.{
  ℕ, String, ◌≡◌, refl, Bool, true, false, Option, none, some, List, [], ◌∷◌,
}
use exchange_backend.Base.Lists.{All}
use exchange_backend.Base.Distinct.{}
use exchange_backend.Base.Action.{Action, pure, throw, library_error}
use exchange_backend.Accounts.Entity.{User, Authenticated}
use exchange_backend.Accounts.World.{AccountsEnv, Accounts, IsLawfulUsers}
use exchange_backend.Accounts.Database.{
  update_user, update_user_by_id, set_current_refresh_token, remove_refresh_token,
}
use exchange_backend.Accounts.Service.{sign_in, admit, checked_user, matched_user}
use exchange_backend.Accounts.Controller.{
  get_profile, profile_of, change_password, refresh, log_out, turn_on, turned_on, verify_otp,
  verify_two_fa_code, checked_otp,
}
use exchange_backend.Accounts.Invariant.{
  IsWellFormed, IsUnique, Preserves, Preserves-bind, pure-Preserves, throw-Preserves,
  drawn-Preserves, find_one-Preserves, update-Preserves,
}
use exchange_backend.Accounts.Requests.{
  Request, registering, logging_in, reading_profile, changing_password, changing_email, refreshing,
  logging_out, turning_on, verifying, NamesUuid, serve, serve_all,
}
use exchange_backend.Accounts.Emails.{register-Preserves, change_email-Preserves}

module _ (E : AccountsEnv) (L : IsLawfulUsers E) (unique : IsUnique E) where
  update_user_by_id-Preserves :
      (id : Option ℕ) (write : User → User)
      → ((u : User) → (write u).email ≡ u.email)
      → ((u : User) → (write u).uuid ≡ u.uuid)
      → Preserves E (update_user_by_id E id write)
  unfolding update_user_by_id
  update_user_by_id-Preserves id write e u = update-Preserves E L _ write e u

  admit-Preserves : (user : User) → Preserves E (admit E user)
  unfolding admit set_current_refresh_token
  admit-Preserves user =
      Preserves-bind (Preserves-bind (drawn-Preserves _) (λ _. pure-Preserves _)) (λ access.
        Preserves-bind (Preserves-bind (drawn-Preserves _) (λ _. pure-Preserves _)) (λ token.
          Preserves-bind (drawn-Preserves _) (λ date.
            Preserves-bind (update_user_by_id-Preserves _ _ (λ u. refl) (λ u. refl)) (λ _.
              Preserves-bind
                (Preserves-bind (drawn-Preserves _)
                  (λ salt. update-Preserves E L _ _ (λ u. refl) (λ u. refl)))
                (λ _. pure-Preserves _)))))

  checked_user-Preserves :
      (pass : String) (found : Option User) → Preserves E (checked_user E pass found)
  checked_user-Preserves pass none = throw-Preserves _
  checked_user-Preserves pass (some user) = matched (E.compare pass user.password)
    where
      matched : (b : Bool) → Preserves E (matched_user E user b)
      matched true = admit-Preserves user
      matched false = throw-Preserves _

  sign_in-Preserves : (email pass : String) → Preserves E (sign_in E email pass)
  unfolding sign_in
  sign_in-Preserves email pass =
      Preserves-bind (find_one-Preserves E L _) (λ found. checked_user-Preserves pass found)

  get_profile-Preserves : (user : Authenticated) → Preserves E (get_profile E user)
  unfolding get_profile
  get_profile-Preserves user = Preserves-bind (find_one-Preserves E L _) profile
    where
      profile : (found : Option User) → Preserves E (profile_of E found)
      profile none = throw-Preserves _
      profile (some u) = pure-Preserves u

  change_password-Preserves :
      (password : Option String) (user : Authenticated)
      → Preserves E (change_password E password user)
  unfolding change_password update_user
  change_password-Preserves none user = throw-Preserves _
  change_password-Preserves (some p) user =
      Preserves-bind (drawn-Preserves _) (λ salt. update-Preserves E L _ _ (λ u. refl) (λ u. refl))

  verify_otp-Preserves : (otp secret : Option String) → Preserves E (verify_otp E otp secret)
  unfolding verify_otp
  verify_otp-Preserves otp secret =
      Preserves-bind (drawn-Preserves _) (λ time. verified (E.verify otp secret time))
    where
      verified :
          (r : Option Bool)
          → Preserves E (elim r as (λ _. Action (Accounts E) Bool) [
            | none ↦ throw library_error
            | some b ↦ pure b
          ])
      verified none = throw-Preserves _
      verified (some b) = pure-Preserves b

  turn_on-Preserves :
      (secret otp : Option String) (user : Authenticated) → Preserves E (turn_on E secret otp user)
  unfolding turn_on
  turn_on-Preserves secret otp user =
      Preserves-bind (verify_otp-Preserves otp secret) (turned secret)
    where
      turned : (secret : Option String) (b : Bool) → Preserves E (turned_on E secret user b)
      turned secret false = pure-Preserves _
      turned none true =
          Preserves-bind (update_user_by_id-Preserves _ _ (λ u. refl) (λ u. refl))
            (λ _. pure-Preserves _)
      turned (some t) true =
          Preserves-bind (update_user_by_id-Preserves _ _ (λ u. refl) (λ u. refl))
            (λ _. pure-Preserves _)

  verify_two_fa_code-Preserves :
      (otp : Option String) (user : Authenticated) → Preserves E (verify_two_fa_code E otp user)
  unfolding verify_two_fa_code
  verify_two_fa_code-Preserves otp user = Preserves-bind (find_one-Preserves E L _) checked
    where
      checked : (found : Option User) → Preserves E (checked_otp E otp found)
      checked none = throw-Preserves _
      checked (some u) =
          Preserves-bind (verify_otp-Preserves otp u.twofa_secret) (λ b. pure-Preserves _)

  serve-IsWellFormed :
      (r : Request) (a : Accounts E) → NamesUuid r → IsWellFormed E a → IsWellFormed E (serve E r a)
  unfolding refresh log_out remove_refresh_token
  serve-IsWellFormed (registering dto) a n w = (register-Preserves E L unique dto).preserves a w
  serve-IsWellFormed (logging_in email pass) a n w = (sign_in-Preserves email pass).preserves a w
  serve-IsWellFormed (reading_profile user) a n w = (get_profile-Preserves user).preserves a w
  serve-IsWellFormed (changing_password p user) a n w =
      (change_password-Preserves p user).preserves a w
  serve-IsWellFormed (changing_email email user) a n w =
      (change_email-Preserves E L unique email user n.0 n.1).preserves a w
  serve-IsWellFormed (refreshing payload) a n w =
      (Preserves-bind (drawn-Preserves E.clock) (λ time. pure-Preserves _)).preserves a w
  serve-IsWellFormed (logging_out user) a n w = w
  serve-IsWellFormed (turning_on secret otp user) a n w =
      (turn_on-Preserves secret otp user).preserves a w
  serve-IsWellFormed (verifying otp user) a n w =
      (verify_two_fa_code-Preserves otp user).preserves a w

  -- Over a lawful table whose calls may be rejected, and with a generator of uuids that repeats none,
  -- no sequence of requests gives two users one email address or one uuid: if they are distinct and the
  -- uuids to come are new, this is so afterwards. Whoever changes an address is to have a uuid.
  pub serve_all-IsWellFormed :
      (rs : List Request) (a : Accounts E)
      → All NamesUuid rs
      → IsWellFormed E a
      → IsWellFormed E (serve_all E rs a)
  serve_all-IsWellFormed [] a n w = w
  serve_all-IsWellFormed (r ∷ rs) a n w =
      serve_all-IsWellFormed rs (serve E r a) n.1 (serve-IsWellFormed r a n.0 w)
