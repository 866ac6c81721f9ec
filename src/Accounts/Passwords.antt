-- ===== src/Accounts/Passwords.antt =====
-- A new password is the one that signs the user in.
use exchange_backend.Base.{
  String, ◌≡◌, refl, sym, ap, subst, ◌∙◌, Bool, true, false, Option, some, map, if◌then◌else◌,
  eq_refl, is_given_text,
}
use exchange_backend.Base.Lists.{All, All-map, All-of_map}
use exchange_backend.Base.Distinct.{Distinct, Among, Among-map, Distinct-one}
use exchange_backend.Base.Action.{ok, Ends-bind, Ends-mono, Gives, Gives-ok}
use exchange_backend.Repository.{IsReliable}
use exchange_backend.Accounts.Entity.{User, Authenticated}
use exchange_backend.Accounts.World.{AccountsEnv, Accounts, IsHashing, user_rows, IsLawfulUsers}
use exchange_backend.Accounts.Database.{update_user}
use exchange_backend.Accounts.Service.{SignedIn, sign_in}
use exchange_backend.Accounts.Controller.{change_password, with_password}
use exchange_backend.Accounts.Lookups.{update-Gives}
use exchange_backend.Accounts.Credentials.{sign_in-Gives, drawn-Gives}
use exchange_backend.Accounts.Registration.{accepted}

module _ (E : AccountsEnv) (L : IsLawfulUsers E) (R : IsReliable E.users) where
  -- The rows after a new password was written to those with the uuid.
  abbrev with_new_password : Option String → String → String → User → User
  with_new_password uuid password salt u =
      if is_given_text uuid u.uuid then with_password E password (E.hash password salt) u else u

  change_password-Gives :
      (password : String) (user : Authenticated) (a : Accounts E)
      → Gives
          (λ _ b.
            (salt : String) × (user_rows E b
              ≡ map (with_new_password user.uuid password salt) (user_rows E a)))
          (change_password E (some password) user a)
  unfolding change_password update_user
  change_password-Gives password user a =
      Ends-bind _ _ a (drawn-Gives E L R E.gen_salt a) (λ salt b h.
        Ends-mono (λ _ f. f)
          (λ _ c e. (salt, e ∙ ap (map (with_new_password user.uuid password salt)) h.1))
          (update-Gives E L R _ _ b))

  module _ (H : IsHashing E) where
    -- With a lawful table that rejects no call, bcrypt's acceptance of what it has hashed, and users
    -- whose addresses differ, a user who changes the password is signed in with the new one.
    pub change_password-sign_in :
        (u : User) (password : String) (user : Authenticated) (a : Accounts E)
        → Distinct (map (λ x. x.email) (user_rows E a))
        → Among u (user_rows E a)
        → user.uuid ≡ some u.uuid
        → let b : Accounts E = (change_password E (some password) user a).1 in
          (s : SignedIn) × ((sign_in E u.email password b).0 ≡ ok s) × (s.user.email ≡ u.email)
    change_password-sign_in u password user a w among named =
        let b : Accounts E = (change_password E (some password) user a).1 in
        let (done, e, (salt, rows)) = Gives-ok _ (change_password-Gives password user a) in
        let written : User → User = with_new_password user.uuid password salt in
        let right : All (λ x. x.email ≡ u.email → E.compare password x.password ≡ true)
            (user_rows E b) =
          subst (All (λ x. x.email ≡ u.email → E.compare password x.password ≡ true)) (sym rows) (
            All-of_map _ written (user_rows E a) (
              All-map _ _ (λ y one. fresh_hash salt y one) (user_rows E a)
                (Distinct-one (λ x. x.email) u (user_rows E a) w among))) in
        let (s, f, (member, email, stored, same)) = Gives-ok _ (
          sign_in-Gives E L R u.email password b right (written u)
            (subst (Among (written u)) (sym rows) (Among-map written u (user_rows E a) among))
            (keeps_email salt u (is_given_text user.uuid u.uuid))) in
        (s, f, email)
      where
        keeps_email :
            (salt : String) (x : User) (t : Bool)
            → (if t then with_password E password (E.hash password salt) x else x).email ≡ x.email
        keeps_email salt x true = refl
        keeps_email salt x false = refl

        written_hash :
            (salt : String)
            → E.compare password (with_new_password user.uuid password salt u).password ≡ true
        written_hash salt = rw named rw (eq_refl u.uuid) (accepted E L R H password salt _ refl)

        fresh_hash :
            (salt : String) (y : User)
            → (y.email ≡ u.email → y ≡ u)
            → (with_new_password user.uuid password salt y).email ≡ u.email
            → E.compare password (with_new_password user.uuid password salt y).password ≡ true
        fresh_hash salt y one e =
            subst
              (λ (x : User).
                E.compare password (with_new_password user.uuid password salt x).password ≡ true)
              (sym (one (sym (keeps_email salt y (is_given_text user.uuid y.uuid)) ∙ e)))
              (written_hash salt)
