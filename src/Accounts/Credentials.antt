-- ===== src/Accounts/Credentials.antt =====
-- Registering and signing in.
use exchange_backend.Base.{
  ℕ, String, ◌≡◌, ◌≢◌, refl, sym, ap, subst, ◌∙◌, inl, inr, Bool, true, false, Bool-cases, Option,
  none, some, List, map, if◌then◌else◌, str_eq, eq_iff, ◌==◌,
}
use exchange_backend.Base.Lists.{All, All-map, All-every, All-of_map}
use exchange_backend.Base.Distinct.{Among, Among-All, update-column}
use exchange_backend.Base.Action.{
  Result, ok, Ends, Ends-always, Ends-ok, Gives, Ends-bind, Ends-mono, Ends-pure, Ends-throw, pure,
  ◌>>=◌,
}
use exchange_backend.Repository.{IsReliable}
use exchange_backend.Accounts.Entity.{User}
use exchange_backend.Accounts.World.{AccountsEnv, Accounts, user_rows, IsLawfulUsers, drawn}
use exchange_backend.Accounts.Database.{update_user_by_id, set_current_refresh_token}
use exchange_backend.Accounts.Service.{SignedIn, sign_in, admit, checked_user}
use exchange_backend.Accounts.Lookups.{Looked, find_one-Ends, find_one-Gives, update-Gives}
use exchange_backend.Accounts.Emails.{different}

module _ (E : AccountsEnv) (L : IsLawfulUsers E) where
  -- A user is admitted whose address is given and whose hash accepts the password.
  abbrev IsAdmitted : String → String → Accounts E → SignedIn → Type 0
  IsAdmitted email pass a s =
      Among s.user (user_rows E a)
      × (s.user.email ≡ email)
      × (E.compare pass s.user.password ≡ true)

  any : {A : Type 0} (p : Result A × Accounts E) → Ends (λ _. Unit {0}) (λ _ _. Unit {0}) p
  any p = Ends-always (λ _. Unit {0}) p tt

  admit-user :
      (user : User) (a : Accounts E) → Ends (λ _. Unit {0}) (λ s _. s.user ≡ user) (admit E user a)
  unfolding admit
  admit-user user a = Ends-bind _ _ a (any _) (λ access b _. Ends-bind _ _ b (any _) (λ token c _.
      Ends-bind _ _ c (any _) (λ date d _.
        Ends-bind _ _ d (any _) (λ _ e _. Ends-bind _ _ e (any _) (λ _ f _. Ends-pure _ f refl)))))

  checked_user-IsAdmitted :
      (email pass : String) (found : Option User) (a b : Accounts E)
      → Looked (λ u. str_eq u.email email) (user_rows E a) found
      → Ends (λ _. Unit {0}) (λ s _. IsAdmitted email pass a s) (checked_user E pass found b)
  checked_user-IsAdmitted email pass none a b l = Ends-throw _ b tt
  checked_user-IsAdmitted email pass (some user) a b (named, among) =
      elim (Bool-cases (E.compare pass user.password)) [
        | inl e ↦ rw e (
            Ends-mono (λ _ _. tt)
              (λ s _ u.
                subst
                  (λ x.
                    Among x (user_rows E a)
                    × (x.email ≡ email)
                    × (E.compare pass x.password ≡ true))
                  (sym u) (among, (eq_iff user.email email).0 named, e))
              (admit-user user b))
        | inr e ↦ rw e (Ends-throw _ b tt)
      ]

  -- Over a lawful table whose calls may be rejected, who is signed in is a user of the table with the
  -- address given, and the user's hash accepts the password given.
  pub sign_in_sound :
      (email pass : String) (a : Accounts E) (s : SignedIn)
      → (sign_in E email pass a).0 ≡ ok s
      → Among s.user (user_rows E a)
        × (s.user.email ≡ email)
        × (E.compare pass s.user.password ≡ true)
  unfolding sign_in
  sign_in_sound email pass a s = Ends-ok (IsAdmitted email pass a) _ (
      Ends-bind _ _ a (Ends-mono (λ _ _. tt) (λ _ _ h. h) (find_one-Ends E L _ a))
        (λ found b h. checked_user-IsAdmitted email pass found a b h.1))

-- The keys of the rows.
abbrev pub ids : List User → List ℕ
ids = map (λ u. u.id)

-- The rows of the user who signed in hold a hash of the refresh token that was given out.
abbrev pub IsStored : (E : AccountsEnv) → SignedIn → List User → Type 0
IsStored E s = All (λ u.
    (u.id == s.user.id) ≡ true
    → (salt : String) × (u.refresh_token ≡ some (E.hash s.refresh_token salt)))

module _ (E : AccountsEnv) (L : IsLawfulUsers E) (R : IsReliable E.users) where
  pub drawn-Gives :
      {A : Type 0} (source : ℕ → A) (a : Accounts E)
      → Gives (λ x b. (x ≡ source a.ticks) × (user_rows E b ≡ user_rows E a)) (drawn E source a)
  drawn-Gives source a = Ends-pure _ _ (refl, refl)

  hashed :
      (s : SignedIn) (salt : String) (u : User) (b : Bool)
      → (u.id == s.user.id) ≡ b
      → let u' : User =
          if b then record u { refresh_token = some (E.hash s.refresh_token salt) } else u in
        (u'.id == s.user.id) ≡ true
        → (salt' : String) × (u'.refresh_token ≡ some (E.hash s.refresh_token salt'))
  hashed s salt u true e = λ t. (salt, refl)
  hashed s salt u false e = λ t. cc

  set_current_refresh_token-Gives :
      (s : SignedIn) (a : Accounts E)
      → Gives
          (λ _ b. IsStored E s (user_rows E b) × (ids (user_rows E b) ≡ ids (user_rows E a)))
          (set_current_refresh_token E s.refresh_token s.user.id a)
  unfolding set_current_refresh_token
  set_current_refresh_token-Gives s a = Ends-bind _ _ a (drawn-Gives E.gen_salt a) (λ salt b h.
      Ends-mono (λ _ f. f)
        (λ _ c e. (
          subst (IsStored E s) (sym e) (
              All-of_map _ _ (user_rows E b)
                (All-every _ (λ u. hashed s salt u (u.id == s.user.id) refl) (user_rows E b))),
          ap ids e ∙ update-column (λ u. u.id) _ _ (λ u. refl) (user_rows E b) ∙ ap ids h.1,
        ))
        (update-Gives E L R _ _ b))

  token-Gives :
      (token : ℕ → String) (a : Accounts E)
      → Gives
          (λ _ b. user_rows E b ≡ user_rows E a)
          ((drawn E E.clock >>= λ time. pure (token time)) a)
  token-Gives token a = Ends-bind _ _ a (drawn-Gives E.clock a) (λ time b h. Ends-pure _ b h.1)

  pub admit-Gives :
      (user : User) (a : Accounts E)
      → Gives
          (λ s b.
            (s.user ≡ user)
            × (IsStored E s (user_rows E b) × (ids (user_rows E b) ≡ ids (user_rows E a))))
          (admit E user a)
  unfolding admit update_user_by_id
  admit-Gives user a = Ends-bind _ _ a (token-Gives _ a) (λ access b h.
      Ends-bind _ _ b (token-Gives _ b) (λ token c k.
        Ends-bind _ _ c (drawn-Gives E.clock c) (λ date d l.
          Ends-bind _ _ d (update-Gives E L R _ _ d) (λ _ e m.
            Ends-bind _ _ e
              (set_current_refresh_token-Gives
                (record { access_token = access; refresh_token = token; user = user }) e)
              (λ _ f (stored, same). Ends-pure _ f (
                refl,
                (
                  stored,
                  same
                      ∙ ap ids m
                      ∙ update-column (λ u. u.id) _ _ (λ u. refl) (user_rows E d)
                      ∙ ap ids (l.1 ∙ k ∙ h),
                ),
              ))))))

  -- What signing in gives.
  abbrev pub IsSignedIn : String → SignedIn → Accounts E → Accounts E → Type 0
  IsSignedIn email s a b =
      Among s.user (user_rows E a)
      × (s.user.email ≡ email)
      × IsStored E s (user_rows E b)
      × (ids (user_rows E b) ≡ ids (user_rows E a))

  signed_in :
      (email pass : String) (found : Option User) (a b : Accounts E)
      → Looked (λ u. str_eq u.email email) (user_rows E a) found
      → All (λ u. u.email ≡ email → E.compare pass u.password ≡ true) (user_rows E a)
      → (u : User) → Among u (user_rows E a)
      → u.email ≡ email
      → user_rows E b ≡ user_rows E a
      → Gives (λ s c. IsSignedIn email s a c) (checked_user E pass found b)
  signed_in email pass none a b nobody right u among named _ = absurd (
      Among-All (λ x. x.email ≢ email) u (user_rows E a) among
        (All-map _ _ (λ x. different x.email email) _ nobody) named)
  signed_in email pass (some user) a b (named, among) right u _ _ same =
      let e : user.email ≡ email = (eq_iff user.email email).0 named in
      rw (Among-All _ user (user_rows E a) among right e) (
        Ends-mono (λ _ f. f)
          (λ s c h. (
            subst (λ x. Among x (user_rows E a)) (sym h.0) among,
            ap (λ (x : User). x.email) h.0 ∙ e,
            h.1.0,
            h.1.1 ∙ ap ids same,
          ))
          (admit-Gives user b))

  -- A user whose address is known and whose hash accepts the password is signed in.
  pub sign_in-Gives :
      (email pass : String) (a : Accounts E)
      → All (λ u. u.email ≡ email → E.compare pass u.password ≡ true) (user_rows E a)
      → (u : User) → Among u (user_rows E a)
      → u.email ≡ email
      → Gives (λ s b. IsSignedIn email s a b) (sign_in E email pass a)
  unfolding sign_in
  sign_in-Gives email pass a right u among named =
      Ends-bind _ _ a (find_one-Gives E L R _ a)
        (λ found b h. signed_in email pass found a b h.1 right u among named h.0.0)
