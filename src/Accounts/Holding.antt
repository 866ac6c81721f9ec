-- ===== src/Accounts/Holding.antt =====
-- The secret of a user's second factor under the requests of src/auth/auth.controller.ts.
use mathlib.Core.List.{map-append}
use exchange_backend.Base.{
  ℕ, String, ◌≡◌, ◌≢◌, refl, sym, ap, subst, inl, inr, Bool, true, false, Option, none, some, List,
  [], ◌∷◌, ◌++◌, map, if◌then◌else◌, ◌==◌, is_given_number, arith,
}
use exchange_backend.Base.Lists.{All, All-append}
use exchange_backend.Base.Distinct.{Among, Among-left, update-column}
use exchange_backend.Base.Action.{
  Action, Exception, pure, throw, library_error, Ends-mono, Ends-state, ◌>>=◌,
}
use exchange_backend.Base.Keeping.{Yields-any}
use exchange_backend.Base.Preserving.{
  Preserves, Preserves-after, Preserves-pure, Preserves-throw, Keeps-Preserves,
}
use exchange_backend.Repository.Laws.{save-cases, update-cases}
use exchange_backend.Accounts.Entity.{User, SignUpDto, Authenticated}
use exchange_backend.Accounts.World.{
  AccountsEnv, Accounts, user_rows, IsLawfulUsers, on_users, drawn,
}
use exchange_backend.Accounts.Database.{
  find_one, save_user, new_user, update_user, update_user_by_id, set_current_refresh_token,
  remove_refresh_token,
}
use exchange_backend.Accounts.Service.{sign_in, admit, checked_user, matched_user}
use exchange_backend.Accounts.Controller.{
  register, registration, get_profile, profile_of, change_password, change_email, free_email,
  refresh, log_out, turn_on, turned_on, verify_otp, verify_two_fa_code, checked_otp,
}
use exchange_backend.Accounts.Lookups.{find_one-Ends}
use exchange_backend.Accounts.Credentials.{ids}
use exchange_backend.Accounts.Requests.{
  Request, registering, logging_in, reading_profile, changing_password, changing_email, refreshing,
  logging_out, turning_on, verifying, serve, serve_all,
}

-- The request does not turn the second factor of the user with the key on.
abbrev pub LeavesSecret : ℕ → Request → Type 0
LeavesSecret n (turning_on secret otp user) = user.user_id ≢ some n
LeavesSecret n _ = Unit

module _ (secret : String) (n : ℕ) where
  -- A row with the key holds the secret.
  abbrev pub HoldsSecret : User → Type 0
  HoldsSecret u = (u.id == n) ≡ true → u.twofa_secret ≡ some secret

  -- There is a row with the key, and those with it hold the secret.
  abbrev pub Held : List User → Type 0
  Held rows = All HoldsSecret rows × Among n (ids rows)

  taken_id :
      (k : ℕ) (rows : List User)
      → Among n (ids rows)
      → All (λ x. x.id ≢ k) rows
      → (k == n) ≡ true
      → ⊥
  taken_id k [] m h e = m
  taken_id k (u ∷ us) (inl f) h e = h.0 (ground arith)
  taken_id k (u ∷ us) (inr m) h e = taken_id k us m h.1 e

  written_one :
      (condition : User → Bool) (write : User → User) (u : User)
      → (condition u ≡ true → HoldsSecret u → HoldsSecret (write u))
      → (b : Bool) → condition u ≡ b
      → HoldsSecret u
      → HoldsSecret (if b then write u else u)
  written_one condition write u h true e q = h e q
  written_one condition write u h false e q = q

  written :
      (condition : User → Bool) (write : User → User)
      → ((u : User) → condition u ≡ true → HoldsSecret u → HoldsSecret (write u))
      → (rows : List User) → All HoldsSecret rows
      → All HoldsSecret (map (λ u. if condition u then write u else u) rows)
  written condition write h [] q = tt
  written condition write h (u ∷ us) (q, qs) =
      (written_one condition write u (h u) (condition u) refl q, written condition write h us qs)

module _ (E : AccountsEnv) (L : IsLawfulUsers E) (secret : String) (n : ℕ) where
  abbrev Holds : Accounts E → Type 0
  Holds a = Held secret n (user_rows E a)

  abbrev Keeping : {A : Type 0} → Action (Accounts E) A → Type 0
  Keeping m = Preserves Holds m

  bind-Keeping :
      {A B : Type 0} {m : Action (Accounts E) A} {f : A → Action (Accounts E) B}
      → Keeping m
      → ((x : A) → Keeping (f x))
      → Keeping (m >>= f)
  bind-Keeping h k = Preserves-after Holds h (Yields-any _) (λ x _. k x)

  pure-Keeping : {A : Type 0} (x : A) → Keeping (pure x)
  pure-Keeping = Preserves-pure Holds

  throw-Keeping : {A : Type 0} (e : Exception) → Keeping (throw {A = A} e)
  throw-Keeping = Preserves-throw Holds

  drawn-Keeping : {A : Type 0} (source : ℕ → A) → Keeping (drawn E source)
  drawn-Keeping source = record { preserves = λ a h. h }

  find_one-Keeping : (condition : User → Bool) → Keeping (find_one E condition)
  find_one-Keeping condition = Keeps-Preserves {get = user_rows E} (Held secret n) (record {
    keeps = λ a.
        Ends-state (λ b. user_rows E b ≡ user_rows E a) (find_one E condition a)
          (Ends-mono (λ b u. u.0) (λ found b h. h.0.0) (find_one-Ends E L condition a));
  })

  update-Keeping :
      (condition : User → Bool) (write : User → User)
      → ((u : User) → (write u).id ≡ u.id)
      → ((u : User) → condition u ≡ true → HoldsSecret secret n u → HoldsSecret secret n (write u))
      → Keeping (on_users E (E.users.update condition write))
  update-Keeping condition write same h = record {
    preserves = λ a held. elim (update-cases L condition write a.users) [
      | inl e ↦ subst (Held secret n) (sym e) held
      | inr e ↦ subst (Held secret n) (sym e) (
        written secret n condition write h (user_rows E a) held.0,
        subst (Among n) (sym (update-column (λ u. u.id) condition write same (user_rows E a)))
            held.1,
      )
    ];
  }

  Held-snoc :
      (rows : List User) (u : User)
      → Held secret n rows
      → All (λ x. x.id ≢ u.id) rows
      → Held secret n (rows ++ (u ∷ []))
  Held-snoc rows u held new = (
    All-append (HoldsSecret secret n) rows (u ∷ []) held.0
        ((λ e. absurd (taken_id secret n u.id rows held.1 new e)), tt),
    subst (Among n) (sym (map-append (λ (x : User). x.id) rows (u ∷ [])))
        (Among-left n (ids rows) _ held.1),
  )

  save_user-Keeping : (dto : SignUpDto) → Keeping (save_user E dto)
  unfolding save_user
  save_user-Keeping dto =
      bind-Keeping (drawn-Keeping _)
        (λ salt. bind-Keeping (drawn-Keeping _) (λ uuid. saved (new_user E dto uuid _) refl))
    where
      saved : (u : User) → u.id ≡ 0 → Keeping (on_users E (E.users.save u))
      saved u new = record {
        preserves = λ a held. elim (save-cases L u a.users new) [
          | inl (e, same) ↦ subst (Held secret n) (sym same) held
          | inr (r, e, named, added) ↦
              subst (Held secret n) (sym added)
                (Held-snoc (user_rows E a) r held (L.save-some u r a.users new e).1)
        ];
      }

  by_id-Keeping :
      (id : Option ℕ) (write : User → User)
      → ((u : User) → (write u).id ≡ u.id)
      → ((u : User)
          → is_given_number id u.id ≡ true
          → HoldsSecret secret n u
          → HoldsSecret secret n (write u))
      → Keeping (update_user_by_id E id write)
  unfolding update_user_by_id
  by_id-Keeping id write same h = update-Keeping _ write same h

  admit-Keeping : (user : User) → Keeping (admit E user)
  unfolding admit set_current_refresh_token
  admit-Keeping user =
      bind-Keeping (bind-Keeping (drawn-Keeping _) (λ _. pure-Keeping _)) (λ access.
        bind-Keeping (bind-Keeping (drawn-Keeping _) (λ _. pure-Keeping _)) (λ token.
          bind-Keeping (drawn-Keeping _) (λ date.
            bind-Keeping (by_id-Keeping _ _ (λ u. refl) (λ u c h. h)) (λ _.
              bind-Keeping
                (bind-Keeping (drawn-Keeping _)
                  (λ salt. update-Keeping _ _ (λ u. refl) (λ u c h. h)))
                (λ _. pure-Keeping _)))))

  checked_user-Keeping : (pass : String) (found : Option User) → Keeping (checked_user E pass found)
  checked_user-Keeping pass none = throw-Keeping _
  checked_user-Keeping pass (some user) = matched (E.compare pass user.password)
    where
      matched : (b : Bool) → Keeping (matched_user E user b)
      matched true = admit-Keeping user
      matched false = throw-Keeping _

  register-Keeping : (dto : SignUpDto) → Keeping (register E dto)
  unfolding register
  register-Keeping dto =
      bind-Keeping (find_one-Keeping _)
        (λ email. bind-Keeping (find_one-Keeping _) (λ phone. registered email phone))
    where
      registered : (email phone : Option User) → Keeping (registration E dto email phone)
      registered (some u) phone = pure-Keeping _
      registered none (some u) = pure-Keeping _
      registered none none = bind-Keeping (save_user-Keeping dto) (λ _. pure-Keeping _)

  profile_of-Keeping : (found : Option User) → Keeping (profile_of E found)
  profile_of-Keeping none = throw-Keeping _
  profile_of-Keeping (some u) = pure-Keeping u

  change_password-Keeping :
      (password : Option String) (user : Authenticated) → Keeping (change_password E password user)
  unfolding change_password update_user
  change_password-Keeping none user = throw-Keeping _
  change_password-Keeping (some p) user =
      bind-Keeping (drawn-Keeping _) (λ salt. update-Keeping _ _ (λ u. refl) (λ u c h. h))

  free_email-Keeping :
      (email : Option String) (user : Authenticated) (found : Option User)
      → Keeping (free_email E email user found)
  unfolding update_user
  free_email-Keeping email user (some u) = throw-Keeping _
  free_email-Keeping none user none = throw-Keeping _
  free_email-Keeping (some email) user none = update-Keeping _ _ (λ u. refl) (λ u c h. h)

  verify_otp-Keeping : (otp held : Option String) → Keeping (verify_otp E otp held)
  unfolding verify_otp
  verify_otp-Keeping otp held =
      bind-Keeping (drawn-Keeping _) (λ time. verified (E.verify otp held time))
    where
      verified :
          (r : Option Bool)
          → Keeping (elim r as (λ _. Action (Accounts E) Bool) [
            | none ↦ throw library_error
            | some b ↦ pure b
          ])
      verified none = throw-Keeping _
      verified (some b) = pure-Keeping b

  checked_otp-Keeping :
      (otp : Option String) (found : Option User) → Keeping (checked_otp E otp found)
  checked_otp-Keeping otp none = throw-Keeping _
  checked_otp-Keeping otp (some u) =
      bind-Keeping (verify_otp-Keeping otp u.twofa_secret) (λ b. pure-Keeping _)

  other_user :
      (id : Option ℕ) (k : ℕ) → id ≢ some n → is_given_number id k ≡ true → (k == n) ≡ true → ⊥
  other_user none k h e f = true_false (sym e)
    where
      true_false : true ≡ false → ⊥
      true_false p = cc
  other_user (some m) k h e f = h (ap (λ (x : ℕ). some x) (ground arith))

  turned_on-Keeping :
      (given : Option String) (user : Authenticated) (b : Bool)
      → user.user_id ≢ some n
      → Keeping (turned_on E given user b)
  turned_on-Keeping given user false other = pure-Keeping _
  turned_on-Keeping none user true other =
      bind-Keeping (by_id-Keeping _ _ (λ u. refl) (λ u c h. h)) (λ _. pure-Keeping _)
  turned_on-Keeping (some t) user true other =
      bind-Keeping
        (by_id-Keeping _ _ (λ u. refl) (λ u c h e. absurd (other_user user.user_id u.id other c e)))
        (λ _. pure-Keeping _)

  serve-Holds : (r : Request) (a : Accounts E) → LeavesSecret n r → Holds a → Holds (serve E r a)
  unfolding sign_in get_profile change_email refresh log_out remove_refresh_token turn_on
      verify_two_fa_code
  serve-Holds (registering dto) a n h = (register-Keeping dto).preserves a h
  serve-Holds (logging_in email pass) a n h =
      (bind-Keeping (find_one-Keeping _) (λ found. checked_user-Keeping pass found)).preserves a h
  serve-Holds (reading_profile user) a n h =
      (bind-Keeping (find_one-Keeping _) (λ found. profile_of-Keeping found)).preserves a h
  serve-Holds (changing_password p user) a n h = (change_password-Keeping p user).preserves a h
  serve-Holds (changing_email email user) a n h =
      (bind-Keeping (find_one-Keeping _) (λ found.
          bind-Keeping (free_email-Keeping email user found) (λ _. pure-Keeping _))).preserves
        a h
  serve-Holds (refreshing payload) a n h =
      (bind-Keeping (drawn-Keeping E.clock) (λ time. pure-Keeping _)).preserves a h
  serve-Holds (logging_out user) a n h = h
  serve-Holds (turning_on given otp user) a other h =
      (bind-Keeping (verify_otp-Keeping otp given)
          (λ b. turned_on-Keeping given user b other)).preserves
        a h
  serve-Holds (verifying otp user) a n h =
      (bind-Keeping (find_one-Keeping _) (λ found. checked_otp-Keeping otp found)).preserves a h

  -- What is held stays so under requests that leave the secret.
  pub serve_all-Holds :
      (rs : List Request) (a : Accounts E)
      → All (LeavesSecret n) rs
      → Held secret n (user_rows E a)
      → Held secret n (user_rows E (serve_all E rs a))
  serve_all-Holds [] a l h = h
  serve_all-Holds (r ∷ rs) a l h = serve_all-Holds rs (serve E r a) l.1 (serve-Holds r a l.0 h)
