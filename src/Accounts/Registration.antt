-- ===== src/Accounts/Registration.antt =====
-- Who registers, or sets a new password, can sign in.
use exchange_backend.Base.{
  String, ◌≡◌, ◌≢◌, refl, sym, ap, subst, ◌∙◌, inl, inr, Bool, true, false, Option, none, some,
  List, [], ◌∷◌, ◌++◌, eq_iff,
}
use exchange_backend.Base.Lists.{All, All-map, All-append}
use exchange_backend.Base.Distinct.{Among, Among-All}
use exchange_backend.Base.Action.{ok, Ends-bind, Ends-pure, Gives, Gives-ok}
use exchange_backend.Repository.{IsReliable}
use exchange_backend.Accounts.Entity.{User, SignUpDto, fits}
use exchange_backend.Accounts.World.{AccountsEnv, Accounts, IsHashing, user_rows, IsLawfulUsers}
use exchange_backend.Accounts.Database.{new_user, save_user}
use exchange_backend.Accounts.Service.{SignedIn, sign_in}
use exchange_backend.Accounts.Controller.{Reply, register, registration, by_email, by_phone}
use exchange_backend.Accounts.Lookups.{Looked, find_one-Gives}
use exchange_backend.Accounts.Emails.{and_true-eq}
use exchange_backend.Accounts.Credentials.{sign_in-Gives, drawn-Gives}

module _ (E : AccountsEnv) (L : IsLawfulUsers E) (R : IsReliable E.users) (H : IsHashing E) where
  -- The table has one new row, with the address and a hash of the password.
  abbrev pub IsRegistered : SignUpDto → List User → List User → Type 0
  IsRegistered dto before after =
      (u : User) × (after ≡ before ++ (u ∷ []))
      × (u.email ≡ dto.email)
      × (salt : String) × (u.password ≡ E.hash dto.password salt)

  save_user-Gives :
      (dto : SignUpDto) (a : Accounts E)
      → Gives (λ _ b. IsRegistered dto (user_rows E a) (user_rows E b)) (save_user E dto a)
  unfolding save_user
  save_user-Gives dto a = Ends-bind _ _ a (drawn-Gives E L R E.gen_salt a) (λ salt b h.
      Ends-bind _ _ b (drawn-Gives E L R E.uuidv4 b) (λ uuid c k.
        let new : User = new_user E dto uuid (E.hash dto.password salt) in
        let (u, e) = R.saves new c.users in
        let ((time, same), fresh) = L.save-some new u c.users refl e in
        rw e (
          Ends-pure _ _ (
            u,
            L.rows-save new c.users
                ∙ ap
                    (λ (o : Option User). elim o [
                      | none ↦ user_rows E c
                      | some x ↦ user_rows E c ++ (x ∷ [])
                    ])
                    e
                ∙ ap (λ (rows : List User). rows ++ (u ∷ [])) (k.1 ∙ h.1),
            ap (λ (x : User). x.email) same,
            salt,
            ap (λ (x : User). x.password) same,
          ))))

  -- Nobody has the address or, if there is one, the phone number; without a phone number the query
  -- for it finds anybody.
  abbrev pub IsUnknown : SignUpDto → List User → Type 0
  IsUnknown dto rows =
      All (λ u. u.email ≢ dto.email) rows
      × All (λ u. fits (by_phone dto.phone_number) u ≡ false) rows

  registration-Gives :
      (dto : SignUpDto) (found phone : Option User) (a b : Accounts E)
      → IsUnknown dto (user_rows E a)
      → user_rows E b ≡ user_rows E a
      → Looked (fits (by_email (some dto.email))) (user_rows E a) found
      → Looked (fits (by_phone dto.phone_number)) (user_rows E a) phone
      → Gives
          (λ reply c. (reply.success ≡ true) × IsRegistered dto (user_rows E a) (user_rows E c))
          (registration E dto found phone b)
  registration-Gives dto (some u) phone a b (address, number) same (named, among) l = absurd (
      Among-All (λ x. x.email ≢ dto.email) u (user_rows E a) among address
        ((eq_iff u.email dto.email).0 (and_true-eq _ named)))
  registration-Gives dto none (some u) a b (address, number) same l (named, among) = absurd (
      both named (
        Among-All (λ x. fits (by_phone dto.phone_number) x ≡ false) u (user_rows E a) among number))
    where
      both : {t : Bool} → t ≡ true → t ≡ false → ⊥
      both p q = cc
  registration-Gives dto none none a b unknown same l k =
      Ends-bind _ _ b (save_user-Gives dto b) (λ _ c r.
        Ends-pure _ c (refl, subst (λ rows. IsRegistered dto rows (user_rows E c)) same r))

  pub register-Gives :
      (dto : SignUpDto) (a : Accounts E)
      → IsUnknown dto (user_rows E a)
      → Gives
          (λ reply b. (reply.success ≡ true) × IsRegistered dto (user_rows E a) (user_rows E b))
          (register E dto a)
  unfolding register
  register-Gives dto a unknown = Ends-bind _ _ a (find_one-Gives E L R _ a) (λ found b h.
      Ends-bind _ _ b (find_one-Gives E L R _ b) (λ phone c k.
        registration-Gives dto found phone a c unknown (k.0.0 ∙ h.0.0) h.1
          (subst (λ rows. Looked (fits (by_phone dto.phone_number)) rows phone) h.0.0 k.1)))

  pub accepted :
      (password salt hash : String) → hash ≡ E.hash password salt → E.compare password hash ≡ true
  accepted password salt hash e = rw e (H.compare-hash password salt)

  last-Among : {A : Type 0} (x : A) (xs : List A) → Among x (xs ++ (x ∷ []))
  last-Among x [] = inl refl
  last-Among x (y ∷ ys) = inr (last-Among x ys)

  -- With a lawful table that rejects no call, and bcrypt's acceptance of what it has hashed, a
  -- registration whose address nobody has, and whose phone number the query finds with nobody,
  -- succeeds, and the new user is then signed in with the address and the password.
  pub register-sign_in :
      (dto : SignUpDto) (a : Accounts E)
      → IsUnknown dto (user_rows E a)
      → ((reply : Reply) × ((register E dto a).0 ≡ ok reply) × (reply.success ≡ true))
        × ((s : SignedIn) × ((sign_in E dto.email dto.password (register E dto a).1).0 ≡ ok s)
            × (s.user.email ≡ dto.email))
  register-sign_in dto a unknown =
      let (reply, e, (success, (u, rows, address, salt, password))) =
        Gives-ok _ (register-Gives dto a unknown) in
      let b : Accounts E = (register E dto a).1 in
      let right : All (λ x. x.email ≡ dto.email → E.compare dto.password x.password ≡ true)
          (user_rows E b) =
        subst (All (λ x. x.email ≡ dto.email → E.compare dto.password x.password ≡ true)) (sym rows)
          (All-append _ (user_rows E a) (u ∷ []) (All-map _ _ (λ x n p. absurd (n p)) _ unknown.0)
            ((λ p. accepted dto.password salt u.password password), tt)) in
      let (s, f, (among, named, stored, same)) = Gives-ok _ (
        sign_in-Gives E L R dto.email dto.password b right u
          (subst (Among u) (sym rows) (last-Among u (user_rows E a))) address) in
      ((reply, e, success), (s, f, named))
