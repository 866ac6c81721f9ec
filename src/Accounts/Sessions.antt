-- ===== src/Accounts/Sessions.antt =====
-- The refresh token after signing out, and the second factor.
use exchange_backend.Base.{
  ℕ, String, ◌≡◌, ◌≢◌, refl, sym, ap, subst, ◌∙◌, inl, inr, Bool, true, false, Option, none, some,
  List, [], ◌∷◌, ◌==◌, ==_self,
}
use exchange_backend.Base.Lists.{All}
use exchange_backend.Base.Distinct.{Among, Among-map, Among-All}
use exchange_backend.Base.Action.{ok, Ends-bind, Ends-pure, Gives, Gives-ok}
use exchange_backend.Repository.{IsReliable}
use exchange_backend.Accounts.Entity.{User, Authenticated}
use exchange_backend.Accounts.World.{AccountsEnv, Accounts, IsHashing, user_rows, IsLawfulUsers}
use exchange_backend.Accounts.Database.{remove_refresh_token}
use exchange_backend.Accounts.Service.{
  SignedIn, sign_in, get_user_if_refresh_token_matches, found_user, matching_user,
}
use exchange_backend.Accounts.Controller.{log_out}
use exchange_backend.Accounts.Lookups.{Looked, find_one-Gives}
use exchange_backend.Accounts.Credentials.{IsStored, ids, sign_in-Gives}

pub no_row :
    (n : ℕ) (rows : List User) → Among n (ids rows) → All (λ u. (u.id == n) ≡ false) rows → ⊥
no_row n [] m h = m
no_row n (u ∷ us) (inl e) h = absurd (clash (subst (λ k. (k == n) ≡ false) e h.0) (==_self n))
  where
    clash : {b : Bool} → b ≡ false → b ≡ true → ⊥
    clash p q = cc
no_row n (u ∷ us) (inr m) h = no_row n us m h.1

module _ (E : AccountsEnv) (L : IsLawfulUsers E) (R : IsReliable E.users) (H : IsHashing E) where
  -- The answer is a user with the key of the one who signed in.
  abbrev IsMatched : SignedIn → Option User → Type 0
  IsMatched s r = (x : User) × (r ≡ some x) × ((x.id == s.user.id) ≡ true)

  matching :
      (s : SignedIn) (u : User) (token : Option String) (a : Accounts E)
      → (salt : String) × (token ≡ some (E.hash s.refresh_token salt))
      → (u.id == s.user.id) ≡ true
      → Gives (λ r _. IsMatched s r) (matching_user E s.refresh_token u token a)
  matching s u token a (salt, e) same =
      rw e rw (H.compare-hash s.refresh_token salt) (Ends-pure _ a (u, refl, same))

  found-matching :
      (s : SignedIn) (found : Option User) (a b : Accounts E)
      → Looked (λ u. u.id == s.user.id) (user_rows E a) found
      → IsStored E s (user_rows E a)
      → Among s.user.id (ids (user_rows E a))
      → Gives (λ r _. IsMatched s r) (found_user E s.refresh_token found b)
  found-matching s none a b nobody stored key = absurd (no_row s.user.id (user_rows E a) key nobody)
  found-matching s (some u) a b (same, among) stored key =
      matching s u u.refresh_token b (Among-All _ u (user_rows E a) among stored same) same

  matches-Gives :
      (s : SignedIn) (a : Accounts E)
      → IsStored E s (user_rows E a)
      → Among s.user.id (ids (user_rows E a))
      → Gives
          (λ r _. IsMatched s r)
          (get_user_if_refresh_token_matches E s.refresh_token (some s.user.id) a)
  unfolding get_user_if_refresh_token_matches
  matches-Gives s a stored key =
      Ends-bind _ _ a (find_one-Gives E L R _ a)
        (λ found b h. found-matching s found a b h.1 stored key)

  -- With a lawful table that rejects no call and bcrypt's acceptance of what it has hashed, signing out
  -- fails for every user, and the refresh token of a user who signed in before still matches that
  -- user's row.
  pub refresh_token-survives :
      (email pass : String) (user : Authenticated) (a : Accounts E)
      → All (λ u. u.email ≡ email → E.compare pass u.password ≡ true) (user_rows E a)
      → (u : User) → Among u (user_rows E a)
      → u.email ≡ email
      → let b : Accounts E = (sign_in E email pass a).1 in
        ((log_out E user b).0 ≢ ok tt)
        × ((s : SignedIn) × ((sign_in E email pass a).0 ≡ ok s)
            × (x : User) × ((get_user_if_refresh_token_matches E s.refresh_token
                  (some s.user.id)
                  (log_out E user b).1).0
                ≡ ok (some x))
            × ((x.id == s.user.id) ≡ true))
  unfolding log_out remove_refresh_token
  refresh_token-survives email pass user a right u among named =
      let b : Accounts E = (sign_in E email pass a).1 in
      let (s, e, (member, address, stored, same)) =
        Gives-ok _ (sign_in-Gives E L R email pass a right u among named) in
      let (r, f, (x, is_x, key)) = Gives-ok _ (
        matches-Gives s b stored (
          subst (Among s.user.id) (sym same)
            (Among-map (λ x. x.id) s.user (user_rows E a) member))) in
      ((λ p. cc), (s, e, x, f ∙ ap (λ (o : Option User). ok o) is_x, key))
