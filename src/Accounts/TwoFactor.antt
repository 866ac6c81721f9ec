-- ===== src/Accounts/TwoFactor.antt =====
-- The second factor: the codes of the secret that was turned on are those that are accepted.
use exchange_backend.Base.{
  ℕ, String, ◌≡◌, refl, sym, ap, subst, ◌∙◌, Bool, true, false, Option, none, some, List,
  if◌then◌else◌, ◌==◌,
}
use exchange_backend.Base.Lists.{All, All-every, All-of_map}
use exchange_backend.Base.Distinct.{Among, Among-All, update-column}
use exchange_backend.Base.Action.{ok, Ends-bind, Ends-mono, Ends-pure, Gives, Gives-ok, ◌>>=◌}
use exchange_backend.Repository.{IsReliable}
use exchange_backend.Accounts.Entity.{User, Authenticated}
use exchange_backend.Accounts.World.{AccountsEnv, Accounts, user_rows, IsLawfulUsers}
use exchange_backend.Accounts.Database.{update_user_by_id}
use exchange_backend.Accounts.Controller.{
  Reply, verify_otp, turn_on, turned_on, with_secret, verify_two_fa_code, checked_otp, otp_reply,
}
use exchange_backend.Accounts.Lookups.{Looked, find_one-Gives, update-Gives}
use exchange_backend.Accounts.Credentials.{ids}
use exchange_backend.Accounts.Requests.{Request, serve_all}
use exchange_backend.Accounts.Holding.{HoldsSecret, LeavesSecret, serve_all-Holds}
use exchange_backend.Accounts.Sessions.{no_row}

module _ (E : AccountsEnv) (L : IsLawfulUsers E) (R : IsReliable E.users) (secret : String)
    (n : ℕ) where
  verify_otp-Gives :
      (otp held : Option String) (accepted : Bool) (a : Accounts E)
      → E.verify otp held (E.clock a.ticks) ≡ some accepted
      → Gives (λ b t. (b ≡ accepted) × (user_rows E t ≡ user_rows E a)) (verify_otp E otp held a)
  unfolding verify_otp ◌>>=◌
  verify_otp-Gives otp held accepted a e = rw e (Ends-pure _ _ (refl, refl))

  written_secret :
      (u : User) (b : Bool)
      → (u.id == n) ≡ b
      → let u' : User = if b then with_secret E (some secret) u else u in
        (u'.id == n) ≡ true → u'.twofa_secret ≡ some secret
  written_secret u true e t = refl
  written_secret u false e t = cc

  turned_on-Gives :
      (user : Authenticated) (a : Accounts E)
      → user.user_id ≡ some n
      → Gives
          (λ reply b.
            (reply.success ≡ true)
            × All (HoldsSecret secret n) (user_rows E b)
            × (ids (user_rows E b) ≡ ids (user_rows E a)))
          (turned_on E (some secret) user true a)
  unfolding update_user_by_id
  turned_on-Gives user a named = rw named (
      Ends-bind _ _ a (update-Gives E L R _ _ a) (λ _ b e. Ends-pure _ b (
        refl,
        subst (All (HoldsSecret secret n)) (sym e) (
            All-of_map _ _ (user_rows E a)
              (All-every _ (λ u. written_secret u (u.id == n) refl) (user_rows E a))),
        ap ids e ∙ update-column (λ u. u.id) _ _ (λ u. refl) (user_rows E a),
      )))

  turn_on-Gives :
      (otp : Option String) (user : Authenticated) (a : Accounts E)
      → user.user_id ≡ some n
      → E.verify otp (some secret) (E.clock a.ticks) ≡ some true
      → Gives
          (λ reply b.
            (reply.success ≡ true)
            × All (HoldsSecret secret n) (user_rows E b)
            × (ids (user_rows E b) ≡ ids (user_rows E a)))
          (turn_on E (some secret) otp user a)
  unfolding turn_on
  turn_on-Gives otp user a named e =
      Ends-bind _ _ a (verify_otp-Gives otp (some secret) true a e) (λ accepted b h. rw h.0 (
        Ends-mono (λ _ f. f) (λ reply c k. (k.0, k.1, k.2 ∙ ap ids h.1))
          (turned_on-Gives user b named)))

  checked_otp-Gives :
      (code : Option String) (accepted : Bool) (found : Option User) (a b : Accounts E)
      → Looked (λ u. u.id == n) (user_rows E a) found
      → All (HoldsSecret secret n) (user_rows E a)
      → Among n (ids (user_rows E a))
      → E.verify code (some secret) (E.clock b.ticks) ≡ some accepted
      → Gives (λ reply _. reply ≡ otp_reply E accepted) (checked_otp E code found b)
  checked_otp-Gives code accepted none a b nobody held key e =
      absurd (no_row n (user_rows E a) key nobody)
  checked_otp-Gives code accepted (some u) a b (same, among) held key e =
      rw (Among-All _ u (user_rows E a) among held same) (
        Ends-bind _ _ b (verify_otp-Gives code (some secret) accepted b e)
          (λ r c h. Ends-pure _ c (ap (otp_reply E) h.0)))

  verify_two_fa_code-Gives :
      (code : Option String) (accepted : Bool) (user : Authenticated) (a : Accounts E)
      → user.user_id ≡ some n
      → All (HoldsSecret secret n) (user_rows E a)
      → Among n (ids (user_rows E a))
      → E.verify code (some secret) (E.clock a.ticks) ≡ some accepted
      → Gives (λ reply _. reply ≡ otp_reply E accepted) (verify_two_fa_code E code user a)
  unfolding verify_two_fa_code
  verify_two_fa_code-Gives code accepted user a named held key e = rw named (
      Ends-bind _ _ a (find_one-Gives E L R _ a)
        (λ found b h. checked_otp-Gives code accepted found a b h.1 held key (rw h.0.1 e)))

  -- With a lawful table that rejects no call, a user of the table whose code otplib accepts for a secret
  -- turns the second factor on. From then on, after any requests that do not turn the second factor of this
  -- user on again, a code is accepted just if otplib accepts it for that secret at that time.
  pub turn_on-verify_two_fa_code :
      (otp code : Option String) (accepted : Bool) (user : Authenticated) (a : Accounts E)
      (rs : List Request)
      → user.user_id ≡ some n
      → Among n (ids (user_rows E a))
      → E.verify otp (some secret) (E.clock a.ticks) ≡ some true
      → All (LeavesSecret n) rs
      → let b : Accounts E = serve_all E rs (turn_on E (some secret) otp user a).1 in
        E.verify code (some secret) (E.clock b.ticks) ≡ some accepted
        → ((reply : Reply) × ((turn_on E (some secret) otp user a).0 ≡ ok reply)
            × (reply.success ≡ true))
          × ((verify_two_fa_code E code user b).0 ≡ ok (otp_reply E accepted))
  turn_on-verify_two_fa_code otp code accepted user a rs named key e leaves f =
      let b : Accounts E = (turn_on E (some secret) otp user a).1 in
      let (reply, done, (success, held, same)) = Gives-ok _ (turn_on-Gives otp user a named e) in
      let (holds, there) =
        serve_all-Holds E L secret n rs b leaves (held, subst (Among n) (sym same) key) in
      let (answer, g, is) =
        Gives-ok _
          (verify_two_fa_code-Gives code accepted user (serve_all E rs b) named holds there f) in
      ((reply, done, success), g ∙ ap (λ (r : Reply). ok r) is)
