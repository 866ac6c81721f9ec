-- ===== src/Accounts/Emails.antt =====
-- Registering a user and changing an email address keep the email addresses and uuids distinct.
use exchange_backend.Base.{
  ℕ, ◌+◌, ◌≤◌, ◌<◌, arith, String, ◌≡◌, ◌≢◌, refl, sym, ap, subst, ◌∙◌, inl, inr, Bool, true, false,
  ◌&&◌, Option, none, some, Option-cases, List, [], ◌∷◌, ◌++◌, map, if◌then◌else◌, str_eq, eq_iff,
  is_given_text,
}
use exchange_backend.Base.Lists.{All, All-map, All-append}
use exchange_backend.Base.Distinct.{
  Distinct, Distinct-snoc, update-column, rename-Distinct, Ordered-column, update-All,
}
use exchange_backend.Base.Action.{
  Ends-bind, Ends-mono, Ends-state, Ends-always, Ends-pure, pure, ◌>>=◌,
}
use exchange_backend.Accounts.Entity.{User, SignUpDto, Authenticated, fits}
use exchange_backend.Accounts.World.{AccountsEnv, Accounts, user_rows, IsLawfulUsers, on_users}
use exchange_backend.Accounts.Database.{save_user, update_user}
use exchange_backend.Accounts.Controller.{
  register, registration, by_email, change_email, free_email, write_email,
}
use exchange_backend.Accounts.Lookups.{Unread, Looked, find_one-Ends}
use exchange_backend.Accounts.Invariant.{IsWellFormed, IsUnique, Preserves, Unread-IsWellFormed}
use exchange_backend.Accounts.Requests.{}

and_true-false : (b : Bool) → (b && true) ≡ false → b ≡ false
and_true-false true e = cc
and_true-false false e = refl

pub and_true-eq : (b : Bool) → (b && true) ≡ true → b ≡ true
and_true-eq true e = refl
and_true-eq false e = e

pub different : (s t : String) → str_eq s t ≡ false → s ≢ t
different s t e p = true-false ((eq_iff s t).1 p) e
  where
    true-false : {b : Bool} → b ≡ true → b ≡ false → ⊥
    true-false p q = cc

-- No user has the email address.
abbrev IsNew : String → List User → Type 0
IsNew email = All (λ u. u.email ≢ email)

no_email :
    (email : String) (rows : List User)
    → All (λ u. fits (by_email (some email)) u ≡ false) rows
    → IsNew email rows
no_email email rows = All-map _ _ (λ u e. different u.email email (and_true-false _ e)) rows

module _ (E : AccountsEnv) (L : IsLawfulUsers E) (unique : IsUnique E) where
  save-IsWellFormed :
      (u : User) (n : ℕ) (a : Accounts E)
      → IsWellFormed E a
      → IsNew u.email (user_rows E a)
      → u.id ≡ 0
      → u.uuid ≡ E.uuidv4 n
      → n < a.ticks
      → All (λ x. x.uuid ≢ E.uuidv4 n) (user_rows E a)
      → IsWellFormed E (on_users E (E.users.save u) a).1
  save-IsWellFormed u n a w new unsaved named past fresh =
      elim (Option-cases (E.users.save u a.users).0) [
        | inl e ↦ Unread-IsWellFormed (L.rows-save u a.users ∙ ap rows_after e) (omega arith) w
        | inr (u', e) ↦
            let ((time, same), key) = L.save-some u u' a.users unsaved e in
            let email : u'.email ≡ u.email = ap (λ (x : User). x.email) same in
            let uuid : u'.uuid ≡ E.uuidv4 n = ap (λ (x : User). x.uuid) same ∙ named in
            saved u' email uuid (L.rows-save u a.users ∙ ap rows_after e)
      ]
    where
      rows_after : Option User → List User
      rows_after r = elim r [ none ↦ user_rows E a | some u' ↦ user_rows E a ++ (u' ∷ []) ]

      saved :
          (u' : User)
          → u'.email ≡ u.email
          → u'.uuid ≡ E.uuidv4 n
          → E.users.rows (E.users.save u a.users).1 ≡ user_rows E a ++ (u' ∷ [])
          → IsWellFormed E (on_users E (E.users.save u) a).1
      saved u' email uuid e = record {
        emails =
            subst (λ rows. Distinct (map (λ x. x.email) rows)) (sym e)
              (Distinct-snoc (λ x. x.email) (user_rows E a) u' w.emails
                (subst (λ t. All (λ x. x.email ≢ t) (user_rows E a)) (sym email) new));
        uuids =
            subst (λ rows. Distinct (map (λ x. x.uuid) rows)) (sym e)
              (Distinct-snoc (λ x. x.uuid) (user_rows E a) u' w.uuids
                (subst (λ t. All (λ x. x.uuid ≢ t) (user_rows E a)) (sym uuid) fresh));
        fresh = λ m h. subst (All (λ x. x.uuid ≢ E.uuidv4 m)) (sym e) (
            All-append _ (user_rows E a) (u' ∷ []) (w.fresh m h)
              ((λ p. later m (unique n m (sym uuid ∙ p)) h), tt));
      }
        where
          later : (m : ℕ) → n ≡ m → a.ticks ≤ m → ⊥
          later m p h = omega arith

  save_user-IsWellFormed :
      (dto : SignUpDto) (a : Accounts E)
      → IsWellFormed E a
      → IsNew dto.email (user_rows E a)
      → IsWellFormed E (save_user E dto a).1
  unfolding save_user ◌>>=◌
  save_user-IsWellFormed dto a w new =
      save-IsWellFormed _ (a.ticks + 1) _ (Unread-IsWellFormed {a = a} refl (omega arith) w) new
        refl refl (omega arith) (w.fresh (a.ticks + 1) (omega arith))

  registration-Ends :
      (dto : SignUpDto) (found phone : Option User) (a : Accounts E)
      → IsWellFormed E a
      → Looked (fits (by_email (some dto.email))) (user_rows E a) found
      → IsWellFormed E (registration E dto found phone a).1
  registration-Ends dto (some u) phone a w l = w
  registration-Ends dto none (some p) a w l = w
  registration-Ends dto none none a w l = Ends-state (IsWellFormed E) _ (
      Ends-bind (save_user E dto) (λ _. pure _) a
        (Ends-always (IsWellFormed E) _ (save_user-IsWellFormed dto a w (no_email dto.email _ l)))
        (λ _ t h. Ends-pure _ t h))

  Unread-trans : {a b c : Accounts E} → Unread a b → Unread b c → Unread a c
  Unread-trans p q = (q.0 ∙ p.0, q.1 ∙ p.1)

  Unread-keeps : {a b : Accounts E} → Unread a b → IsWellFormed E a → IsWellFormed E b
  Unread-keeps u w = Unread-IsWellFormed u.0 (omega (arith, u.1)) w

  pub register-Preserves : (dto : SignUpDto) → Preserves E (register E dto)
  unfolding register
  register-Preserves dto = record {
    preserves = λ a w. Ends-state (IsWellFormed E) _ (
        Ends-bind _ _ a
          (Ends-mono (λ t u. Unread-keeps {a = a} {b = t} u w) (λ _ t h. h) (find_one-Ends E L _ a))
          (λ found t h.
            Ends-bind _ _ t
              (Ends-mono
                (λ t' u.
                  Unread-keeps {a = a} {b = t'} (Unread-trans {a = a} {b = t} {c = t'} h.0 u) w)
                (λ _ t' h'. h') (find_one-Ends E L _ t))
              (λ phone t' h'.
                let u : Unread a t' = Unread-trans {a = a} {b = t} {c = t'} h.0 h'.0 in
                Ends-always (IsWellFormed E) _ (
                  registration-Ends dto found phone t' (Unread-keeps {a = a} {b = t'} u w) (
                    subst (λ rows. Looked (fits (by_email (some dto.email))) rows found) (sym u.0)
                      h.1)))));
  }

  renamed-IsWellFormed :
      (email uuid : String) (a : Accounts E)
      → IsWellFormed E a
      → IsNew email (user_rows E a)
      → IsWellFormed E (write_email E (some email) (some uuid) a).1
  unfolding update_user
  renamed-IsWellFormed email uuid a w new =
      elim (Option-cases (E.users.update condition write a.users).0) [
        | inl e ↦
            Unread-IsWellFormed (L.rows-update condition write a.users ∙ ap rows_after e)
              (omega arith) w
        | inr (u, e) ↦ renamed (L.rows-update condition write a.users ∙ ap rows_after e)
      ]
    where
      condition : User → Bool
      condition u = is_given_text (some uuid) u.uuid

      write : User → User
      write u = record u { email = email }

      rows_after : Option (Unit {0}) → List User
      rows_after r = elim r [
        | none ↦ user_rows E a
        | some _ ↦ map (λ u. if condition u then write u else u) (user_rows E a)
      ]

      renamed :
          E.users.rows (E.users.update condition write a.users).1
            ≡ map (λ u. if condition u then write u else u) (user_rows E a)
          → IsWellFormed E (on_users E (E.users.update condition write) a).1
      renamed e = record {
        emails =
            subst (λ rows. Distinct (map (λ u. u.email) rows)) (sym e)
              (rename-Distinct (λ u. u.email) condition write email (λ u. refl) (user_rows E a)
                w.emails new
                (Ordered-column (λ u. u.uuid) condition uuid (λ u t. (eq_iff u.uuid uuid).0 t)
                  (user_rows E a) w.uuids));
        uuids =
            subst (λ rows. Distinct (map (λ u. u.uuid) rows)) (sym e)
              (subst Distinct
                (sym (update-column (λ u. u.uuid) condition write (λ u. refl) (user_rows E a)))
                w.uuids);
        fresh = λ n h. subst (All (λ u. u.uuid ≢ E.uuidv4 n)) (sym e) (
            update-All (λ u. u.uuid) condition write (λ u. refl) (λ t. t ≢ E.uuidv4 n)
              (user_rows E a) (w.fresh n h));
      }

  free_email-IsWellFormed :
      (email : Option String) (user : Authenticated) (uuid : String) (found : Option User)
      (a : Accounts E)
      → user.uuid ≡ some uuid
      → IsWellFormed E a
      → Looked (fits (by_email email)) (user_rows E a) found
      → IsWellFormed E (free_email E email user found a).1
  free_email-IsWellFormed email user uuid (some u) a e w l = w
  free_email-IsWellFormed none user uuid none a e w l = w
  free_email-IsWellFormed (some email) user uuid none a e w l =
      rw e (renamed-IsWellFormed email uuid a w (no_email email _ l))

  pub change_email-Preserves :
      (email : Option String) (user : Authenticated) (uuid : String)
      → user.uuid ≡ some uuid
      → Preserves E (change_email E email user)
  unfolding change_email
  change_email-Preserves email user uuid e = record {
    preserves = λ a w. Ends-state (IsWellFormed E) _ (
        Ends-bind _ _ a
          (Ends-mono (λ t u. Unread-keeps {a = a} {b = t} u w) (λ _ t h. h) (find_one-Ends E L _ a))
          (λ found t h.
            Ends-bind (free_email E email user found) (λ _. pure _) t
              (Ends-always (IsWellFormed E) _ (
                free_email-IsWellFormed email user uuid found t e
                  (Unread-keeps {a = a} {b = t} h.0 w)
                  (subst (λ rows. Looked (fits (by_email email)) rows found) (sym h.0.0) h.1)))
              (λ _ t' h'. Ends-pure _ t' h')));
  }
