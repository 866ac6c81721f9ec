-- ===== src/Custody/Balances.antt =====
-- Wallets, withdrawals and balances under the methods of src/database/database.service.ts.
use mathlib.Core.List.{head?}
use exchange_backend.Base.{
  is_text, ℕ, suc, ◌+◌, ◌≡◌, refl, ap, subst, ◌∙◌, inl, inr, String, Bool, true, false, Option,
  none, some, Option-cases, List, [], ◌∷◌, ◌++◌, map, ltb, str_eq, if◌then◌else◌,
}
use exchange_backend.Base.Lists.{All, All-map, map-All, length}
use exchange_backend.Base.Action.{Exception, ok, err, ◌>>=◌}
use exchange_backend.Base.Keeping.{Keeps, Keeps-bind}
use exchange_backend.Repository.{FindOptions, IsReliable}
use exchange_backend.Repository.Laws.{nothing-found}
use exchange_backend.Custody.Entity.{
  Coin, pending, approved, YesNo, no, Withdrawal, TokenAddressBalance,
}
use exchange_backend.Custody.World.{
  CustodyEnv, IsLawfulCustody, Vault, withdrawal_rows, balance_rows, withdrawal_keyed,
}
use exchange_backend.Custody.Frames.{found_or_null-true}
use exchange_backend.Custody.Database.{
  six_hours, is_pending_withdrawal, adjust, change_balances, save_token_address_balance,
  save_withdrawal, new_withdrawal, update_withdrawal_status, take_back, decrement_balance,
}

length-map : {A B : Type 0} (f : A → B) (xs : List A) → length (map f xs) ≡ length xs
length-map f [] = refl
length-map f (x ∷ xs) = ap suc (length-map f xs)

module _ (E : CustodyEnv) (L : IsLawfulCustody E) where
  change_balances-length :
      (todo : String) (amount : Option ℕ) (condition : TokenAddressBalance → Bool) (v : Vault E)
      → length (balance_rows E (change_balances E todo amount condition v).1)
        ≡ length (balance_rows E v)
  change_balances-length todo none condition v = refl
  change_balances-length todo (some amount) condition v =
      ap length (L.balances_lawful.rows-update condition (adjust todo amount) v.balances)
      ∙ written (E.balances.update condition (adjust todo amount) v.balances).0
    where
      written :
          (r : Option (Unit {0}))
          → length (elim r [
            | none ↦ balance_rows E v
            | some _ ↦ map (λ b. if condition b then adjust todo amount b else b) (balance_rows E v)
          ])
            ≡ length (balance_rows E v)
      written none = refl
      written (some u) = length-map _ (balance_rows E v)

  save_token_address_balance-Keeps-length :
      (address : String) (coin : Coin) (network : Option String) (amount : Option ℕ) (todo : String)
      → Keeps
          (λ v. length (balance_rows E v))
          (save_token_address_balance E address coin network amount todo)
  unfolding save_token_address_balance
  save_token_address_balance-Keeps-length address coin network amount todo =
      Keeps-bind _ (record { keeps = λ v. ap length (L.balances_lawful.rows-find _ v.balances) })
        (λ found.
          rw (found_or_null-true E (head? found))
            (record { keeps = change_balances-length todo amount _ }))

  -- Over lawful repositories, `saveTokenAddressBalance` never adds a row to the balances of the
  -- exchange's addresses, and removes none.
  pub save_token_address_balance-no_insert :
      (address : String) (coin : Coin) (network : Option String) (amount : Option ℕ) (todo : String)
      (v : Vault E)
      → length (balance_rows E (save_token_address_balance E address coin network amount todo v).1)
        ≡ length (balance_rows E v)
  save_token_address_balance-no_insert address coin network amount todo =
      (save_token_address_balance-Keeps-length address coin network amount todo).keeps

  withdrawal-pending :
      (time created : ℕ) (r w : Withdrawal)
      → r ≡ withdrawal_keyed r.id created w
      → str_eq w.network "Bitcoin" ≡ false
      → w.status ≡ pending
      → w.deleted ≡ no
      → w.pay_by_admin ≡ no
      → ltb time (r.created_at + six_hours) ≡ true
      → is_pending_withdrawal time r ≡ true
  withdrawal-pending time created r w e n s d p t =
      rw t rw (ap (λ (x : Withdrawal). x.network) e) rw n rw (ap (λ (x : Withdrawal). x.status) e)
        rw s rw (ap (λ (x : Withdrawal). x.deleted) e) rw d rw
        (ap (λ (x : Withdrawal). x.pay_by_admin) e) rw p refl

  -- Over lawful repositories, if the database rejects no write to the withdrawals, saving a pending
  -- withdrawal on a network that is not Bitcoin adds one row, and the cron job runs afterwards. For six
  -- hours the row meets the condition of the withdrawals that go to the queue, whether or not the
  -- administrator is to pay it.
  pub save_withdrawal-dispatched :
      IsReliable E.withdrawals
      → (user_id : ℕ) (from_address : Option String) (to_address : String) (coin : Coin)
        (network : String) (with_amount : ℕ) (transaction_hash : Option String)
        (pay_with_admin : YesNo) (v : Vault E)
      → str_eq network "Bitcoin" ≡ false
      → let after : Vault E =
          (save_withdrawal E user_id from_address to_address coin network with_amount
            transaction_hash pending pay_with_admin v).1 in
        (r : Withdrawal) × (withdrawal_rows E after ≡ withdrawal_rows E v ++ (r ∷ []))
        × (after.withdrawal_cron ≡ true)
        × ((time : ℕ)
            → ltb time (r.created_at + six_hours) ≡ true
            → is_pending_withdrawal time r ≡ true)
  unfolding save_withdrawal ◌>>=◌
  save_withdrawal-dispatched R user_id from_address to_address coin network with_amount hash pay v
        n =
      let w : Withdrawal =
        new_withdrawal E user_id from_address to_address coin network with_amount hash pending in
      let (r, saved) = R.saves w v.withdrawals in
      let ((created, e), fresh) = L.withdrawals_lawful.save-some w r v.withdrawals refl saved in
      (
        r,
        rw saved rw n (
            L.withdrawals_lawful.rows-save w v.withdrawals
            ∙ ap
                (λ (o : Option Withdrawal). elim o [
                  | none ↦ withdrawal_rows E v
                  | some x ↦ withdrawal_rows E v ++ (x ∷ [])
                ])
                saved),
        rw saved rw n refl,
        λ time t. withdrawal-pending time created r w e n refl refl refl t,
      )

  err-ok : {e : Exception} {a : Unit {0}} → err e ≡ ok a → ⊥
  err-ok h = cc

  abbrev NoRow : String → List Withdrawal → Type 0
  NoRow hash = All (λ w. is_text w.transaction_hash hash ≡ false)

  same_hash :
      (hash : String) (b : Bool) (w : Withdrawal)
      → is_text (if b then record w { status = approved } else w).transaction_hash hash ≡ false
      → is_text w.transaction_hash hash ≡ false
  same_hash hash true w h = h
  same_hash hash false w h = h

  head-ok :
      (v : Vault E) (found : List Withdrawal)
      → (decrement_balance E (head? found) v).0 ≡ ok tt
      → found ≡ []
  head-ok v [] h = refl
  head-ok v (w ∷ ws) h = cc

  take_back-ok :
      (hash : String) (v : Vault E)
      → (take_back E hash v).0 ≡ ok tt
      → NoRow hash (withdrawal_rows E v)
  unfolding take_back ◌>>=◌
  take_back-ok hash v h =
      let options : FindOptions Withdrawal = record {
        condition = λ w. is_text w.transaction_hash hash;
        order = [];
        limit = some 1;
      } in
      elim (Option-cases (E.withdrawals.find options v.withdrawals).0) [
        | inl e ↦ absurd (err-ok (rw e at h))
        | inr (found, e) ↦
            nothing-found L.withdrawals_lawful options v.withdrawals e 0 refl
              (head-ok _ found (rw e at h))
      ]

  -- Over lawful repositories whose calls may be rejected, `updateWtihdrawalStatus` never succeeds in
  -- approving a hash that some withdrawal has.
  pub update_withdrawal_status-throws :
      (hash : String) (v : Vault E)
      → ¬ All (λ w. is_text w.transaction_hash hash ≡ false) (withdrawal_rows E v)
      → ¬ ((update_withdrawal_status E hash approved v).0 ≡ ok tt)
  unfolding update_withdrawal_status ◌>>=◌ take_back
  update_withdrawal_status-throws hash v some_row success =
      let write : Withdrawal → Withdrawal = λ w. record w { status = approved } in
      let condition : Withdrawal → Bool = λ w. is_text w.transaction_hash hash in
      elim (Option-cases (E.withdrawals.update condition write v.withdrawals).0) [
        | inl e ↦ err-ok (rw e at success)
        | inr (u, e) ↦ some_row (
            All-map _ _ (λ w. same_hash hash (condition w) w) (withdrawal_rows E v)
              (map-All _ _ (withdrawal_rows E v) (
                subst (NoRow hash)
                  (L.withdrawals_lawful.rows-update condition write v.withdrawals
                    ∙ ap
                        (λ (o : Option (Unit {0})). elim o [
                          | none ↦ withdrawal_rows E v
                          | some _ ↦
                              map (λ w. if condition w then write w else w) (withdrawal_rows E v)
                        ])
                        e)
                  (take_back-ok hash _ (rw e at success)))))
      ]
