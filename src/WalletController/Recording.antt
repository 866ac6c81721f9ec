-- ===== src/WalletController/Recording.antt =====
-- What the request `withdrawal` of src/wallet/wallet.controller.ts leaves in the table of withdrawals.
use exchange_backend.Base.{
  ℕ, String, ◌≡◌, refl, sym, ap, ◌∙◌, subst, Bool, true, false, Option, none, some, List, [], ◌∷◌,
  ◌++◌, str_eq, if◌then◌else◌,
}
use exchange_backend.Base.Action.{Action, pure, ignore, Ends-pure, ◌>>=◌}
use exchange_backend.Base.Following.{Follows}
use exchange_backend.Repository.{IsReliable}
use exchange_backend.Custody.Entity.{Status, YesNo, Withdrawal}
use exchange_backend.Custody.World.{IsLawfulCustody, Vault, withdrawal_rows, withdrawal_keyed}
use exchange_backend.Custody.Database.{save_withdrawal, new_withdrawal}
use exchange_backend.WalletController.World.{WalletEnv, Desk, text_of, on_vault}
use exchange_backend.WalletController.Transfers.{Response}
use exchange_backend.WalletController.Requests.{WithdrawalDto}

module _ (W : WalletEnv) where
  abbrev pub rows_of : Desk W → List Withdrawal
  rows_of d = withdrawal_rows W.custody d.vault

  -- The row says what was asked, and names the transaction that the reply names.
  abbrev pub Matches : WithdrawalDto → Response → Withdrawal → Type 0
  Matches dto reply w =
      (w.user_id ≡ dto.user_id)
      × (w.to_address ≡ dto.to_address)
      × (w.coin ≡ dto.coin)
      × (w.network ≡ dto.network)
      × (w.with_amount ≡ W.sql_number (text_of dto.amount))
      × (w.transaction_hash ≡ reply.hash)

  abbrev pub Recorded : WithdrawalDto → List Withdrawal → Response → Bool → List Withdrawal → Type 0
  Recorded dto rows reply false later = later ≡ rows
  Recorded dto rows reply true later =
      (w : Withdrawal) × Matches dto reply w × (later ≡ rows ++ (w ∷ []))

  module _ (dto : WithdrawalDto) (rows : List Withdrawal) where
    abbrev pub Replied : Response → List Withdrawal → Type 0
    Replied reply later = Recorded dto rows reply reply.success later

    -- A successful reply has its row, and without one there is no row.
    abbrev pub Records : Action (Desk W) Response → Type 0
    Records = Follows rows_of rows Replied

  pub Recorded-success :
      (dto : WithdrawalDto) (rows later : List Withdrawal) (reply : Response) (b : Bool)
      → reply.success ≡ b
      → Recorded dto rows reply b later
      → Recorded dto rows reply reply.success later
  Recorded-success dto rows later reply b e h =
      subst (λ c. Recorded dto rows reply c later) (sym e) h

module _ (W : WalletEnv) (L : IsLawfulCustody W.custody) (R : IsReliable W.custody.withdrawals)
    (dto : WithdrawalDto) where
  -- `saveWithdrawal` adds one row.
  saved_row :
      (from_address : Option String) (hash : Option String) (status : Status) (by_admin : YesNo)
      (v : Vault W.custody)
      → (w : Withdrawal) × (id time : ℕ) × (w
          ≡ withdrawal_keyed id time (
              new_withdrawal W.custody dto.user_id from_address dto.to_address dto.coin dto.network
                (W.sql_number (text_of dto.amount))
                hash
                status))
        × (withdrawal_rows W.custody
              (save_withdrawal W.custody dto.user_id from_address dto.to_address dto.coin
                dto.network
                (W.sql_number (text_of dto.amount))
                hash
                status
                by_admin
                v).1
            ≡ withdrawal_rows W.custody v ++ (w ∷ []))
  unfolding save_withdrawal ◌>>=◌
  saved_row from_address hash status by_admin v =
      let w : Withdrawal =
        new_withdrawal W.custody dto.user_id from_address dto.to_address dto.coin dto.network
          (W.sql_number (text_of dto.amount)) hash status in
      let (r, saved) = R.saves w v.withdrawals in
      let ((created, e), fresh) = L.withdrawals_lawful.save-some w r v.withdrawals refl saved in
      (
        r,
        r.id,
        created,
        e,
        rw saved (ap rows_after (flag (str_eq dto.network "Bitcoin") _) ∙ added w r saved),
      )
    where
      rows_after : W.custody.withdrawals.State → List Withdrawal
      rows_after s = W.custody.withdrawals.rows s

      flag :
          (b : Bool) (u : Vault W.custody)
          → (if b then u else record u { withdrawal_cron = true }).withdrawals ≡ u.withdrawals
      flag true u = refl
      flag false u = refl

      added :
          (w r : Withdrawal)
          → (W.custody.withdrawals.save w v.withdrawals).0 ≡ some r
          → W.custody.withdrawals.rows (W.custody.withdrawals.save w v.withdrawals).1
            ≡ W.custody.withdrawals.rows v.withdrawals ++ (r ∷ [])
      added w r saved =
          L.withdrawals_lawful.rows-save w v.withdrawals
          ∙ ap
              (λ (o : Option Withdrawal). elim o [
                | none ↦ W.custody.withdrawals.rows v.withdrawals
                | some x ↦ W.custody.withdrawals.rows v.withdrawals ++ (x ∷ [])
              ])
              saved

  pub saved-Records :
      (from_address : Option String) (hash : Option String) (status : Status) (by_admin : YesNo)
      (reply : Response)
      → reply.success ≡ true
      → reply.hash ≡ hash
      → (rows : List Withdrawal)
      → Records W dto rows (
          ignore (
            on_vault W (
              save_withdrawal W.custody dto.user_id from_address dto.to_address dto.coin dto.network
                (W.sql_number (text_of dto.amount))
                hash
                status
                by_admin))
          >>= λ _. pure reply)
  unfolding ◌>>=◌
  saved-Records from_address hash status by_admin reply success same rows = record {
    follows = λ d h.
        let (w, id, time, e, added) = saved_row from_address hash status by_admin d.vault in
        Ends-pure reply _ (
          Recorded-success W dto rows _ reply true success
            (w, matching w id time e, added ∙ ap (λ xs. xs ++ (w ∷ [])) h));
  }
    where
      matching :
          (w : Withdrawal) (id time : ℕ)
          → w
            ≡ withdrawal_keyed id time (
                new_withdrawal W.custody dto.user_id from_address dto.to_address dto.coin
                  dto.network
                  (W.sql_number (text_of dto.amount))
                  hash
                  status)
          → Matches W dto reply w
      matching w id time e = rw e (refl, refl, refl, refl, refl, sym same)
