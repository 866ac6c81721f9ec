-- ===== src/Custody/Frames.antt =====
-- The deposits of the queue change no wallet: each step of src/web3/deposit.consumer.ts leaves them.
use mathlib.Core.List.{head?}
use exchange_backend.Base.{
  ℕ, zero, suc, String, ◌≡◌, refl, ◌∙◌, Bool, true, false, Option, none, some, List, [], ◌∷◌, map,
  leb, if◌then◌else◌,
}
use exchange_backend.Base.Action.{Exception, Action, pure, ◌>>=◌}
use exchange_backend.Base.Keeping.{Keeps, Keeps-bind, Keeps-catch}
use exchange_backend.Custody.Entity.{
  Wallet, Coin, TokenAddressBalance, Status, pending, approved, rejected, reverted, Deposit,
  DepositJob, Column, column_of, select_deposit,
}
use exchange_backend.Custody.World.{CustodyEnv, Vault}
use exchange_backend.Custody.Database.{
  DepositUpdate, deleted, save_error, update_deposit_by_id, update_withdrawal_by_id, update_wallet,
  change_wallets, save_token_address_balance, change_balances, found_or_null,
}
use exchange_backend.Base.Int.{ℤ, sub_amount}
use exchange_backend.Custody.Consumers.{
  FoundTransaction, nothing, confirmation_count, transaction, rounded_hours, credit_deposit,
  update_deposit_with_status, expire_deposit, handle_deposit, process_deposit,
}

module _ (E : CustodyEnv) where
  abbrev pub wallets_of : Vault E → E.wallets.State
  wallets_of v = v.wallets

  -- What does not reach the wallets leaves them, by computation.
  apart :
      {A : Type 0} (m : Action (Vault E) A)
      → ((v : Vault E) → (m v).1.wallets ≡ v.wallets)
      → Keeps wallets_of m
  apart m h = record { keeps = h }

  change_wallets-Keeps :
      (change : ℤ → ℕ → ℤ) (column : Option Column) (condition : Wallet → Bool)
      → Keeps wallets_of (change_wallets E change column none condition)
  change_wallets-Keeps change none condition = apart _ (λ v. refl)
  change_wallets-Keeps change (some c) condition = apart _ (λ v. refl)

  update_wallet-Keeps :
      (d : DepositJob)
      → d.amount ≡ none
      → Keeps wallets_of (update_wallet E d.user_id d.amount d.to_address d.coin d.network "inc")
  unfolding update_wallet
  update_wallet-Keeps d h = rw h (change_wallets-Keeps sub_amount (column_of d.coin) _)

  change_balances-Keeps :
      (todo : String) (amount : Option ℕ) (condition : TokenAddressBalance → Bool)
      → Keeps wallets_of (change_balances E todo amount condition)
  change_balances-Keeps todo none condition = apart _ (λ v. refl)
  change_balances-Keeps todo (some a) condition = apart _ (λ v. refl)

  pub found_or_null-true : (o : Option TokenAddressBalance) → found_or_null E o ≡ true
  found_or_null-true none = refl
  found_or_null-true (some b) = refl

  pub save_token_address_balance-Keeps :
      (address : String) (coin : Coin) (network : Option String) (amount : Option ℕ) (todo : String)
      → Keeps wallets_of (save_token_address_balance E address coin network amount todo)
  unfolding save_token_address_balance
  save_token_address_balance-Keeps address coin network amount todo =
      Keeps-bind wallets_of (apart _ (λ v. refl))
        (λ found. rw (found_or_null-true (head? found)) (change_balances-Keeps todo amount _))

  credit_deposit-Keeps :
      (d : DepositJob) (status : Status)
      → d.amount ≡ none
      → Keeps wallets_of (credit_deposit E d status)
  credit_deposit-Keeps d pending h = apart _ (λ v. refl)
  credit_deposit-Keeps d rejected h = apart _ (λ v. refl)
  credit_deposit-Keeps d reverted h = apart _ (λ v. refl)
  credit_deposit-Keeps d approved h =
      Keeps-bind wallets_of (update_wallet-Keeps d h)
        (λ _. save_token_address_balance-Keeps _ _ _ _ _)

  update_deposit_by_id-Keeps :
      (id : ℕ) (u : DepositUpdate) → Keeps wallets_of (update_deposit_by_id E id u)
  unfolding update_deposit_by_id
  update_deposit_by_id-Keeps id u = apart _ (λ v. refl)

  expire_deposit-Keeps : (d : DepositJob) → Keeps wallets_of (expire_deposit E d)
  unfolding expire_deposit
  expire_deposit-Keeps d =
      Keeps-bind wallets_of (apart _ (λ v. refl))
        (λ time. expiry (leb 6 (rounded_hours time d.created_at)))
    where
      expiry :
          (b : Bool) → Keeps wallets_of (if b then update_deposit_by_id E d.id deleted else pure tt)
      expiry true = update_deposit_by_id-Keeps d.id deleted
      expiry false = apart _ (λ v. refl)

  handle_deposit-Keeps :
      (d : DepositJob) (found : FoundTransaction)
      → d.amount ≡ none
      → Keeps wallets_of (handle_deposit E d found)
  unfolding handle_deposit update_deposit_with_status update_withdrawal_by_id
  handle_deposit-Keeps d nothing h = expire_deposit-Keeps d
  handle_deposit-Keeps d (confirmation_count zero) h = expire_deposit-Keeps d
  handle_deposit-Keeps d (confirmation_count (suc n)) h =
      Keeps-bind wallets_of (apart _ (λ v. refl))
        (λ time. Keeps-bind wallets_of (apart _ (λ v. refl)) (λ date. apart _ (λ v. refl)))
  handle_deposit-Keeps d (transaction t) h = Keeps-bind wallets_of (apart _ (λ v. refl)) (λ time.
      Keeps-bind wallets_of (apart _ (λ v. refl)) (λ date.
        Keeps-bind wallets_of (update_deposit_by_id-Keeps d.id _)
          (λ _. credit_deposit-Keeps d _ h)))

  save_error-Keeps : (e : Exception) (origin : String) → Keeps wallets_of (save_error E e origin)
  unfolding save_error
  save_error-Keeps e origin = Keeps-bind wallets_of (apart _ (λ v. refl)) (λ _. apart _ (λ v. refl))

  -- Whatever the chain and the database answer, processing deposits in the form in which the queue
  -- selects them changes no wallet.
  pub process_deposit-no_credit :
      (find : DepositJob → FoundTransaction) (deposits : List Deposit) (v : Vault E)
      → (process_deposit E find (map select_deposit deposits) v).1.wallets ≡ v.wallets
  unfolding process_deposit ◌>>=◌
  process_deposit-no_credit find [] v = refl
  process_deposit-no_credit find (d ∷ ds) v =
      process_deposit-no_credit find ds _
      ∙ (Keeps-catch wallets_of
            (handle_deposit-Keeps (select_deposit d) (find (select_deposit d)) refl)
            (λ e. save_error-Keeps e "Looping throug despit in deposit consumer file")).keeps
          v
