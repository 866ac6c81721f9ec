-- ===== src/Custody/World.antt =====
-- The tables of custody, the two cron jobs, and the parameters that stand for what is not in this code.
use exchange_backend.Base.{ℕ, ◌+◌, Bool, Option, List}
use exchange_backend.Base.Action.{Action, ok, attempt}
use exchange_backend.Repository.{Repository, IsLawful}
use exchange_backend.Custody.Entity.{
  Wallet, Withdrawal, Deposit, TokenAddressBalance, ErrorSave, WithdrawalJob, DepositJob,
}

-- `clock n` is what the n-th reading of the time gives, and `queued n` is whether Bull takes a job at
-- that moment.
pub record CustodyEnv : Type 1 where
  pub wallets : Repository Wallet
  pub withdrawals : Repository Withdrawal
  pub deposits : Repository Deposit
  pub balances : Repository TokenAddressBalance
  pub errors : Repository ErrorSave
  pub clock : ℕ → ℕ
  pub queued : ℕ → Bool

abbrev pub wallet_key : Wallet → ℕ
wallet_key w = w.id

abbrev pub wallet_keyed : ℕ → ℕ → Wallet → Wallet
wallet_keyed n time w = record w { id = n; created_at = time }

abbrev pub withdrawal_key : Withdrawal → ℕ
withdrawal_key w = w.id

abbrev pub withdrawal_keyed : ℕ → ℕ → Withdrawal → Withdrawal
withdrawal_keyed n time w = record w { id = n; created_at = time }

abbrev pub deposit_key : Deposit → ℕ
deposit_key d = d.id

abbrev pub deposit_keyed : ℕ → ℕ → Deposit → Deposit
deposit_keyed n time d = record d { id = n; created_at = time }

abbrev pub balance_key : TokenAddressBalance → ℕ
balance_key b = b.id

abbrev pub balance_keyed : ℕ → ℕ → TokenAddressBalance → TokenAddressBalance
balance_keyed n time b = record b { id = n }

pub record IsLawfulCustody (E : CustodyEnv) : Type 0 where
  pub wallets_lawful : IsLawful wallet_key wallet_keyed E.wallets
  pub withdrawals_lawful : IsLawful withdrawal_key withdrawal_keyed E.withdrawals
  pub deposits_lawful : IsLawful deposit_key deposit_keyed E.deposits
  pub balances_lawful : IsLawful balance_key balance_keyed E.balances

pub record Vault (E : CustodyEnv) : Type 0 where
  pub wallets : E.wallets.State
  pub withdrawals : E.withdrawals.State
  pub deposits : E.deposits.State
  pub balances : E.balances.State
  pub errors : E.errors.State
  pub ticks : ℕ
  -- Whether `withdrawal_cron` and `deposit_cron` are running.
  pub withdrawal_cron : Bool
  pub deposit_cron : Bool
  -- Whether the fields `withdrawal_job` and `deposit_job` of the queue service hold a job.
  pub withdrawal_job : Bool
  pub deposit_job : Bool
  pub withdrawal_queue : List (List WithdrawalJob)
  pub deposit_queue : List (List DepositJob)

module _ (E : CustodyEnv) where
  abbrev pub wallet_rows : Vault E → List Wallet
  wallet_rows v = E.wallets.rows v.wallets

  abbrev pub withdrawal_rows : Vault E → List Withdrawal
  withdrawal_rows v = E.withdrawals.rows v.withdrawals

  abbrev pub deposit_rows : Vault E → List Deposit
  deposit_rows v = E.deposits.rows v.deposits

  abbrev pub balance_rows : Vault E → List TokenAddressBalance
  balance_rows v = E.balances.rows v.balances

  module _ {A : Type 0} where
    abbrev pub on_wallets : (E.wallets.State → Option A × E.wallets.State) → Action (Vault E) A
    on_wallets call v = let (r, s) = call v.wallets in (attempt r, record v { wallets = s })

    abbrev pub on_withdrawals :
        (E.withdrawals.State → Option A × E.withdrawals.State) → Action (Vault E) A
    on_withdrawals call v =
        let (r, s) = call v.withdrawals in (attempt r, record v { withdrawals = s })

    abbrev pub on_deposits : (E.deposits.State → Option A × E.deposits.State) → Action (Vault E) A
    on_deposits call v = let (r, s) = call v.deposits in (attempt r, record v { deposits = s })

    abbrev pub on_balances : (E.balances.State → Option A × E.balances.State) → Action (Vault E) A
    on_balances call v = let (r, s) = call v.balances in (attempt r, record v { balances = s })

    abbrev pub on_errors : (E.errors.State → Option A × E.errors.State) → Action (Vault E) A
    on_errors call v = let (r, s) = call v.errors in (attempt r, record v { errors = s })

  abbrev pub now : Action (Vault E) ℕ
  now v = (ok (E.clock v.ticks), record v { ticks = v.ticks + 1 })
