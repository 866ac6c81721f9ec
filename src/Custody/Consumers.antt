-- ===== src/Custody/Consumers.antt =====
-- src/web3/deposit.consumer.ts and src/web3/withdrawal.consumer.ts. What the web3 service finds on the
-- chain is an argument. The entries of a job are processed one after the other.
use exchange_backend.Base.{
  ℕ, zero, suc, ◌+◌, ◌-◌, ◌/◌, String, none, some, List, [], ◌∷◌, leb, ◌==◌, if◌then◌else◌,
}
use exchange_backend.Base.Action.{ignore, Action, pure, catch, ◌>>=◌, ◌>>◌}
use exchange_backend.Custody.Entity.{Status, approved, reverted, WithdrawalJob, DepositJob}
use exchange_backend.Custody.World.{CustodyEnv, Vault, now}
use exchange_backend.Custody.Database.{
  counted, deleted, DepositSettlement, update_withdrawal_by_id, update_deposit_by_id, update_wallet,
  save_token_address_balance, save_error,
}
use exchange_backend.Custody.Database.WithdrawalUpdate.{settled as settled_withdrawal}
use exchange_backend.Custody.Database.DepositUpdate.{settled as settled_deposit}

-- The texts that the chain scanner gives for `txreceipt_status`: "", "0" and "1".
pub data TxReceiptStatus : Type 0 where
  empty_text text_0 text_1 : TxReceiptStatus

pub record ScannedTransaction : Type 0 where
  pub txreceipt_status : TxReceiptStatus
  pub confirmations : ℕ
  pub from : String
  pub hash : String
  pub gas_used : String
  pub block_hash : String

-- What `findTransactionForDeposit` gives: `null`, a count of confirmations, or a transaction.
pub data FoundTransaction : Type 0 where
  nothing : FoundTransaction
  confirmation_count : ℕ → FoundTransaction
  transaction : ScannedTransaction → FoundTransaction

-- A text counts as true unless it is empty.
abbrev pub deposit_status : TxReceiptStatus → Status
deposit_status empty_text = reverted
deposit_status text_0 = approved
deposit_status text_1 = approved

abbrev pub deposit_reason : TxReceiptStatus → String
deposit_reason text_1 = ""
deposit_reason _ = "Reverted transaction"

-- `Math.abs(Math.round(…))` of a difference of times in hours.
abbrev pub rounded_hours : ℕ → ℕ → ℕ
rounded_hours time created =
    if leb created time
    then (time - created + 1_800_000) / 3_600_000
    else (created - time + 1_799_999) / 3_600_000

-- A receipt of the chain: its status is 0 or 1.
pub record TransactionReceipt : Type 0 where
  pub status : ℕ
  pub confirmation_count : ℕ
  pub gas_used : String
  pub block_hash : String
  pub to : String
  pub from : String

pub data FoundReceipt : Type 0 where
  no_receipt : FoundReceipt
  receipt_count : ℕ → FoundReceipt
  receipt : TransactionReceipt → FoundReceipt

abbrev pub receipt_status : ℕ → Status
receipt_status zero = reverted
receipt_status (suc n) = approved

abbrev pub receipt_reason : ℕ → String
receipt_reason status = if status == 1 then "" else "Reverted transaction"

abbrev pub for_each : {S A : Type 0} → (A → Action S (Unit {0})) → List A → Action S (Unit {0})
for_each f [] = pure tt
for_each f (x ∷ xs) = ignore (f x) >> for_each f xs

module _ (E : CustodyEnv) where
  -- It writes to the withdrawals.
  abbrev pub update_deposit_confirmation_count : ℕ → ℕ → Action (Vault E) (Unit {0})
  update_deposit_confirmation_count id count = update_withdrawal_by_id E id (counted count)

  abbrev pub credit_deposit : DepositJob → Status → Action (Vault E) (Unit {0})
  credit_deposit deposit approved = do
    update_wallet E deposit.user_id deposit.amount deposit.to_address deposit.coin deposit.network
        "inc"
    save_token_address_balance E deposit.to_address deposit.coin deposit.network deposit.amount
        "Inc"
  credit_deposit deposit _ = pure tt

  unfoldable pub update_deposit_with_status :
      DepositJob → DepositSettlement → Action (Vault E) (Unit {0})
  update_deposit_with_status deposit u = do
    update_deposit_by_id E deposit.id (settled_deposit u)
    credit_deposit deposit u.status

  abbrev pub settlement_of : ScannedTransaction → ℕ → ℕ → DepositSettlement
  settlement_of t time date = record {
    status = deposit_status t.txreceipt_status;
    reason = deposit_reason t.txreceipt_status;
    confirmations = t.confirmations;
    from_address = t.from;
    transaction_hash = t.hash;
    response = record {
      gas_used = t.gas_used;
      block_hash = t.block_hash;
      to = none;
      from = none;
      time = time;
    };
    updated_at = date;
  }

  unfoldable pub expire_deposit : DepositJob → Action (Vault E) (Unit {0})
  expire_deposit v = do
    time ← now E
    if leb 6 (rounded_hours time v.created_at) then update_deposit_by_id E v.id deleted else pure tt

  -- The body of the loop once the chain has answered. A count of 0 is falsy.
  unfoldable pub handle_deposit : DepositJob → FoundTransaction → Action (Vault E) (Unit {0})
  handle_deposit v nothing = expire_deposit v
  handle_deposit v (confirmation_count zero) = expire_deposit v
  handle_deposit v (confirmation_count (suc n)) = do
    time ← now E
    date ← now E
    update_deposit_confirmation_count v.id (suc n)
  handle_deposit v (transaction t) = do
    time ← now E
    date ← now E
    update_deposit_with_status v (settlement_of t time date)

  unfoldable pub process_deposit :
      (DepositJob → FoundTransaction) → List DepositJob → Action (Vault E) (Unit {0})
  process_deposit find = for_each (λ v.
      catch (handle_deposit v (find v))
        (λ error. save_error E error "Looping throug despit in deposit consumer file"))

  unfoldable pub handle_withdrawal : WithdrawalJob → FoundReceipt → Action (Vault E) (Unit {0})
  handle_withdrawal v no_receipt = pure tt
  handle_withdrawal v (receipt_count zero) = pure tt
  handle_withdrawal v (receipt_count (suc n)) = update_withdrawal_by_id E v.id (counted (suc n))
  handle_withdrawal v (receipt r) = do
    time ← now E
    date ← now E
    update_withdrawal_by_id E v.id (
        settled_withdrawal (receipt_status r.status) (receipt_reason r.status) r.confirmation_count
          (record {
            gas_used = r.gas_used;
            block_hash = r.block_hash;
            to = some r.to;
            from = some r.from;
            time = time;
          })
          date)

  unfoldable pub process_withdrawal :
      (WithdrawalJob → FoundReceipt) → List WithdrawalJob → Action (Vault E) (Unit {0})
  process_withdrawal find = for_each (λ v.
      catch (handle_withdrawal v (find v))
        (λ error. save_error E error "Looping throug get receipt"))
