-- ===== src/Custody/Examples.antt =====
-- The theorems about deposits and withdrawals at concrete rows, over repositories in memory.
use exchange_backend.Base.{◌≡◌, refl, ◌++◌, true, false, none, some, [], ◌∷◌, ltb, ◌+◌, map, ℕ}
use exchange_backend.Base.Action.{ok}
use exchange_backend.Base.Lists.{length}
use exchange_backend.Base.Int.{pos}
use exchange_backend.Repository.{IsReliable}
use exchange_backend.Repository.Memory.{memory_repository, memory_repository-IsLawful, always}
use exchange_backend.Custody.Entity.{
  btc, bnb, usdt, no, yes, pending, approved, active, Wallet, Withdrawal, Deposit, DepositJob,
  TokenAddressBalance, ErrorSave, select_deposit,
}
use exchange_backend.Custody.World.{
  CustodyEnv, IsLawfulCustody, Vault, wallet_key, wallet_keyed, withdrawal_key, withdrawal_keyed,
  deposit_key, deposit_keyed, balance_key, balance_keyed, withdrawal_rows, balance_rows,
}
use exchange_backend.Custody.Database.{
  six_hours, is_pending_withdrawal, save_withdrawal, save_token_address_balance,
  update_withdrawal_status,
}
use exchange_backend.Custody.Consumers.{FoundTransaction, transaction, text_1, process_deposit}
use exchange_backend.Custody.Queue.{initiate_withdrawal_job}
use exchange_backend.Custody.Dispatch.{Dispatched, initiate_withdrawal_job-Dispatched}
use exchange_backend.Custody.Frames.{process_deposit-no_credit}
use exchange_backend.Custody.Balances.{
  save_withdrawal-dispatched, save_token_address_balance-no_insert, update_withdrawal_status-throws,
}

abbrev error_keyed : ℕ → ℕ → ErrorSave → ErrorSave
error_keyed n time e = record e { id = n }

abbrev pub env : CustodyEnv
env = record {
  wallets = memory_repository always wallet_key wallet_keyed;
  withdrawals = memory_repository always withdrawal_key withdrawal_keyed;
  deposits = memory_repository always deposit_key deposit_keyed;
  balances = memory_repository always balance_key balance_keyed;
  errors = memory_repository always (λ e. e.id) error_keyed;
  clock = λ n. n;
  queued = λ n. true;
}

pub lawful : IsLawfulCustody env
lawful = record {
  wallets_lawful = memory_repository-IsLawful always wallet_key wallet_keyed (λ n time r. refl);
  withdrawals_lawful =
      memory_repository-IsLawful always withdrawal_key withdrawal_keyed (λ n time r. refl);
  deposits_lawful = memory_repository-IsLawful always deposit_key deposit_keyed (λ n time r. refl);
  balances_lawful = memory_repository-IsLawful always balance_key balance_keyed (λ n time r. refl);
}

abbrev pub wallet : Wallet
wallet = record {
  id = 1;
  user_id = 7;
  deposit_address = some "0xA";
  usdt_balance = pos 100;
  bnb_balance = pos 0;
  eth_balance = pos 0;
  btc_balance = pos 0;
  drnh_balance = pos 0;
  white_listed = no;
  status = active;
  network = "BEP20";
  private_key = none;
  created_at = 0;
}

abbrev pub withdrawal : Withdrawal
withdrawal = record {
  id = 1;
  user_id = 7;
  from_address = some "0xB";
  to_address = "0xC";
  with_amount = 5;
  confirmations = 0;
  coin = usdt;
  pay_by_admin = no;
  deleted = no;
  network = "BEP20";
  webhook_id = none;
  status = pending;
  transaction_hash = some "0x1";
  response = none;
  reason = none;
  created_at = 0;
  updated_at = none;
}

abbrev pub deposit : Deposit
deposit = record {
  id = 1;
  user_id = 7;
  from_address = "";
  to_address = "0xA";
  amount = 30;
  coin = usdt;
  network = "BEP20";
  deleted = no;
  status = pending;
  transaction_hash = none;
  response = none;
  reason = none;
  start_block = some 1;
  confirmations = 0;
  created_at = 0;
  updated_at = none;
}

abbrev address_balance : TokenAddressBalance
address_balance = record {
  id = 1;
  coin = usdt;
  network = "BEP20";
  address = "0xA";
  balance = pos 50;
}

abbrev pub vault : Vault env
vault = record {
  wallets = record { stored = wallet ∷ []; outcomes = [] };
  withdrawals = record { stored = withdrawal ∷ []; outcomes = [] };
  deposits = record { stored = deposit ∷ []; outcomes = [] };
  balances = record { stored = address_balance ∷ []; outcomes = [] };
  errors = record { stored = []; outcomes = [] };
  ticks = 0;
  withdrawal_cron = false;
  deposit_cron = true;
  withdrawal_job = false;
  deposit_job = false;
  withdrawal_queue = [];
  deposit_queue = [];
}

abbrev on_chain : DepositJob → FoundTransaction
on_chain d = transaction (record {
  txreceipt_status = text_1;
  confirmations = 12;
  from = "0xD";
  hash = "0x2";
  gas_used = "21000";
  block_hash = "0x3";
})

process_deposit-no_credit_example :
    (process_deposit env on_chain (map select_deposit (deposit ∷ [])) vault).1.wallets
    ≡ vault.wallets
process_deposit-no_credit_example = process_deposit-no_credit env on_chain (deposit ∷ []) vault

pub wallets-IsReliable : IsReliable env.wallets
wallets-IsReliable = record {
  finds = λ o s. (_, refl);
  saves = λ r s. (_, refl);
  updates = λ c f s. refl;
}

pub withdrawals-IsReliable : IsReliable env.withdrawals
withdrawals-IsReliable = record {
  finds = λ o s. (_, refl);
  saves = λ r s. (_, refl);
  updates = λ c f s. refl;
}

save_withdrawal-dispatched_example :
    let after : Vault env =
      (save_withdrawal env 7 (some "0xB") "0xC" bnb "BEP20" 5 (some "0x9") pending yes vault).1 in
    (r : Withdrawal) × (withdrawal_rows env after ≡ (withdrawal ∷ []) ++ (r ∷ []))
    × (after.withdrawal_cron ≡ true)
    × ((time : ℕ)
        → ltb time (r.created_at + six_hours) ≡ true
        → is_pending_withdrawal time r ≡ true)
save_withdrawal-dispatched_example =
    save_withdrawal-dispatched env lawful withdrawals-IsReliable 7 (some "0xB") "0xC" bnb "BEP20" 5
      (some "0x9") yes vault refl

save_token_address_balance-no_insert_example :
    length (
      balance_rows env
        (save_token_address_balance env "0xF" btc (some "Bitcoin") (some 4) "Inc" vault).1)
    ≡ 1
save_token_address_balance-no_insert_example =
    save_token_address_balance-no_insert env lawful "0xF" btc (some "Bitcoin") (some 4) "Inc" vault

update_withdrawal_status-throws_example :
    ¬ ((update_withdrawal_status env "0x1" approved vault).0 ≡ ok tt)
update_withdrawal_status-throws_example =
    update_withdrawal_status-throws env lawful "0x1" vault some_row
  where
    some_row : ¬ ((true ≡ false) × Unit {0})
    some_row (h, rest) = cc

initiate_withdrawal_job-Dispatched_example :
    Dispatched 0 (withdrawal_rows env vault) vault (initiate_withdrawal_job env vault).1
initiate_withdrawal_job-Dispatched_example = initiate_withdrawal_job-Dispatched env lawful vault
