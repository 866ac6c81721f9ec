-- ===== src/WalletController/Examples.antt =====
-- The theorems about the requests of the wallet at concrete requests, over a chain that answers.
use exchange_backend.Base.{
  ℕ, ◌≡◌, refl, true, false, none, some, [], ◌∷◌, ◌==◌, ◌+◌, str_eq, if◌then◌else◌,
}
use exchange_backend.Base.Action.{ok, Ends, catch, ◌>>=◌}
use exchange_backend.Repository.{RejectsSome, IsUnregistered}
use exchange_backend.Repository.Memory.{memory_repository, always}
use exchange_backend.Custody.Entity.{usdt, bnb}
use exchange_backend.Custody.World.{IsLawfulCustody, wallet_rows}
use exchange_backend.Custody.Examples.{
  env, lawful, vault, wallet, wallets-IsReliable, withdrawals-IsReliable,
}
use exchange_backend.WalletController.World.{
  WalletEnv, Chain, Desk, number_amount, text_amount, Receipt,
}
use exchange_backend.Custody.Database.{
  search_address, find_db_withdrawal_source_address, save_withdrawal, check_for_pending_deposit,
  save_deposit, save_error, save_address,
}
use exchange_backend.WalletController.Transfers.{Response, send_usdt_erc20, transfer_bep20_usdt}
use exchange_backend.WalletController.Requests.{
  WithdrawalDto, DepositDto, GetAddressDto, withdrawal, try_withdrawal, get_network_fees, deposit,
  try_deposit, gen_address, generate_address,
}
use exchange_backend.WalletController.Recording.{Recorded}
use exchange_backend.WalletController.Withdrawals.{withdrawal-Recorded}
use exchange_backend.WalletController.Debits.{withdrawal-wallet_rows}
use exchange_backend.WalletController.Deposits.{
  Deposited, IsFree, IsOneOpen, deposit-Deposited, deposit-IsOneOpen,
}
use exchange_backend.WalletController.Unregistered.{already_pending, deposit-adds_none}
use exchange_backend.WalletController.Addresses.{
  IsOneEach, gen_address-IsOneEach, gen_address-stable,
}
use exchange_backend.WalletController.Admin.{
  UsdtTransferDto, usdt_transfer, Covered, usdt_transfer-Covered,
}
use exchange_backend.WalletController.Recording
use exchange_backend.WalletController.Deposits
use exchange_backend.WalletController.Addresses

abbrev receipt : Receipt
receipt = record { transaction_hash = "0x7"; block_hash = "0x8" }

-- Each call is counted. The scanner answers at the first call only.
abbrev chain : Chain
chain = record {
  State = ℕ;
  wallet_address = λ key. some "0xB";
  format_ether = λ n. "9";
  parse_units = λ a. elim a [ number_amount t ↦ none | text_amount t ↦ some 3 ];
  encode_transfer = λ to n. "0x0";
  fee_data = λ p s. (some 1, s + 1);
  balance_of = λ p c a s. (some 9, s + 1);
  get_balance = λ p a s. (some 9, s + 1);
  transfer = λ p c k to n s. (some receipt, s + 1);
  send_transaction = λ p k t s. (some receipt, s + 1);
  get_block_number = λ p s. (some 12, s + 1);
  scanned_block = λ p s. (if s == 0 then some 11 else none, s + 1);
  bitcoin_balance = λ k s. (some "1", s + 1);
  bitcoin_send = λ k to a s. (some (some "0x9"), s + 1);
  beacon_client = λ k s. (some tt, s + 1);
  beacon_balance = λ s. (some (some "1"), s + 1);
  beacon_sequence = λ s. (some 1, s + 1);
  beacon_transfer = λ to a memo n s. (some (some (some "0x9")), s + 1);
  crypto_account = λ s. (some (record { address = "bc1"; private_key = "k" }), s + 1);
  random_wallet = λ s. (some (record { address = "0xE"; private_key = "k" }), s + 1);
  beacon_account = λ s. (some (record { address = "tb1"; private_key = "k" }), s + 1);
}

abbrev wallet_env : WalletEnv
wallet_env = record {
  custody = env;
  fees = memory_repository always (λ f. f.id) (λ n time f. record f { id = n });
  chain = chain;
  decimal = λ scale n. if scale == 6 then "0.5" else "40";
  sql_number = λ t. if str_eq t "3" then 3 else 30;
  exceeds = λ a b. false;
  below = λ a b. false;
  error_text = λ e. "error";
}

abbrev desk_at : ℕ → Desk wallet_env
desk_at calls = record {
  vault = vault;
  fees = record {
    stored = record { id = 1; fees = 500_000; with_limit = 1; network = "BEP20" } ∷ [];
    outcomes = [];
  };
  chain = calls;
}

abbrev request : WithdrawalDto
request = record {
  user_id = 7;
  coin = usdt;
  network = "BEP20";
  amount = text_amount "3";
  to_address = "0xC";
}

withdrawal-Recorded_example :
    Ends
      (λ e.
        (Recording.rows_of wallet_env e ≡ Recording.rows_of wallet_env (desk_at 0))
        × RejectsSome env.errors)
      (λ reply e.
        Recorded wallet_env request
          (Recording.rows_of wallet_env (desk_at 0))
          reply
          reply.success
          (Recording.rows_of wallet_env e))
      (withdrawal wallet_env request (desk_at 0))
withdrawal-Recorded_example =
    withdrawal-Recorded wallet_env lawful withdrawals-IsReliable request (desk_at 0)

-- The transfer is made.
withdrawal_transfers :
    (withdrawal wallet_env request (desk_at 0)).0
    ≡ ok (record {
      success = true;
      message = "USDT transfreed succsfully";
      hash = some "0x7";
      block_hash = some "0x8";
    })
unfolding withdrawal try_withdrawal get_network_fees send_usdt_erc20 transfer_bep20_usdt
    search_address find_db_withdrawal_source_address save_withdrawal catch ◌>>=◌
withdrawal_transfers = refl

withdrawal-wallet_rows_example :
    wallet_rows env (withdrawal wallet_env request (desk_at 0)).1.vault ≡ wallet ∷ []
withdrawal-wallet_rows_example = withdrawal-wallet_rows wallet_env lawful request (desk_at 0)

abbrev deposit_request : DepositDto
deposit_request = record { user_id = 7; coin = bnb; to_address = "0xA"; network = "BEP20" }

-- The scanner does not answer, and a row is added.
deposit-Deposited_example :
    Ends
      (λ e.
        (Deposits.rows_of wallet_env e ≡ Deposits.rows_of wallet_env (desk_at 1))
        × RejectsSome env.errors)
      (λ reply e.
        Deposited wallet_env deposit_request
          (Deposits.rows_of wallet_env (desk_at 1))
          reply
          (Deposits.rows_of wallet_env e))
      (deposit wallet_env deposit_request (desk_at 1))
deposit-Deposited_example = deposit-Deposited wallet_env lawful deposit_request (desk_at 1)

deposit_opens : (deposit wallet_env deposit_request (desk_at 1)).0 ≡ ok none
unfolding deposit try_deposit check_for_pending_deposit save_deposit save_error catch ◌>>=◌
deposit_opens = refl

deposit-IsOneOpen_example :
    IsOneOpen wallet_env lawful
      (Deposits.rows_of wallet_env (deposit wallet_env deposit_request (desk_at 1)).1)
deposit-IsOneOpen_example = deposit-IsOneOpen wallet_env lawful deposit_request (desk_at 1) (tt, tt)

-- The connection of the program, whose list of entities lacks the errors.
abbrev unregistered_env : WalletEnv
unregistered_env = record wallet_env {
  custody = record env {
    errors = memory_repository (λ _. false) (λ e. e.id) (λ n time e. record e { id = n });
  };
}

unregistered-lawful : IsLawfulCustody unregistered_env.custody
unregistered-lawful = record {
  wallets_lawful = lawful.wallets_lawful;
  withdrawals_lawful = lawful.withdrawals_lawful;
  deposits_lawful = lawful.deposits_lawful;
  balances_lawful = lawful.balances_lawful;
}

errors-IsUnregistered : IsUnregistered unregistered_env.custody.errors
errors-IsUnregistered = record { rejects = λ r s. refl }

abbrev unregistered_desk : Desk unregistered_env
unregistered_desk = record {
  vault = record {
    wallets = vault.wallets;
    withdrawals = vault.withdrawals;
    deposits = vault.deposits;
    balances = vault.balances;
    errors = vault.errors;
    ticks = 0;
    withdrawal_cron = false;
    deposit_cron = true;
    withdrawal_job = false;
    deposit_job = false;
    withdrawal_queue = [];
    deposit_queue = [];
  };
  fees = (desk_at 0).fees;
  chain = 0;
}

deposit-adds_none_example :
    Ends
      (λ e.
        Deposits.rows_of unregistered_env e ≡ Deposits.rows_of unregistered_env unregistered_desk)
      (λ reply e.
        (Deposits.rows_of unregistered_env e ≡ Deposits.rows_of unregistered_env unregistered_desk)
        × (reply ≡ some already_pending)
        × ¬ (
            IsFree unregistered_env deposit_request
              (Deposits.rows_of unregistered_env unregistered_desk)))
      (deposit unregistered_env deposit_request unregistered_desk)
deposit-adds_none_example =
    deposit-adds_none unregistered_env errors-IsUnregistered unregistered-lawful deposit_request
      unregistered_desk

abbrev address_request : GetAddressDto
address_request = record { user_id = 8; network = "ERC20" }

gen_address-IsOneEach_example :
    IsOneEach wallet_env
      (Addresses.rows_of wallet_env (gen_address wallet_env address_request (desk_at 0)).1)
gen_address-IsOneEach_example =
    gen_address-IsOneEach wallet_env lawful address_request (desk_at 0) (tt, tt)

gen_address_new : (gen_address wallet_env address_request (desk_at 0)).0 ≡ ok (some "0xE")
unfolding gen_address search_address generate_address save_address ◌>>=◌
gen_address_new = refl

gen_address-stable_example :
    ((gen_address wallet_env address_request
        (gen_address wallet_env address_request (desk_at 0)).1).0
      ≡ ok (some "0xE"))
    × (Addresses.rows_of wallet_env
          (gen_address wallet_env address_request
            (gen_address wallet_env address_request (desk_at 0)).1).1
        ≡ Addresses.rows_of wallet_env (gen_address wallet_env address_request (desk_at 0)).1)
gen_address-stable_example =
    gen_address-stable wallet_env lawful wallets-IsReliable address_request (desk_at 0) _
      (some "0xE") (tt, tt) gen_address_new refl

abbrev transfer_request : UsdtTransferDto
transfer_request = record { amount = "3"; address = "0xC" }

usdt_transfer-Covered_example :
    (reply : Response) × ((usdt_transfer wallet_env transfer_request (desk_at 0)).0 ≡ ok reply)
    × Covered wallet_env transfer_request
        (desk_at 0)
        reply
        (usdt_transfer wallet_env transfer_request (desk_at 0)).1
usdt_transfer-Covered_example = usdt_transfer-Covered wallet_env transfer_request (desk_at 0)
