-- ===== src/Custody/Database.antt =====
-- The methods of src/database/database.service.ts on wallets, withdrawals, deposits, the exchange's
-- addresses and errors.
use mathlib.Core.List.{head?}
use exchange_backend.Base.{
  is_text, is_named, is_given_text, ℕ, ◌+◌, String, Bool, true, false, not, ◌&&◌, Option, none,
  some, List, [], map, ltb, ◌==◌, str_eq, if◌then◌else◌, number,
}
use exchange_backend.Base.Action.{
  Exception, Action, pure, throw, modify, database_error, ◌>>=◌, ◌>>◌,
}
use exchange_backend.Base.Int.{ℤ, pos, add_amount, sub_amount, covers}
use exchange_backend.Custody.Entity.{
  Coin, Status, pending, active, YesNo, yes, no, Column, column_of, Wallet, balance, with_balance,
  Withdrawal, Deposit, TokenAddressBalance, Response, WithdrawalJob, DepositJob, select_withdrawal,
  select_deposit, coin_index, is_pending, is_approved, is_no,
}
use exchange_backend.Custody.World.{
  CustodyEnv, Vault, on_wallets, on_withdrawals, on_deposits, on_balances, on_errors, now,
}

abbrev pub six_hours : ℕ
six_hours = 21_600_000

-- The condition of `getPendingWithdrawal`, for a row of the last six hours.
abbrev pub is_pending_withdrawal : ℕ → Withdrawal → Bool
is_pending_withdrawal time w =
    not (str_eq w.network "Bitcoin")
    && (is_pending w.status
        && (is_no w.deleted && (is_no w.pay_by_admin && ltb time (w.created_at + six_hours))))

abbrev pub is_pending_deposit : ℕ → Deposit → Bool
is_pending_deposit time d =
    not (str_eq d.network "Bitcoin")
    && (is_pending d.status && (is_no d.deleted && ltb time (d.created_at + six_hours)))

-- The wallets that `updateWallet` names.
abbrev pub is_wallet_at : ℕ → Option String → String → Wallet → Bool
is_wallet_at user_id network address w =
    w.user_id == user_id && (is_given_text network w.network && is_text w.deposit_address address)

-- The wallets of a user on a network.
abbrev pub is_wallet_on : ℕ → String → Wallet → Bool
is_wallet_on user_id network w = str_eq w.network network && w.user_id == user_id

abbrev pub is_address : String → Coin → Option String → TokenAddressBalance → Bool
is_address address coin network b =
    str_eq b.address address && (coin_index b.coin == coin_index coin && is_named network b.network)

-- The same for `increment` and `decrement`.
abbrev pub is_address_given : String → Coin → Option String → TokenAddressBalance → Bool
is_address_given address coin network b =
    str_eq b.address address
    && (coin_index b.coin == coin_index coin && is_given_text network b.network)

-- What `increment` or `decrement` writes to the balance of one of the exchange's addresses.
abbrev pub adjust : String → ℕ → TokenAddressBalance → TokenAddressBalance
adjust todo amount b = record b {
  balance = if str_eq todo "Inc" then add_amount b.balance amount else sub_amount b.balance amount;
}

abbrev pub is_open_deposit : ℕ → Coin → String → String → Deposit → Bool
is_open_deposit user_id coin network to_address d =
    d.user_id == user_id
    && (coin_index d.coin == coin_index coin
        && (str_eq d.network network && (is_no d.deleted && str_eq d.to_address to_address)))

-- What `updateWtihdrawalById` and `updateDepositById` write.
pub data WithdrawalUpdate : Type 0 where
  counted : ℕ → WithdrawalUpdate
  settled : Status → String → ℕ → Response → ℕ → WithdrawalUpdate

abbrev pub write_withdrawal : WithdrawalUpdate → Withdrawal → Withdrawal
write_withdrawal (counted confirmations) w = record w { confirmations = confirmations }
write_withdrawal (settled status reason confirmations response date) w = record w {
  status = status;
  reason = some reason;
  confirmations = confirmations;
  response = some response;
  updated_at = some date;
}

pub record DepositSettlement : Type 0 where
  pub status : Status
  pub reason : String
  pub confirmations : ℕ
  pub from_address : String
  pub transaction_hash : String
  pub response : Response
  pub updated_at : ℕ

pub data DepositUpdate : Type 0 where
  deleted : DepositUpdate
  settled : DepositSettlement → DepositUpdate

abbrev pub write_deposit : DepositUpdate → Deposit → Deposit
write_deposit deleted d = record d { deleted = yes }
write_deposit (settled u) d = record d {
  status = u.status;
  reason = some u.reason;
  confirmations = u.confirmations;
  from_address = u.from_address;
  transaction_hash = some u.transaction_hash;
  response = some u.response;
  updated_at = some u.updated_at;
}

module _ (E : CustodyEnv) where
  unfoldable pub get_pending_withdrawal : Action (Vault E) (List WithdrawalJob)
  get_pending_withdrawal = do
    time ← now E
    found ← on_withdrawals E (
        E.withdrawals.find
          (record { condition = is_pending_withdrawal time; order = []; limit = none }))
    pure (map select_withdrawal found)

  unfoldable pub get_pending_deposits : Action (Vault E) (List DepositJob)
  get_pending_deposits = do
    time ← now E
    found ←
        on_deposits E (
          E.deposits.find
            (record { condition = is_pending_deposit time; order = []; limit = none }))
    pure (map select_deposit found)

  unfoldable pub save_error : Exception → String → Action (Vault E) (Unit {0})
  save_error error origin =
      on_errors E (E.errors.save (record { id = 0; error = error; origin = origin })) >> pure tt

  unfoldable pub search_address : ℕ → String → Action (Vault E) (Option Wallet)
  search_address user_id network = do
    found ← on_wallets E (
        E.wallets.find
          (record { condition = is_wallet_on user_id network; order = []; limit = none }))
    pure (head? found)

  abbrev pub new_wallet : ℕ → String → String → String → Wallet
  new_wallet user_id network address private_key = record {
    id = 0;
    user_id = user_id;
    deposit_address = some address;
    usdt_balance = pos 0;
    bnb_balance = pos 0;
    eth_balance = pos 0;
    btc_balance = pos 0;
    drnh_balance = pos 0;
    white_listed = no;
    status = active;
    network = network;
    private_key = some private_key;
    created_at = 0;
  }

  unfoldable pub save_address : ℕ → String → String → String → Action (Vault E) Wallet
  save_address user_id network address private_key =
      on_wallets E (E.wallets.save (new_wallet user_id network address private_key))

  -- The object that is saved names no `pay_by_admin`, so its column takes its default.
  abbrev pub new_withdrawal :
      ℕ → Option String → String → Coin → String → ℕ → Option String → Status → Withdrawal
  new_withdrawal user_id from_address to_address coin network with_amount transaction_hash status =
      record {
        id = 0;
        user_id = user_id;
        from_address = from_address;
        to_address = to_address;
        with_amount = with_amount;
        confirmations = 0;
        coin = coin;
        pay_by_admin = no;
        deleted = no;
        network = network;
        webhook_id = none;
        status = status;
        transaction_hash = transaction_hash;
        response = none;
        reason = none;
        created_at = 0;
        updated_at = none;
      }

  unfoldable pub save_withdrawal :
      ℕ
      → Option String
      → String
      → Coin
      → String
      → ℕ
      → Option String
      → Status
      → YesNo
      → Action (Vault E) (Unit {0})
  save_withdrawal user_id from_address to_address coin network with_amount transaction_hash status
        pay_with_admin =
      do
        on_withdrawals E (
            E.withdrawals.save (
              new_withdrawal user_id from_address to_address coin network with_amount
                transaction_hash status))
        modify (λ v. if str_eq network "Bitcoin" then v else record v { withdrawal_cron = true })

  abbrev pub new_deposit : ℕ → String → Coin → String → ℕ → Deposit
  new_deposit user_id address coin network start_block = record {
    id = 0;
    user_id = user_id;
    from_address = "";
    to_address = address;
    amount = 0;
    coin = coin;
    network = network;
    deleted = no;
    status = pending;
    transaction_hash = none;
    response = none;
    reason = none;
    start_block = some start_block;
    confirmations = 0;
    created_at = 0;
    updated_at = none;
  }

  unfoldable pub save_deposit : ℕ → String → Coin → String → ℕ → Action (Vault E) (Unit {0})
  save_deposit user_id address coin network start_block = do
    on_deposits E (E.deposits.save (new_deposit user_id address coin network start_block))
    modify (λ v. if str_eq network "Bitcoin" then v else record v { deposit_cron = true })

  unfoldable pub update_webhook_id :
      String → Option String → String → Coin → String → Action (Vault E) (Unit {0})
  update_webhook_id transaction_hash none to coin network = pure tt
  update_webhook_id transaction_hash (some hook_id) to coin network = on_withdrawals E (
      E.withdrawals.update
        (λ w.
          coin_index w.coin == coin_index coin
          && (str_eq w.network network
              && (is_text w.transaction_hash transaction_hash && str_eq w.to_address to)))
        (λ w. record w { webhook_id = some hook_id }))

  -- A wallet has no column `balance`, so the decrement is rejected.
  abbrev pub decrement_balance : Option Withdrawal → Action (Vault E) (Unit {0})
  decrement_balance none = pure tt
  decrement_balance (some with_info) = throw database_error

  unfoldable pub take_back : String → Action (Vault E) (Unit {0})
  take_back transaction_hash = do
    found ← on_withdrawals E (
        E.withdrawals.find (record {
          condition = λ w. is_text w.transaction_hash transaction_hash;
          order = [];
          limit = some 1;
        }))
    decrement_balance (head? found)

  unfoldable pub update_withdrawal_status : String → Status → Action (Vault E) (Unit {0})
  update_withdrawal_status transaction_hash status = do
    on_withdrawals E (
        E.withdrawals.update (λ w. is_text w.transaction_hash transaction_hash)
          (λ w. record w { status = status }))
    if is_approved status then take_back transaction_hash else pure tt

  unfoldable pub update_withdrawal_by_id : ℕ → WithdrawalUpdate → Action (Vault E) (Unit {0})
  update_withdrawal_by_id id u =
      on_withdrawals E (E.withdrawals.update (λ w. w.id == id) (write_withdrawal u))

  unfoldable pub update_deposit_by_id : ℕ → DepositUpdate → Action (Vault E) (Unit {0})
  update_deposit_by_id id u = on_deposits E (E.deposits.update (λ d. d.id == id) (write_deposit u))

  -- `increment` and `decrement` are rejected for a column that the entity lacks and for an amount that
  -- is no number.
  abbrev pub change_wallets :
      (ℤ → ℕ → ℤ) → Option Column → Option ℕ → (Wallet → Bool) → Action (Vault E) (Unit {0})
  change_wallets change none amount condition = throw database_error
  change_wallets change (some column) none condition = throw database_error
  change_wallets change (some column) (some amount) condition =
      on_wallets E
        (E.wallets.update condition (λ w. with_balance column (change (balance column w) amount) w))

  unfoldable pub update_wallet :
      ℕ → Option ℕ → String → Coin → Option String → String → Action (Vault E) (Unit {0})
  update_wallet user_id amount from_address coin network to_do =
      if str_eq to_do "Inc"
      then change_wallets add_amount (column_of coin) amount
          (is_wallet_at user_id network from_address)
      else change_wallets sub_amount (column_of coin) amount
          (is_wallet_at user_id network from_address)

  unfoldable pub check_for_pending_deposit : ℕ → Coin → String → String → Action (Vault E) Bool
  check_for_pending_deposit user_id coin network to_address = do
    found ← on_deposits E (
        E.deposits.find (record {
          condition = is_open_deposit user_id coin network to_address;
          order = [];
          limit = some 1;
        }))
    pure (elim (head? found) [ none ↦ false | some d ↦ true ])

  -- `false` is `none`.
  unfoldable pub find_db_withdrawal_source_address :
      Coin → String → ℕ → Action (Vault E) (Option TokenAddressBalance)
  find_db_withdrawal_source_address coin network amount = do
    found ← on_balances E (
        E.balances.find (record {
          condition = λ b.
              coin_index b.coin == coin_index coin
              && (str_eq b.network network && covers b.balance amount);
          order = [];
          limit = none;
        }))
    pure (head? found)

  unfoldable pub update_token_address_balance : ℕ → ℕ → String → Action (Vault E) (Unit {0})
  update_token_address_balance id amount todo =
      on_balances E (E.balances.update (λ b. b.id == id) (adjust todo amount))

  -- `find !== undefined || find`, where `findOne` gives `null` for no row.
  abbrev pub found_or_null : Option TokenAddressBalance → Bool
  found_or_null none = true
  found_or_null (some b) = true

  abbrev pub change_balances :
      String → Option ℕ → (TokenAddressBalance → Bool) → Action (Vault E) (Unit {0})
  change_balances todo none condition = throw database_error
  change_balances todo (some amount) condition =
      on_balances E (E.balances.update condition (adjust todo amount))

  -- The row that is inserted; a missing amount or network takes the column's default.
  abbrev new_balance : String → Coin → Option String → Option ℕ → TokenAddressBalance
  new_balance address coin network amount = record {
    id = 0;
    coin = coin;
    network = elim network [ none ↦ "" | some n ↦ n ];
    address = address;
    balance = pos (number amount);
  }

  unfoldable pub save_token_address_balance :
      String → Coin → Option String → Option ℕ → String → Action (Vault E) (Unit {0})
  save_token_address_balance address coin network amount todo = do
    found ← on_balances E (
        E.balances.find
          (record { condition = is_address address coin network; order = []; limit = some 1 }))
    if found_or_null (head? found)
        then change_balances todo amount (is_address_given address coin network)
        else (on_balances E (E.balances.save (new_balance address coin network amount)) >> pure tt)
