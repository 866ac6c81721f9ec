-- ===== src/Custody/Entity.antt =====
-- The entities of wallets, withdrawals, deposits and the exchange's own addresses (src/database).
-- Amounts are counted in units of 10^-8, the scale of their columns; a balance may fall below zero.
use exchange_backend.Base.{ℕ, String, Bool, true, false, Option, none, some}
use exchange_backend.Base.Action.{Exception}
use exchange_backend.Base.Int.{ℤ}

pub data Coin : Type 0 where
  btc bnb usdt eth drnh busd trx : Coin

pub data Status : Type 0 where
  pending approved rejected reverted : Status

pub data YesNo : Type 0 where
  yes no : YesNo

-- The status of a user and of a wallet.
pub data AccountStatus : Type 0 where
  active inactive blacklisted : AccountStatus

-- The balance columns of a wallet.
pub data Column : Type 0 where
  usdt_column bnb_column eth_column btc_column drnh_column : Column

-- The column `coin.toLowerCase() + '_balance'`, where the entity has it.
abbrev pub column_of : Coin → Option Column
column_of btc = some btc_column
column_of bnb = some bnb_column
column_of usdt = some usdt_column
column_of eth = some eth_column
column_of drnh = some drnh_column
column_of busd = none
column_of trx = none

pub record Wallet : Type 0 where
  pub id : ℕ
  pub user_id : ℕ
  pub deposit_address : Option String
  pub usdt_balance : ℤ
  pub bnb_balance : ℤ
  pub eth_balance : ℤ
  pub btc_balance : ℤ
  pub drnh_balance : ℤ
  pub white_listed : YesNo
  pub status : AccountStatus
  pub network : String
  pub private_key : Option String
  pub created_at : ℕ

abbrev pub balance : Column → Wallet → ℤ
balance usdt_column w = w.usdt_balance
balance bnb_column w = w.bnb_balance
balance eth_column w = w.eth_balance
balance btc_column w = w.btc_balance
balance drnh_column w = w.drnh_balance

abbrev pub with_balance : Column → ℤ → Wallet → Wallet
with_balance usdt_column b w = record w { usdt_balance = b }
with_balance bnb_column b w = record w { bnb_balance = b }
with_balance eth_column b w = record w { eth_balance = b }
with_balance btc_column b w = record w { btc_balance = b }
with_balance drnh_column b w = record w { drnh_balance = b }

-- The object whose JSON text the column `response` holds.
pub record Response : Type 0 where
  pub gas_used : String
  pub block_hash : String
  pub to : Option String
  pub from : Option String
  pub time : ℕ

pub record Withdrawal : Type 0 where
  pub id : ℕ
  pub user_id : ℕ
  pub from_address : Option String
  pub to_address : String
  pub with_amount : ℕ
  pub confirmations : ℕ
  pub coin : Coin
  pub pay_by_admin : YesNo
  pub deleted : YesNo
  pub network : String
  pub webhook_id : Option String
  pub status : Status
  pub transaction_hash : Option String
  pub response : Option Response
  pub reason : Option String
  pub created_at : ℕ
  pub updated_at : Option ℕ

pub record Deposit : Type 0 where
  pub id : ℕ
  pub user_id : ℕ
  pub from_address : String
  pub to_address : String
  pub amount : ℕ
  pub coin : Coin
  pub network : String
  pub deleted : YesNo
  pub status : Status
  pub transaction_hash : Option String
  pub response : Option Response
  pub reason : Option String
  pub start_block : Option ℕ
  pub confirmations : ℕ
  pub created_at : ℕ
  pub updated_at : Option ℕ

pub record TokenAddressBalance : Type 0 where
  pub id : ℕ
  pub coin : Coin
  pub network : String
  pub address : String
  pub balance : ℤ

-- The columns that `getPendingWithdrawal` selects.
pub record WithdrawalJob : Type 0 where
  pub id : ℕ
  pub user_id : ℕ
  pub from_address : Option String
  pub to_address : String
  pub transaction_hash : Option String
  pub coin : Coin
  pub created_at : ℕ

-- A deposit as its consumer reads it. `getPendingDeposits` selects neither `amount` nor `network`.
pub record DepositJob : Type 0 where
  pub id : ℕ
  pub user_id : ℕ
  pub to_address : String
  pub amount : Option ℕ
  pub coin : Coin
  pub network : Option String
  pub start_block : Option ℕ
  pub created_at : ℕ

abbrev pub select_withdrawal : Withdrawal → WithdrawalJob
select_withdrawal w = record {
  id = w.id;
  user_id = w.user_id;
  from_address = w.from_address;
  to_address = w.to_address;
  transaction_hash = w.transaction_hash;
  coin = w.coin;
  created_at = w.created_at;
}

abbrev pub select_deposit : Deposit → DepositJob
select_deposit d = record {
  id = d.id;
  user_id = d.user_id;
  to_address = d.to_address;
  amount = none;
  coin = d.coin;
  network = none;
  start_block = d.start_block;
  created_at = d.created_at;
}

-- What `saveError` is given: the error and where it was caught.
pub record ErrorSave : Type 0 where
  pub id : ℕ
  pub error : Exception
  pub origin : String

abbrev pub coin_index : Coin → ℕ
coin_index btc = 0
coin_index bnb = 1
coin_index usdt = 2
coin_index eth = 3
coin_index drnh = 4
coin_index busd = 5
coin_index trx = 6

abbrev pub is_pending : Status → Bool
is_pending pending = true
is_pending _ = false

abbrev pub is_approved : Status → Bool
is_approved approved = true
is_approved _ = false

abbrev pub is_no : YesNo → Bool
is_no no = true
is_no yes = false

abbrev pub coin_name : Coin → String
coin_name btc = "BTC"
coin_name bnb = "BNB"
coin_name usdt = "USDT"
coin_name eth = "ETH"
coin_name drnh = "DRNH"
coin_name busd = "BUSD"
coin_name trx = "TRX"
