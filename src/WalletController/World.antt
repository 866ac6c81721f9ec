-- ===== src/WalletController/World.antt =====
-- The tables and the chains, and the parameters that stand for what is not in this code.
use exchange_backend.Base.{ℕ, String, Bool, Option, none, some}
use exchange_backend.Base.Int.{ℤ}
use exchange_backend.Base.Action.{Action, Result, ok, err, library_error, Exception, attempt}
use exchange_backend.Repository.{Repository}
use exchange_backend.Custody.World.{CustodyEnv, Vault}

-- src/database/network_fees/network_fees.entity.ts: fees in units of 10^-6, the limit in 10^-10.
pub record NetworkFee : Type 0 where
  pub id : ℕ
  pub fees : ℕ
  pub with_limit : ℕ
  pub network : String

-- A JSON value that is given as an amount: a number or a text, by the text that `+` makes of it.
pub data Amount : Type 0 where
  number_amount text_amount : String → Amount

abbrev pub text_of : Amount → String
text_of (number_amount t) = t
text_of (text_amount t) = t

pub record Receipt : Type 0 where
  pub transaction_hash : String
  pub block_hash : String

-- A transaction that a wallet signs and sends.
pub record Transaction : Type 0 where
  pub to : String
  pub value : ℕ
  pub call_data : Option String

pub record KeyPair : Type 0 where
  pub address : String
  pub private_key : String

pub data Provider : Type 0 where
  eth_provider bsc_provider : Provider

-- The libraries of the chains. A call gives `none` where it throws or is rejected.
pub record Chain : Type 1 where
  pub State : Type 0
  pub wallet_address : Option String → Option String
  pub format_ether : ℕ → String
  -- `parseUnits(amount, 18)` and `parseEther`, which throw unless the amount is a text.
  pub parse_units : Amount → Option ℕ
  pub encode_transfer : String → ℕ → String
  pub fee_data : Provider → State → Option ℕ × State
  pub balance_of : Provider → String → String → State → Option ℕ × State
  pub get_balance : Provider → String → State → Option ℕ × State
  -- `contract.transfer` and `wait`, with contract, key, receiver and amount.
  pub transfer : Provider → String → Option String → String → ℕ → State → Option Receipt × State
  -- `sendTransaction` and `wait`.
  pub send_transaction : Provider → Option String → Transaction → State → Option Receipt × State
  pub get_block_number : Provider → State → Option ℕ × State
  -- The call of the scanner's `getblocknobytime`.
  pub scanned_block : Provider → State → Option ℕ × State
  pub bitcoin_balance : Option String → State → Option String × State
  pub bitcoin_send : Option String → String → Amount → State → Option (Option String) × State
  pub beacon_client : Option String → State → Option (Unit {0}) × State
  pub beacon_balance : State → Option (Option String) × State
  pub beacon_sequence : State → Option ℕ × State
  pub beacon_transfer :
      String → Amount → String → ℕ → State → Option (Option (Option String)) × State
  -- New keys: of send-crypto, of random bytes, and of the Binance chain.
  pub crypto_account : State → Option KeyPair × State
  pub random_wallet : State → Option KeyPair × State
  pub beacon_account : State → Option KeyPair × State

-- `decimal scale n` is the text in which the driver gives a decimal column of that scale; `sql_number`
-- is the number, in units of 10^-8, that MySQL reads in a text; `exceeds a b` is Number(a) > parseFloat(b)
-- and `below a b` is Number(a) < Number(b); `error_text` is the text of an error.
pub record WalletEnv : Type 1 where
  pub custody : CustodyEnv
  pub fees : Repository NetworkFee
  pub chain : Chain
  pub decimal : ℕ → ℤ → String
  pub sql_number : String → ℕ
  pub exceeds : String → String → Bool
  pub below : String → String → Bool
  pub error_text : Exception → String

pub record Desk (W : WalletEnv) : Type 0 where
  pub vault : Vault W.custody
  pub fees : W.fees.State
  pub chain : W.chain.State

abbrev pub answered : {A : Type 0} → Option A → Result A
answered none = err library_error
answered (some a) = ok a

module _ (W : WalletEnv) {A : Type 0} where
  abbrev pub on_vault : Action (Vault W.custody) A → Action (Desk W) A
  on_vault m d = let (r, v) = m d.vault in (r, record d { vault = v })

  abbrev pub on_fees : (W.fees.State → Option A × W.fees.State) → Action (Desk W) A
  on_fees call d = let (r, s) = call d.fees in (attempt r, record d { fees = s })

  -- A call of a chain's library.
  abbrev pub on_chain : (W.chain.State → Option A × W.chain.State) → Action (Desk W) A
  on_chain call d = let (r, s) = call d.chain in (answered r, record d { chain = s })

  -- A function of a library that may throw.
  abbrev pub computed : Option A → Action (Desk W) A
  computed r d = (answered r, d)
