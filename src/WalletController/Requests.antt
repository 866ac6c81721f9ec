-- ===== src/WalletController/Requests.antt =====
-- The requests `getAddress`, `withdrawal` and `deposit` of src/wallet/wallet.controller.ts.
use mathlib.Core.List.{head?}
use exchange_backend.Base.{
  ℕ, zero, suc, String, ◌<>◌, Bool, true, false, Option, none, some, [], str_eq, ◌||◌,
  if◌then◌else◌, text_below,
}
use exchange_backend.Base.Int.{pos}
use exchange_backend.Base.Action.{
  ignore, Action, Exception, pure, throw, catch, type_error, library_error, ◌>>=◌, ◌>>◌,
}
use exchange_backend.Custody.Entity.{
  Coin, btc, bnb, usdt, eth, drnh, busd, trx, Status, pending, approved, yes, no, Column, column_of,
  Wallet, balance, TokenAddressBalance,
}
use exchange_backend.Custody.Database.{
  search_address, save_address, save_withdrawal, save_deposit, save_error,
  check_for_pending_deposit, find_db_withdrawal_source_address,
}
use exchange_backend.WalletController.World.{
  WalletEnv, Desk, NetworkFee, Amount, text_of, Provider, eth_provider, bsc_provider, KeyPair,
  on_vault, on_fees, on_chain,
}
use exchange_backend.WalletController.Transfers.{
  Response, failure, send_usdt_erc20, transfer_bep20, transfer_bep20_usdt, transfer_eth,
  transfer_bnb_bep20, transfer_bnb_bep2, send_bitcoin,
}

-- src/dto/withdrawal.dto.ts, without the fields that the request does not read.
pub record WithdrawalDto : Type 0 where
  pub user_id : ℕ
  pub coin : Coin
  pub network : String
  pub amount : Amount
  pub to_address : String

pub record DepositDto : Type 0 where
  pub user_id : ℕ
  pub coin : Coin
  pub to_address : String
  pub network : String

pub record GetAddressDto : Type 0 where
  pub user_id : ℕ
  pub network : String

pub record Reply : Type 0 where
  pub success : Bool
  pub message : String

module _ (W : WalletEnv) where
  unfoldable pub get_network_fees : String → Action (Desk W) (Option NetworkFee)
  get_network_fees network = do
    found ← on_fees W (
        W.fees.find
          (record { condition = λ f. str_eq f.network network; order = []; limit = some 1 }))
    pure (head? found)

  -- `result`, which stays undefined for a coin on a network that no branch names.
  abbrev pub given : Action (Desk W) Response → Action (Desk W) (Option Response)
  given m = do r ← m; pure (some r)

  abbrev pub route :
      WithdrawalDto → Option String → String → Coin → Action (Desk W) (Option Response)
  route dto key fees btc =
      if str_eq dto.network "Bitcoin"
      then given (send_bitcoin W dto.amount dto.to_address key fees)
      else given (transfer_bep20 W dto.amount dto.to_address key btc fees)
  route dto key fees usdt =
      if str_eq dto.network "ERC20"
      then given (send_usdt_erc20 W dto.amount dto.to_address key)
      else if str_eq dto.network "BEP20"
      then given (transfer_bep20_usdt W dto.amount dto.to_address key usdt fees)
      else pure none
  route dto key fees eth = given (transfer_eth W dto.amount dto.to_address key fees)
  route dto key fees drnh = given (transfer_bep20 W dto.amount dto.to_address key drnh fees)
  route dto key fees bnb =
      if str_eq dto.network "BEP20"
      then given (transfer_bnb_bep20 W dto.amount dto.to_address key fees)
      else if str_eq dto.network "BEP2"
      then given (transfer_bnb_bep2 W dto.amount dto.to_address key "memo")
      else pure none
  route dto key fees busd = pure none
  route dto key fees trx = pure none

  abbrev pub status_of : Option String → Status
  status_of none = pending
  status_of (some block_hash) = approved

  -- `saveWithdrawal`, which is not awaited.
  abbrev pub record_withdrawal :
      WithdrawalDto → String → String → Option String → Action (Desk W) (Unit {0})
  record_withdrawal dto from_address hash block_hash = ignore (
      on_vault W (
        save_withdrawal W.custody dto.user_id (some from_address) dto.to_address dto.coin
          dto.network (W.sql_number (text_of dto.amount)) (some hash) (status_of block_hash) no))

  abbrev pub recorded_if :
      WithdrawalDto → String → Response → Bool → Option String → Action (Desk W) Response
  recorded_if dto from_address result true (some hash) = do
    record_withdrawal dto from_address hash result.block_hash
    pure result
  recorded_if dto from_address result _ _ = pure result

  abbrev pub settled : WithdrawalDto → String → Option Response → Action (Desk W) Response
  settled dto from_address none = throw type_error
  settled dto from_address (some result) =
      recorded_if dto from_address result result.success result.hash

  -- The request is left to the administrator.
  abbrev pub left_to_admin : WithdrawalDto → Action (Desk W) Response
  left_to_admin dto = do
    ignore (
        on_vault W (
          save_withdrawal W.custody dto.user_id none dto.to_address dto.coin dto.network
            (W.sql_number (text_of dto.amount)) none pending yes))
    pure (record {
      success = true;
      message = "Withdrawal Request placed successfully,";
      hash = none;
      block_hash = none;
    })

  abbrev pub from_source :
      WithdrawalDto → Wallet → String → Option TokenAddressBalance → Action (Desk W) Response
  from_source dto wallet fees none = left_to_admin dto
  from_source dto wallet fees (some source) =
      if str_eq source.address "" then left_to_admin dto else (do
        result ← route dto wallet.private_key fees dto.coin
        settled dto source.address result)

  -- `amount + nw_fees.fees > wallet_balance`: texts are compared, and no text exceeds `undefined`.
  abbrev pub exceeds_balance : String → Option Column → Wallet → Bool
  exceeds_balance total none wallet = false
  exceeds_balance total (some column) wallet =
      text_below (W.decimal 8 (balance column wallet)) total

  abbrev pub total_of : WithdrawalDto → String → String
  total_of dto fees = text_of dto.amount <> fees

  abbrev pub fees_text : NetworkFee → String
  fees_text f = W.decimal 6 (pos f.fees)

  abbrev pub pay : WithdrawalDto → Wallet → String → Action (Desk W) Response
  pay dto wallet fees =
      if exceeds_balance (total_of dto fees) (column_of dto.coin) wallet
      then pure (failure "Insufficient blalance in wallet" none)
      else (do
        source ← on_vault W (
            find_db_withdrawal_source_address W.custody dto.coin dto.network
              (W.sql_number (total_of dto fees)))
        from_source dto wallet fees source)

  -- The properties of `null` are read.
  abbrev pub with_rows :
      WithdrawalDto → Option NetworkFee → Option Wallet → Action (Desk W) Response
  with_rows dto fees none = throw type_error
  with_rows dto none (some wallet) = throw type_error
  with_rows dto (some fees) (some wallet) = pay dto wallet (fees_text fees)

  unfoldable pub try_withdrawal : WithdrawalDto → Action (Desk W) Response
  try_withdrawal dto = do
    nw_fees ← get_network_fees dto.network
    my_wallet ← on_vault W (search_address W.custody dto.user_id dto.network)
    with_rows dto nw_fees my_wallet

  abbrev pub refusal : Exception → Action (Desk W) Response
  refusal error = do
    on_vault W (save_error W.custody error "Withdrawal function")
    pure (failure "Failed to accept withdrawal at the moment,Try after sometime" none)

  unfoldable pub withdrawal : WithdrawalDto → Action (Desk W) Response
  withdrawal dto = catch (try_withdrawal dto) refusal

  abbrev pub provider_of : String → Provider
  provider_of network = if str_eq network "BEP20" then bsc_provider else eth_provider

  -- The block of the scanner is bound to a variable of its own, so `current_block` stays null.
  abbrev pub current_block : DepositDto → Action (Desk W) (Option ℕ)
  current_block dto =
      catch (do block ← on_chain W (W.chain.scanned_block (provider_of dto.network)); pure none)
        (λ error. do
          on_vault W (save_error W.custody error "Block Number api call from depost function")
          block ← on_chain W (W.chain.get_block_number (provider_of dto.network))
          pure (some block))

  abbrev pub refused : Reply
  refused = record { success = false; message = "Failed to accept deposit currently,Please wait" }

  abbrev pub no_block : DepositDto → Action (Desk W) (Option Reply)
  no_block dto = do
    on_vault W (save_error W.custody library_error "No current block found in deposit function ")
    pure (some refused)

  abbrev pub open_deposit : DepositDto → ℕ → Action (Desk W) (Option Reply)
  open_deposit dto block = do
    on_vault W (save_deposit W.custody dto.user_id dto.to_address dto.coin dto.network block)
    pure none

  abbrev pub failed_to_save : Exception → Action (Desk W) (Option Reply)
  failed_to_save error = do
    on_vault W
        (save_error W.custody error "while saving deposit in  deposit function walet comtrller")
    pure (
        some
          (record { success = true; message = "Failed to accept deposit currently,Please wait" }))

  -- A deposit that is saved gives no reply. `success` is the error where saving fails, which is true.
  abbrev pub at_block : DepositDto → Option ℕ → Action (Desk W) (Option Reply)
  at_block dto none = no_block dto
  at_block dto (some zero) = no_block dto
  at_block dto (some (suc n)) = catch (open_deposit dto (suc n)) failed_to_save

  abbrev pub unless_pending : DepositDto → Bool → Action (Desk W) (Option Reply)
  unless_pending dto true = pure (
      some (record {
        success = false;
        message = "There is already a pending transaction at this addresss,Please wait";
      }))
  unless_pending dto false = do block ← current_block dto; at_block dto block

  unfoldable pub try_deposit : DepositDto → Action (Desk W) (Option Reply)
  try_deposit dto = do
    already ←
        on_vault W
          (check_for_pending_deposit W.custody dto.user_id dto.coin dto.network dto.to_address)
    unless_pending dto already

  abbrev pub refused_with : Exception → Action (Desk W) (Option Reply)
  refused_with error = do
    on_vault W (save_error W.custody error "Error  deposit function walet comtrller")
    pure (some refused)

  unfoldable pub deposit : DepositDto → Action (Desk W) (Option Reply)
  deposit dto = catch (try_deposit dto) refused_with

  -- `generateAdress`, which gives undefined for a network that it does not name.
  unfoldable pub generate_address : String → Action (Desk W) (Option KeyPair)
  generate_address network = do
    account ← on_chain W W.chain.crypto_account
    if str_eq network "Bitcoin"
        then pure (some account)
        else if str_eq network "BEP20" || (str_eq network "ERC20" || str_eq network "Ethereum")
        then (do keys ← on_chain W W.chain.random_wallet; pure (some keys))
        else if str_eq network "BEP2"
        then (do keys ← on_chain W W.chain.beacon_account; pure (some keys))
        else pure none

  abbrev pub with_keys : GetAddressDto → Option KeyPair → Action (Desk W) (Option String)
  with_keys dto none = throw type_error
  with_keys dto (some keys) = do
    wallet ←
        on_vault W (save_address W.custody dto.user_id dto.network keys.address keys.private_key)
    pure wallet.deposit_address

  abbrev pub address_of : GetAddressDto → Option Wallet → Action (Desk W) (Option String)
  address_of dto (some wallet) = pure wallet.deposit_address
  address_of dto none = do keys ← generate_address dto.network; with_keys dto keys

  -- `genAddress`
  unfoldable pub gen_address : GetAddressDto → Action (Desk W) (Option String)
  gen_address dto = do
    wallet ← on_vault W (search_address W.custody dto.user_id dto.network)
    address_of dto wallet
