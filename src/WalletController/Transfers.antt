-- ===== src/WalletController/Transfers.antt =====
-- The transfers of src/wallet/wallet.controller.ts.
use exchange_backend.Base.{
  ℕ, String, ◌<>◌, Bool, true, false, Option, none, some, str_eq, if◌then◌else◌, text_below,
}
use exchange_backend.Base.Action.{Action, pure, throw, catch, type_error, ◌>>=◌, ◌>>◌}
use exchange_backend.Custody.Entity.{Coin, btc, bnb, usdt, eth, drnh, busd, trx, coin_name}
use exchange_backend.WalletController.World.{
  WalletEnv, Desk, Amount, number_amount, text_amount, text_of, Provider, eth_provider,
  bsc_provider, Receipt, on_chain, computed,
}

-- `WithdrawlResponse`
pub record Response : Type 0 where
  pub success : Bool
  pub message : String
  pub hash : Option String
  pub block_hash : Option String

abbrev pub failure : String → Option String → Response
failure message hash = record { success = false; message = message; hash = hash; block_hash = none }

abbrev pub success_of : String → Receipt → Response
success_of message r = record {
  success = true;
  message = message;
  hash = some r.transaction_hash;
  block_hash = some r.block_hash;
}

abbrev token_of_usdt : Bool → Option String
token_of_usdt true = some "0xdAC17F958D2ee523a2206206994597C13D831ec7"
token_of_usdt false = some "0x55d398326f99059fF775485246999027B3197955"

abbrev token_of_btc : Bool → Option String
token_of_btc true = some "0x7130d2A12B9BCbFAe4f2634d864A1Ee1Ce3Ead9c"
token_of_btc false = none

-- `getABiAndTokenContract`: the contract, where there is an ABI for it.
abbrev pub token_contract : Coin → String → Option String
token_contract busd network = some "0xeD24FC36d5Ee211Ea25A80239Fb8C4Cfd80f12Ee"
token_contract drnh network = some "0x8B76AdD310295D74855FA55c62AaFB92623450Fa"
token_contract usdt network = token_of_usdt (str_eq network "ERC20")
token_contract btc network = token_of_btc (str_eq network "BEP20")
token_contract bnb network = none
token_contract eth network = none
token_contract trx network = none

module _ (W : WalletEnv) where
  -- `try { … } catch (error) { return { success: false, message: 'Transfer Failed ' + error } }`
  abbrev pub failing : Action (Desk W) Response → Action (Desk W) Response
  failing m = catch m (λ error. pure (failure ("Transfer Failed " <> W.error_text error) none))

  unfoldable pub send_usdt_erc20 : Amount → String → Option String → Action (Desk W) Response
  send_usdt_erc20 amount1 to_address private_key = failing (do
    gas_price ← on_chain W (W.chain.fee_data eth_provider)
    signer ← computed W (W.chain.wallet_address private_key)
    contract ← computed W (token_contract usdt "ERC20")
    balance ← on_chain W (W.chain.balance_of eth_provider contract signer)
    amount ← computed W (W.chain.parse_units amount1)
    receipt ← on_chain W (W.chain.transfer eth_provider contract private_key to_address amount)
    pure (success_of "USDT  transfreed succsfully" receipt))

  -- `balance < amount1 + fees`: `fees` is a text, so the sum is a text and texts are compared.
  abbrev pub covered : String → Amount → String → Bool
  covered balance amount fees = if text_below balance (text_of amount <> fees) then false else true

  abbrev pub insufficient : Response
  insufficient = failure "Insufficient Amount" (some "")

  abbrev pub sent_token :
      Amount → ℕ → String → Option String → Coin → String → Bool → Action (Desk W) Response
  sent_token amount1 amount to_address private_key coin contract false = pure insufficient
  sent_token amount1 amount to_address private_key coin contract true = do
    receipt ← on_chain W (
        W.chain.send_transaction bsc_provider private_key (record {
          to = contract;
          value = 0;
          call_data = some (W.chain.encode_transfer to_address amount);
        }))
    pure (success_of (coin_name coin <> " transfered succsfully") receipt)

  unfoldable pub transfer_bep20 :
      Amount → String → Option String → Coin → String → Action (Desk W) Response
  transfer_bep20 amount1 to_address private_key coin fees = failing (do
    from_address ← computed W (W.chain.wallet_address private_key)
    gas_price ← on_chain W (W.chain.fee_data bsc_provider)
    contract ← computed W (token_contract coin "BEP20")
    balance ← on_chain W (W.chain.balance_of bsc_provider contract from_address)
    amount ← computed W (W.chain.parse_units amount1)
    sent_token amount1 amount to_address private_key coin contract
        (covered (W.chain.format_ether balance) amount1 fees))

  abbrev pub sent_usdt :
      ℕ → String → Option String → Coin → String → Bool → Action (Desk W) Response
  sent_usdt amount to_address private_key coin contract false = pure insufficient
  sent_usdt amount to_address private_key coin contract true = do
    receipt ← on_chain W (W.chain.transfer bsc_provider contract private_key to_address amount)
    pure (success_of (coin_name coin <> " transfreed succsfully") receipt)

  unfoldable pub transfer_bep20_usdt :
      Amount → String → Option String → Coin → String → Action (Desk W) Response
  transfer_bep20_usdt amount1 to_address private_key coin fees = failing (do
    from_address ← computed W (W.chain.wallet_address private_key)
    contract ← computed W (token_contract usdt "BEP20")
    gas_price ← on_chain W (W.chain.fee_data bsc_provider)
    balance ← on_chain W (W.chain.balance_of bsc_provider contract from_address)
    amount ← computed W (W.chain.parse_units amount1)
    sent_usdt amount to_address private_key coin contract
        (covered (W.chain.format_ether balance) amount1 fees))

  abbrev pub sent_coin : Provider → ℕ → String → Option String → Bool → Action (Desk W) Response
  sent_coin provider amount to_address private_key false = pure insufficient
  sent_coin provider amount to_address private_key true = do
    receipt ← on_chain W (
        W.chain.send_transaction provider private_key
          (record { to = to_address; value = amount; call_data = none }))
    pure (success_of "Trasaction successfull" receipt)

  -- It catches nothing.
  unfoldable pub transfer_eth : Amount → String → Option String → String → Action (Desk W) Response
  transfer_eth amount1 to_address private_key fees = do
    from_address ← computed W (W.chain.wallet_address private_key)
    balance ← on_chain W (W.chain.get_balance eth_provider from_address)
    amount ← computed W (W.chain.parse_units amount1)
    sent_coin eth_provider amount to_address private_key
        (covered (W.chain.format_ether balance) amount1 fees)

  abbrev pub sent_bnb : Amount → String → Option String → Bool → Action (Desk W) Response
  sent_bnb amount1 to_address private_key false = pure insufficient
  sent_bnb amount1 to_address private_key true = do
    amount ← computed W (W.chain.parse_units amount1)
    sent_coin bsc_provider amount to_address private_key true

  unfoldable pub transfer_bnb_bep20 :
      Amount → String → Option String → String → Action (Desk W) Response
  transfer_bnb_bep20 amount1 to_address private_key fees = do
    from_address ← computed W (W.chain.wallet_address private_key)
    balance ← on_chain W (W.chain.get_balance bsc_provider from_address)
    sent_bnb amount1 to_address private_key (covered (W.chain.format_ether balance) amount1 fees)

  abbrev pub bitcoin_reply : Option String → Response
  bitcoin_reply none = failure "Trasaction Failed" none
  bitcoin_reply (some hash) = record {
    success = true;
    message = "Transfer Successful";
    hash = some hash;
    block_hash = none;
  }

  abbrev pub sent_bitcoin : Amount → String → Option String → Bool → Action (Desk W) Response
  sent_bitcoin amount to_address private_key true =
      pure (failure "amount exceeded than in wallet" none)
  sent_bitcoin amount to_address private_key false = do
    hash ← on_chain W (W.chain.bitcoin_send private_key to_address amount)
    pure (bitcoin_reply hash)

  unfoldable pub send_bitcoin : Amount → String → Option String → String → Action (Desk W) Response
  send_bitcoin amount to_address private_key fees = do
    balance ← on_chain W (W.chain.bitcoin_balance private_key)
    sent_bitcoin amount to_address private_key (W.exceeds (text_of amount <> fees) balance)

  -- `result.result[0].hash`, where there may be no first result and no hash in it.
  abbrev pub beacon_reply : Option (Option String) → Action (Desk W) Response
  beacon_reply none = throw type_error
  beacon_reply (some none) = pure (failure "Transferd failed" none)
  beacon_reply (some (some hash)) = pure (record {
    success = true;
    message = "Transferd successfully";
    hash = some hash;
    block_hash = none;
  })

  abbrev pub beacon_below : String → Amount → Bool
  beacon_below free (number_amount n) = W.below free n
  beacon_below free (text_amount t) = text_below free t

  abbrev pub sent_beacon : Amount → String → String → Bool → Action (Desk W) Response
  sent_beacon amount1 to_address memo true =
      pure (failure "Insufficient amount in wallet to withdraw" none)
  sent_beacon amount1 to_address memo false = do
    sequence ← catch (on_chain W W.chain.beacon_sequence) (λ err. pure 0)
    catch
        (do
          result ← on_chain W (W.chain.beacon_transfer to_address amount1 memo sequence)
          beacon_reply result)
        (λ err. pure (failure ("Transferd failed with error " <> W.error_text err) none))

  abbrev pub beacon_checked : Amount → String → String → Option String → Action (Desk W) Response
  beacon_checked amount1 to_address memo none = throw type_error
  beacon_checked amount1 to_address memo (some free) =
      sent_beacon amount1 to_address memo (beacon_below free amount1)

  unfoldable pub transfer_bnb_bep2 :
      Amount → String → Option String → String → Action (Desk W) Response
  transfer_bnb_bep2 amount1 to_address private_key memo = do
    on_chain W (W.chain.beacon_client private_key)
    balance ← on_chain W W.chain.beacon_balance
    beacon_checked amount1 to_address memo balance
