-- ===== src/WalletController/Frames.antt =====
-- No transfer on a chain touches the tables, and no withdrawal touches the wallets.
use exchange_backend.Base.{ℕ, String, refl, Bool, true, false, Option, none, some}
use exchange_backend.Base.Keeping.{Keeps, keeps_rules}
use exchange_backend.Custody.World.{Vault}
use exchange_backend.Custody.Entity.{Coin, btc, bnb, usdt, eth, drnh, busd, trx}
use exchange_backend.WalletController.Requests.{WithdrawalDto, route}
use exchange_backend.WalletController.World.{WalletEnv, Desk, Amount, Provider, on_chain, computed}
use exchange_backend.WalletController.Transfers.{
  send_usdt_erc20, transfer_bep20, transfer_bep20_usdt, transfer_eth, transfer_bnb_bep20,
  transfer_bnb_bep2, send_bitcoin, sent_token, sent_usdt, sent_coin, sent_bnb, sent_bitcoin,
  sent_beacon, beacon_reply, beacon_checked,
}

module _ (W : WalletEnv) where
  abbrev pub vault_of : Desk W → Vault W.custody
  vault_of d = d.vault

  on_chain-Keeps :
      {A : Type 0} (call : W.chain.State → Option A × W.chain.State)
      → Keeps vault_of (on_chain W call)
  on_chain-Keeps call = record { keeps = λ d. refl }

  computed-Keeps : {A : Type 0} (r : Option A) → Keeps vault_of (computed W r)
  computed-Keeps r = record { keeps = λ d. refl }

  ruleset chain_rules = (keeps_rules, on_chain-Keeps, computed-Keeps)

  send_usdt_erc20-Keeps :
      (amount : Amount) (to : String) (key : Option String)
      → Keeps vault_of (send_usdt_erc20 W amount to key)
  unfolding send_usdt_erc20
  send_usdt_erc20-Keeps amount to key = search (chain_rules) depth 24

  transfer_bep20-Keeps :
      (amount : Amount) (to : String) (key : Option String) (coin : Coin) (fees : String)
      → Keeps vault_of (transfer_bep20 W amount to key coin fees)
  unfolding transfer_bep20
  transfer_bep20-Keeps amount to key coin fees = search (chain_rules, sent) depth 24
    where
      sent :
          (a : ℕ) (contract : String) (b : Bool)
          → Keeps vault_of (sent_token W amount a to key coin contract b)
      sent a contract true = search (chain_rules) depth 24
      sent a contract false = search (chain_rules) depth 24

  transfer_bep20_usdt-Keeps :
      (amount : Amount) (to : String) (key : Option String) (coin : Coin) (fees : String)
      → Keeps vault_of (transfer_bep20_usdt W amount to key coin fees)
  unfolding transfer_bep20_usdt
  transfer_bep20_usdt-Keeps amount to key coin fees = search (chain_rules, sent) depth 24
    where
      sent :
          (a : ℕ) (contract : String) (b : Bool)
          → Keeps vault_of (sent_usdt W a to key coin contract b)
      sent a contract true = search (chain_rules) depth 24
      sent a contract false = search (chain_rules) depth 24

  sent_coin-Keeps :
      (provider : Provider) (a : ℕ) (to : String) (key : Option String) (b : Bool)
      → Keeps vault_of (sent_coin W provider a to key b)
  sent_coin-Keeps provider a to key true = search (chain_rules) depth 24
  sent_coin-Keeps provider a to key false = search (chain_rules) depth 24

  transfer_eth-Keeps :
      (amount : Amount) (to : String) (key : Option String) (fees : String)
      → Keeps vault_of (transfer_eth W amount to key fees)
  unfolding transfer_eth
  transfer_eth-Keeps amount to key fees = search (chain_rules, sent_coin-Keeps) depth 24

  transfer_bnb_bep20-Keeps :
      (amount : Amount) (to : String) (key : Option String) (fees : String)
      → Keeps vault_of (transfer_bnb_bep20 W amount to key fees)
  unfolding transfer_bnb_bep20
  transfer_bnb_bep20-Keeps amount to key fees = search (chain_rules, sent) depth 24
    where
      sent : (b : Bool) → Keeps vault_of (sent_bnb W amount to key b)
      sent true = search (chain_rules, sent_coin-Keeps) depth 24
      sent false = search (chain_rules) depth 24

  send_bitcoin-Keeps :
      (amount : Amount) (to : String) (key : Option String) (fees : String)
      → Keeps vault_of (send_bitcoin W amount to key fees)
  unfolding send_bitcoin
  send_bitcoin-Keeps amount to key fees = search (chain_rules, sent) depth 24
    where
      sent : (b : Bool) → Keeps vault_of (sent_bitcoin W amount to key b)
      sent true = search (chain_rules) depth 24
      sent false = search (chain_rules) depth 24

  transfer_bnb_bep2-Keeps :
      (amount : Amount) (to : String) (key : Option String) (memo : String)
      → Keeps vault_of (transfer_bnb_bep2 W amount to key memo)
  unfolding transfer_bnb_bep2
  transfer_bnb_bep2-Keeps amount to key memo = search (chain_rules, checked) depth 24
    where
      replied : (r : Option (Option String)) → Keeps vault_of (beacon_reply W r)
      replied none = search (chain_rules) depth 24
      replied (some none) = search (chain_rules) depth 24
      replied (some (some h)) = search (chain_rules) depth 24

      sent : (b : Bool) → Keeps vault_of (sent_beacon W amount to memo b)
      sent true = search (chain_rules) depth 24
      sent false = search (chain_rules, replied) depth 24

      checked : (free : Option String) → Keeps vault_of (beacon_checked W amount to memo free)
      checked none = search (chain_rules) depth 24
      checked (some f) = search (chain_rules, sent) depth 24

  ruleset routed = (
    keeps_rules, send_usdt_erc20-Keeps, transfer_bep20-Keeps, transfer_bep20_usdt-Keeps,
    transfer_eth-Keeps, transfer_bnb_bep20-Keeps, send_bitcoin-Keeps, transfer_bnb_bep2-Keeps,
  )

  -- Whatever the coin and the network, a transfer leaves the tables.
  pub route-Keeps :
      (dto : WithdrawalDto) (key : Option String) (fees : String) (c : Coin)
      → Keeps vault_of (route W dto key fees c)
  route-Keeps dto key fees btc = search (routed) depth 24
  route-Keeps dto key fees usdt = search (routed) depth 24
  route-Keeps dto key fees eth = search (routed) depth 24
  route-Keeps dto key fees drnh = search (routed) depth 24
  route-Keeps dto key fees bnb = search (routed) depth 24
  route-Keeps dto key fees busd = search (routed) depth 24
  route-Keeps dto key fees trx = search (routed) depth 24
