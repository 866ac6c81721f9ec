-- ===== src/WalletController/Hashes.antt =====
-- A transfer that reports success gives the hash of its transaction.
use exchange_backend.Base.{ℕ, String, ◌≡◌, refl, Bool, true, false, Option, none, some}
use exchange_backend.Base.Keeping.{Yields, Yields-pure, Yields-if, Yields-map, yields_rules}
use exchange_backend.Custody.Entity.{Coin, btc, bnb, usdt, eth, drnh, busd, trx}
use exchange_backend.Base.Action.{Action, pure}
use exchange_backend.WalletController.Requests.{WithdrawalDto, route, given}
use exchange_backend.WalletController.World.{WalletEnv, Desk, Amount, Provider, Receipt}
use exchange_backend.WalletController.Transfers.{
  Response, failure, success_of, send_usdt_erc20, transfer_bep20, transfer_bep20_usdt, transfer_eth,
  transfer_bnb_bep20, transfer_bnb_bep2, send_bitcoin, sent_token, sent_usdt, sent_coin, sent_bnb,
  sent_bitcoin, bitcoin_reply, sent_beacon, beacon_reply, beacon_checked,
}

abbrev pub HasHash : Response → Type 0
HasHash r = r.success ≡ true → (h : String) × (r.hash ≡ some h)

failure-HasHash : (message : String) (hash : Option String) → HasHash (failure message hash)
failure-HasHash message hash e = cc

success_of-HasHash : (message : String) (r : Receipt) → HasHash (success_of message r)
success_of-HasHash message r e = (r.transaction_hash, refl)

ruleset hash_rules = (yields_rules, failure-HasHash, success_of-HasHash)

module _ (W : WalletEnv) where
  pub send_usdt_erc20-HasHash :
      (amount : Amount) (to : String) (key : Option String)
      → Yields HasHash (send_usdt_erc20 W amount to key)
  unfolding send_usdt_erc20
  send_usdt_erc20-HasHash amount to key = search (hash_rules) depth 24

  transfer_bep20-HasHash :
      (amount : Amount) (to : String) (key : Option String) (coin : Coin) (fees : String)
      → Yields HasHash (transfer_bep20 W amount to key coin fees)
  unfolding transfer_bep20
  transfer_bep20-HasHash amount to key coin fees = search (hash_rules, sent) depth 24
    where
      sent :
          (a : ℕ) (contract : String) (b : Bool)
          → Yields HasHash (sent_token W amount a to key coin contract b)
      sent a contract true = search (hash_rules) depth 24
      sent a contract false = search (hash_rules) depth 24

  transfer_bep20_usdt-HasHash :
      (amount : Amount) (to : String) (key : Option String) (coin : Coin) (fees : String)
      → Yields HasHash (transfer_bep20_usdt W amount to key coin fees)
  unfolding transfer_bep20_usdt
  transfer_bep20_usdt-HasHash amount to key coin fees = search (hash_rules, sent) depth 24
    where
      sent :
          (a : ℕ) (contract : String) (b : Bool)
          → Yields HasHash (sent_usdt W a to key coin contract b)
      sent a contract true = search (hash_rules) depth 24
      sent a contract false = search (hash_rules) depth 24

  sent_coin-HasHash :
      (provider : Provider) (a : ℕ) (to : String) (key : Option String) (b : Bool)
      → Yields HasHash (sent_coin W provider a to key b)
  sent_coin-HasHash provider a to key true = search (hash_rules) depth 24
  sent_coin-HasHash provider a to key false = search (hash_rules) depth 24

  transfer_eth-HasHash :
      (amount : Amount) (to : String) (key : Option String) (fees : String)
      → Yields HasHash (transfer_eth W amount to key fees)
  unfolding transfer_eth
  transfer_eth-HasHash amount to key fees = search (hash_rules, sent_coin-HasHash) depth 24

  transfer_bnb_bep20-HasHash :
      (amount : Amount) (to : String) (key : Option String) (fees : String)
      → Yields HasHash (transfer_bnb_bep20 W amount to key fees)
  unfolding transfer_bnb_bep20
  transfer_bnb_bep20-HasHash amount to key fees = search (hash_rules, sent) depth 24
    where
      sent : (b : Bool) → Yields HasHash (sent_bnb W amount to key b)
      sent true = search (hash_rules, sent_coin-HasHash) depth 24
      sent false = search (hash_rules) depth 24

  bitcoin_reply-HasHash : (h : Option String) → HasHash (bitcoin_reply W h)
  bitcoin_reply-HasHash none e = cc
  bitcoin_reply-HasHash (some h) e = (h, refl)

  send_bitcoin-HasHash :
      (amount : Amount) (to : String) (key : Option String) (fees : String)
      → Yields HasHash (send_bitcoin W amount to key fees)
  unfolding send_bitcoin
  send_bitcoin-HasHash amount to key fees = search (hash_rules, sent) depth 24
    where
      sent : (b : Bool) → Yields HasHash (sent_bitcoin W amount to key b)
      sent true = search (hash_rules) depth 24
      sent false = search (hash_rules, bitcoin_reply-HasHash) depth 24

  beacon_reply-HasHash : (r : Option (Option String)) → Yields HasHash (beacon_reply W r)
  beacon_reply-HasHash none = search (hash_rules) depth 24
  beacon_reply-HasHash (some none) = search (hash_rules) depth 24
  beacon_reply-HasHash (some (some h)) = Yields-pure _ (λ e. (h, refl))

  transfer_bnb_bep2-HasHash :
      (amount : Amount) (to : String) (key : Option String) (memo : String)
      → Yields HasHash (transfer_bnb_bep2 W amount to key memo)
  unfolding transfer_bnb_bep2
  transfer_bnb_bep2-HasHash amount to key memo = search (hash_rules, checked) depth 24
    where
      sent : (b : Bool) → Yields HasHash (sent_beacon W amount to memo b)
      sent true = search (hash_rules) depth 24
      sent false = search (hash_rules, beacon_reply-HasHash) depth 24

      checked : (free : Option String) → Yields HasHash (beacon_checked W amount to memo free)
      checked none = search (hash_rules) depth 24
      checked (some f) = search (hash_rules, sent) depth 24

  abbrev pub IsHashed : Option Response → Type 0
  IsHashed none = Unit
  IsHashed (some r) = HasHash r

  given-IsHashed : (m : Action (Desk W) Response) → Yields HasHash m → Yields IsHashed (given W m)
  given-IsHashed m h = Yields-map some h (λ r k. k)

  none-IsHashed : Yields {S = Desk W} IsHashed (pure none)
  none-IsHashed = Yields-pure none tt

  ruleset routed = (
    send_usdt_erc20-HasHash, transfer_bep20-HasHash, transfer_bep20_usdt-HasHash,
    transfer_eth-HasHash, transfer_bnb_bep20-HasHash, send_bitcoin-HasHash,
    transfer_bnb_bep2-HasHash, given-IsHashed, none-IsHashed, Yields-if,
  )

  -- Whatever the coin and the network, a transfer that reports success gives a hash.
  pub route-IsHashed :
      (dto : WithdrawalDto) (key : Option String) (fees : String) (c : Coin)
      → Yields IsHashed (route W dto key fees c)
  route-IsHashed dto key fees btc = search (routed) depth 24
  route-IsHashed dto key fees usdt = search (routed) depth 24
  route-IsHashed dto key fees eth = search (routed) depth 24
  route-IsHashed dto key fees drnh = search (routed) depth 24
  route-IsHashed dto key fees bnb = search (routed) depth 24
  route-IsHashed dto key fees busd = Yields-pure none tt
  route-IsHashed dto key fees trx = Yields-pure none tt
