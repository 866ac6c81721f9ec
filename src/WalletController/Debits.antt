-- ===== src/WalletController/Debits.antt =====
-- The request `withdrawal` of src/wallet/wallet.controller.ts and the balances of the wallets.
use exchange_backend.Base.{
  ℕ, String, ◌≡◌, refl, Bool, true, false, Option, none, some, List, str_eq, if◌then◌else◌,
}
use exchange_backend.Base.Action.{Exception, Action}
use exchange_backend.Base.Keeping.{Keeps, Keeps-bind, Keeps-pure, Keeps-ap, keeps_rules}
use exchange_backend.Custody.Entity.{Coin, Status, YesNo, Wallet, TokenAddressBalance}
use exchange_backend.Custody.World.{IsLawfulCustody, Vault, wallet_rows}
use exchange_backend.Custody.Database.{
  save_error, search_address, find_db_withdrawal_source_address, save_withdrawal,
}
use exchange_backend.WalletController.World.{WalletEnv, Desk, NetworkFee, on_vault}
use exchange_backend.WalletController.Transfers.{Response}
use exchange_backend.WalletController.Requests.{
  WithdrawalDto, route, get_network_fees, try_withdrawal, withdrawal, settled, recorded_if,
  from_source, with_rows,
}
use exchange_backend.WalletController.Frames.{vault_of, route-Keeps}

module _ (W : WalletEnv) (L : IsLawfulCustody W.custody) where
  abbrev wallets_of : Vault W.custody → List Wallet
  wallets_of = wallet_rows W.custody

  abbrev pub all_wallets : Desk W → List Wallet
  all_wallets d = wallets_of d.vault

  on_vault-Keeps :
      {A : Type 0} {m : Action (Vault W.custody) A}
      → Keeps wallets_of m
      → Keeps all_wallets (on_vault W m)
  on_vault-Keeps h = record { keeps = λ d. h.keeps d.vault }

  find_db_withdrawal_source_address-Keeps :
      (coin : Coin) (network : String) (amount : ℕ)
      → Keeps wallets_of (find_db_withdrawal_source_address W.custody coin network amount)
  unfolding find_db_withdrawal_source_address
  find_db_withdrawal_source_address-Keeps coin network amount =
      Keeps-bind wallets_of (record { keeps = λ v. refl }) (λ x. Keeps-pure _ _)

  search_address-Keeps :
      (user_id : ℕ) (network : String) → Keeps wallets_of (search_address W.custody user_id network)
  unfolding search_address
  search_address-Keeps user_id network =
      Keeps-bind wallets_of (record { keeps = λ v. L.wallets_lawful.rows-find _ _ })
        (λ x. Keeps-pure _ _)

  save_error-Keeps :
      (e : Exception) (origin : String) → Keeps wallets_of (save_error W.custody e origin)
  unfolding save_error
  save_error-Keeps e origin =
      Keeps-bind wallets_of (record { keeps = λ v. refl }) (λ x. Keeps-pure _ _)

  save_withdrawal-Keeps :
      (user_id : ℕ) (from_address : Option String) (to_address : String) (coin : Coin)
      (network : String) (amount : ℕ) (hash : Option String) (status : Status) (by_admin : YesNo)
      → Keeps wallets_of (
          save_withdrawal W.custody user_id from_address to_address coin network amount hash status
            by_admin)
  unfolding save_withdrawal
  save_withdrawal-Keeps user_id from_address to_address coin network amount hash status by_admin =
      Keeps-bind wallets_of (record { keeps = λ v. refl })
        (λ x. record { keeps = flag (str_eq network "Bitcoin") })
    where
      flag :
          (b : Bool) (v : Vault W.custody)
          → wallets_of (if b then v else record v { withdrawal_cron = true }) ≡ wallets_of v
      flag true v = refl
      flag false v = refl

  get_network_fees-Keeps : (network : String) → Keeps all_wallets (get_network_fees W network)
  unfolding get_network_fees
  get_network_fees-Keeps network =
      Keeps-bind all_wallets (record { keeps = λ v. refl }) (λ x. Keeps-pure _ _)

  routed-Keeps :
      (dto : WithdrawalDto) (key : Option String) (fees : String) (c : Coin)
      → Keeps all_wallets (route W dto key fees c)
  routed-Keeps dto key fees c = Keeps-ap (vault_of W) wallets_of _ (route-Keeps W dto key fees c)

  ruleset debit_rules = (
    keeps_rules, on_vault-Keeps, find_db_withdrawal_source_address-Keeps, search_address-Keeps,
    save_error-Keeps, save_withdrawal-Keeps, get_network_fees-Keeps, routed-Keeps,
  )

  module _ (dto : WithdrawalDto) where
    settled-Keeps :
        (from_address : String) (r : Option Response)
        → Keeps all_wallets (settled W dto from_address r)
    settled-Keeps from_address none = search (debit_rules) depth 24
    settled-Keeps from_address (some r) = recorded r.success r.hash
      where
        recorded :
            (b : Bool) (h : Option String)
            → Keeps all_wallets (recorded_if W dto from_address r b h)
        recorded true (some h) = search (debit_rules) depth 24
        recorded true none = search (debit_rules) depth 24
        recorded false h = search (debit_rules) depth 24

    from_source-Keeps :
        (wallet : Wallet) (fees : String) (source : Option TokenAddressBalance)
        → Keeps all_wallets (from_source W dto wallet fees source)
    from_source-Keeps wallet fees none = search (debit_rules) depth 24
    from_source-Keeps wallet fees (some source) = search (debit_rules, settled-Keeps) depth 24

    with_rows-Keeps :
        (fees : Option NetworkFee) (wallet : Option Wallet)
        → Keeps all_wallets (with_rows W dto fees wallet)
    with_rows-Keeps fees none = search (debit_rules) depth 24
    with_rows-Keeps none (some wallet) = search (debit_rules) depth 24
    with_rows-Keeps (some fees) (some wallet) = search (debit_rules, from_source-Keeps) depth 24

    try_withdrawal-Keeps : Keeps all_wallets (try_withdrawal W dto)
    unfolding try_withdrawal
    try_withdrawal-Keeps = search (debit_rules, with_rows-Keeps) depth 24

  -- Over a lawful custody the request `withdrawal` leaves every row of the wallets as it is: whatever the
  -- request, the state and the libraries of the chains, and also where the transfer is made, no balance
  -- of a user changes.
  pub withdrawal-wallet_rows :
      (dto : WithdrawalDto) (d : Desk W) → all_wallets (withdrawal W dto d).1 ≡ all_wallets d
  unfolding withdrawal
  withdrawal-wallet_rows dto d = paid.keeps d
    where
      paid : Keeps all_wallets (withdrawal W dto)
      paid = search (debit_rules, try_withdrawal-Keeps) depth 24
