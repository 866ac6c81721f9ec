-- ===== src/Web3/Frames.antt =====
-- What the calls of src/web3/web3.service.ts leave: the tables of withdrawals and of deposits.
use exchange_backend.Base.{
  ℕ, String, ◌≡◌, refl, Bool, true, false, Option, none, some, List, [], ◌∷◌,
}
use exchange_backend.Base.Int.{ℤ}
use exchange_backend.Base.Action.{Action, Exception}
use exchange_backend.Base.Keeping.{
  Keeps, Keeps-bind, Keeps-pure, Keeps-ignore, Yields, Yields-pure, Yields-bind, keeps_rules,
}
use exchange_backend.Custody.World.{CustodyEnv, Vault}
use exchange_backend.Custody.Database.{save_error}
use exchange_backend.Custody.Consumers.{nothing, for_each}
use exchange_backend.Web3.Service.{
  Web3, Node, computed, since, sender_matches, network_of, on_vault, on_chain, ListedTransaction,
  examine, find_transaction_for_deposit, find_receipt, get_confirmations, checked_receipt,
  confirmed_if, ChainReceipt,
}

module _ (E : CustodyEnv) (C : Web3) where
  abbrev pub tables : Vault E → E.withdrawals.State × E.deposits.State
  tables v = (v.withdrawals, v.deposits)

  abbrev pub tables_of : Node E C → E.withdrawals.State × E.deposits.State
  tables_of n = tables n.vault

  on_chain-Keeps :
      {A : Type 0} (call : C.State → Option A × C.State) → Keeps tables_of (on_chain E C call)
  on_chain-Keeps call = record { keeps = λ n. refl }

  vault_error-Keeps : (e : Exception) (origin : String) → Keeps tables (save_error E e origin)
  unfolding save_error
  vault_error-Keeps e origin =
      Keeps-bind tables (record { keeps = λ v. refl }) (λ x. Keeps-pure _ _)

  pub save_error-Keeps :
      (e : Exception) (origin : String) → Keeps tables_of (on_vault E C (save_error E e origin))
  save_error-Keeps e origin = record { keeps = λ n. (vault_error-Keeps e origin).keeps n.vault }

  computed-Keeps : {A : Type 0} (r : Option A) → Keeps tables_of (computed E C r)
  computed-Keeps r = record { keeps = λ n. refl }

  ruleset service_rules = (keeps_rules, on_chain-Keeps, save_error-Keeps, computed-Keeps)

  since-Keeps :
      (current_block : ℕ) (trx : Option (Option ℕ)) → Keeps tables_of (since E C current_block trx)
  since-Keeps current_block none = search (service_rules) depth 24
  since-Keeps current_block (some none) = search (service_rules) depth 24
  since-Keeps current_block (some (some block)) = search (service_rules) depth 24

  get_confirmations-Keeps :
      (hash : String) (network : Option String)
      → Keeps tables_of (get_confirmations E C hash network)
  unfolding get_confirmations
  get_confirmations-Keeps hash network = search (service_rules, since-Keeps) depth 24

  sender_matches-Keeps :
      (from : String) (address : Option String) → Keeps tables_of (sender_matches E C from address)
  sender_matches-Keeps from none = search (service_rules) depth 24
  sender_matches-Keeps from (some address) = search (service_rules) depth 24

  pub find_receipt-Keeps :
      (hash address network : Option String)
      → Keeps tables_of (find_receipt E C hash address network)
  unfolding find_receipt
  find_receipt-Keeps hash address network = search (service_rules, checked) depth 24
    where
      confirmed :
          (g : ChainReceipt) (count : Option ℤ) (b : Bool)
          → Keeps tables_of (confirmed_if E C g address (network_of network) count b)
      confirmed g count false = search (service_rules) depth 24
      confirmed g count true = search (service_rules, sender_matches-Keeps) depth 24

      checked :
          (g : Option ChainReceipt) → Keeps tables_of (checked_receipt E C hash address network g)
      checked none = search (service_rules) depth 24
      checked (some g) = search (service_rules, get_confirmations-Keeps, confirmed) depth 24

  examine-Keeps :
      (address : String) (amount : Option ℕ) (network : Option String) (block : Option ℕ)
      (v : ListedTransaction)
      → Keeps tables_of (examine E C address amount network block v)
  unfolding examine
  examine-Keeps address amount network block v = search (service_rules) depth 24

  for_each-Keeps :
      {A : Type 0} (f : A → Action (Node E C) (Unit {0}))
      → ((x : A) → Keeps tables_of (f x))
      → (xs : List A) → Keeps tables_of (for_each f xs)
  for_each-Keeps f h [] = search (service_rules) depth 24
  for_each-Keeps f h (x ∷ xs) = Keeps-bind _ (Keeps-ignore _ (h x)) (λ _. for_each-Keeps f h xs)

  pub find_transaction-Keeps :
      (address : String) (amount : Option ℕ) (network : Option String) (block : Option ℕ)
      → Keeps tables_of (find_transaction_for_deposit E C address amount network block)
  unfolding find_transaction_for_deposit
  find_transaction-Keeps address amount network block =
      search (service_rules, for_each-Keeps, examine-Keeps) depth 24

  pub find_transaction-nothing :
      (address : String) (amount : Option ℕ) (network : Option String) (block : Option ℕ)
      → Yields
          (λ found. found ≡ nothing)
          (find_transaction_for_deposit E C address amount network block)
  unfolding find_transaction_for_deposit
  find_transaction-nothing address amount network block =
      Yields-bind _ _ (λ _. Yields-pure nothing refl)
