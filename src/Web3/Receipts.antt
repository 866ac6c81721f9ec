-- ===== src/Web3/Receipts.antt =====
-- What the receipts of src/web3/web3.service.ts say.
use exchange_backend.Base.{
  String, ◌≡◌, ◌≤◌, refl, Bool, true, false, Option, none, some, is_text, str_eq, if◌then◌else◌,
  leb, leb→le, eq_iff, inl, inr, Bool-cases,
}
use exchange_backend.Base.Int.{ℤ, pos, negsuc}
use exchange_backend.Base.Action.{ok, type_error, Ends-ok, Ends-pure, Ends-throw, ◌>>=◌}
use exchange_backend.Base.Keeping.{Yields, Yields-pure, Yields-throw, Yields-bind}
use exchange_backend.Custody.World.{CustodyEnv}
use exchange_backend.Custody.Consumers.{FoundReceipt, no_receipt, receipt_count, receipt}
use exchange_backend.Web3.Service.{
  Web3, Node, Network, network_of, target_count, ChainReceipt, counted_receipt, confirmed_if,
  checked_receipt, find_receipt,
}

module _ (E : CustodyEnv) (C : Web3) where
  -- A receipt is of the sender that was asked for and has the confirmations of its network, and there is
  -- never a mere count.
  abbrev pub IsConfirmed : Option String → Network → FoundReceipt → Type 0
  IsConfirmed from_address network no_receipt = Unit
  IsConfirmed from_address network (receipt_count n) = ⊥
  IsConfirmed from_address network (receipt r) =
      (target_count network ≤ r.confirmation_count)
      × ((sender : String) × (from_address ≡ some sender)
          × (C.to_lower_case r.from ≡ C.to_lower_case sender))

  module _ (network : Network) where
    counted_receipt-IsConfirmed :
        (g : ChainReceipt) (sender : String) (count : Option ℤ)
        → C.to_lower_case g.from ≡ C.to_lower_case sender
        → IsConfirmed (some sender) network (counted_receipt E C g network count)
    counted_receipt-IsConfirmed g sender none e = tt
    counted_receipt-IsConfirmed g sender (some (negsuc n)) e = tt
    counted_receipt-IsConfirmed g sender (some (pos n)) e =
        elim (Bool-cases (leb (target_count network) n)) [
          | inl enough ↦ rw enough (leb→le _ n enough, (sender, refl, e))
          | inr few ↦ rw few tt
        ]

    confirmed_if-IsConfirmed :
        (g : ChainReceipt) (from_address : Option String) (count : Option ℤ) (b : Bool)
        → Yields
            (IsConfirmed from_address network)
            (confirmed_if E C g from_address network count b)
    unfolding ◌>>=◌
    confirmed_if-IsConfirmed g from_address count false = Yields-pure no_receipt tt
    confirmed_if-IsConfirmed g none count true = record { yields = λ n. Ends-throw type_error n tt }
    confirmed_if-IsConfirmed g (some sender) count true = record {
      yields = λ n.
          Ends-pure _ n (chosen (str_eq (C.to_lower_case g.from) (C.to_lower_case sender)) refl);
    }
      where
        chosen :
            (b : Bool)
            → str_eq (C.to_lower_case g.from) (C.to_lower_case sender) ≡ b
            → IsConfirmed
                (some sender)
                network
                (if b then counted_receipt E C g network count else no_receipt)
        chosen true e = counted_receipt-IsConfirmed g sender count ((eq_iff _ _).0 e)
        chosen false e = tt

  checked_receipt-IsConfirmed :
      (hash from_address network : Option String) (g : Option ChainReceipt)
      → Yields
          (IsConfirmed from_address (network_of network))
          (checked_receipt E C hash from_address network g)
  checked_receipt-IsConfirmed hash from_address network none = Yields-throw type_error
  checked_receipt-IsConfirmed hash from_address network (some g) = Yields-bind _ _ (λ count.
      confirmed_if-IsConfirmed (network_of network) g from_address count
        (is_text hash g.transaction_hash))

  pub find_receipt-Yields :
      (hash from_address network : Option String)
      → Yields
          (IsConfirmed from_address (network_of network))
          (find_receipt E C hash from_address network)
  unfolding find_receipt
  find_receipt-Yields hash from_address network =
      Yields-bind _ _ (λ g. checked_receipt-IsConfirmed hash from_address network g)

  -- What `receipt` gives, whatever the chain answers: never a mere count of confirmations, and a receipt only
  -- where its sender is the one that was asked for, but for the case of the letters, and its confirmations
  -- are at least the target of the network, 4 on BEP20 and 12 on any other.
  pub find_receipt-IsConfirmed :
      (hash from_address network : Option String) (n : Node E C) (found : FoundReceipt)
      → (find_receipt E C hash from_address network n).0 ≡ ok found
      → IsConfirmed from_address (network_of network) found
  find_receipt-IsConfirmed hash from_address network n found e =
      Ends-ok _ _ ((find_receipt-Yields hash from_address network).yields n) e
