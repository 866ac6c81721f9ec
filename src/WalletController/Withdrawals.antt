-- ===== src/WalletController/Withdrawals.antt =====
-- What the request `withdrawal` of src/wallet/wallet.controller.ts leaves in the table of withdrawals.
use exchange_backend.Base.{
  ℕ, String, ◌≡◌, refl, Bool, true, false, Option, none, some, List, str_eq, if◌then◌else◌, inl,
  inr, Option-cases,
}
use exchange_backend.Base.Action.{
  Exception, Action, pure, throw, type_error, Ends, Ends-pure, Ends-throw, ◌>>=◌,
}
use exchange_backend.Base.Keeping.{Keeps, Keeps-bind, Keeps-pure, Keeps-ap}
use exchange_backend.Base.Following.{
  Follows-pure, Follows-throw, Follows-if, Follows-after, Follows-then, Ends-catch,
}
use exchange_backend.Repository.{IsReliable, RejectsSome}
use exchange_backend.Custody.Entity.{
  column_of, Coin, Wallet, Withdrawal, TokenAddressBalance, ErrorSave,
}
use exchange_backend.Custody.World.{IsLawfulCustody, Vault, withdrawal_rows}
use exchange_backend.Custody.Database.{
  save_error, search_address, find_db_withdrawal_source_address,
}
use exchange_backend.WalletController.World.{WalletEnv, Desk, NetworkFee, on_vault}
use exchange_backend.WalletController.Transfers.{Response, failure}
use exchange_backend.WalletController.Requests.{
  WithdrawalDto, get_network_fees, try_withdrawal, withdrawal, settled, recorded_if, left_to_admin,
  from_source, pay, with_rows, exceeds_balance, total_of, refusal,
}
use exchange_backend.WalletController.Frames.{vault_of, route-Keeps}
use exchange_backend.WalletController.Hashes.{HasHash, IsHashed, route-IsHashed}
use exchange_backend.WalletController.Recording.{
  rows_of, Recorded, Records, Replied, Recorded-success, saved-Records,
}

module _ (W : WalletEnv) where
  on_vault-Keeps :
      {A : Type 0} {m : Action (Vault W.custody) A}
      → Keeps (withdrawal_rows W.custody) m
      → Keeps (rows_of W) (on_vault W m)
  on_vault-Keeps h = record { keeps = λ d. h.keeps d.vault }

  source-Keeps :
      (coin : Coin) (network : String) (amount : ℕ)
      → Keeps
          (withdrawal_rows W.custody)
          (find_db_withdrawal_source_address W.custody coin network amount)
  unfolding find_db_withdrawal_source_address
  source-Keeps coin network amount =
      Keeps-bind (withdrawal_rows W.custody) (record { keeps = λ v. refl }) (λ x. Keeps-pure _ _)

  search_address-Keeps :
      (user_id : ℕ) (network : String)
      → Keeps (withdrawal_rows W.custody) (search_address W.custody user_id network)
  unfolding search_address
  search_address-Keeps user_id network =
      Keeps-bind (withdrawal_rows W.custody) (record { keeps = λ v. refl }) (λ x. Keeps-pure _ _)

  save_error-Keeps :
      (e : Exception) (origin : String)
      → Keeps (withdrawal_rows W.custody) (save_error W.custody e origin)
  unfolding save_error
  save_error-Keeps e origin =
      Keeps-bind (withdrawal_rows W.custody) (record { keeps = λ v. refl }) (λ x. Keeps-pure _ _)

  get_network_fees-Keeps : (network : String) → Keeps (rows_of W) (get_network_fees W network)
  unfolding get_network_fees
  get_network_fees-Keeps network =
      Keeps-bind (rows_of W) (record { keeps = λ v. refl }) (λ x. Keeps-pure _ _)

module _ (W : WalletEnv) (L : IsLawfulCustody W.custody) (R : IsReliable W.custody.withdrawals)
    (dto : WithdrawalDto) (rows : List Withdrawal) where
  abbrev Quiet : Action (Desk W) Response → Type 0
  Quiet = Records W dto rows

  failure-Records : (message : String) (hash : Option String) → Quiet (pure (failure message hash))
  failure-Records message hash =
      Follows-pure (rows_of W) rows (Replied W dto rows) (failure message hash) refl

  null-Records : Quiet (throw type_error)
  null-Records = Follows-throw (rows_of W) rows (Replied W dto rows) type_error

  choice-Records :
      (b : Bool) {m n : Action (Desk W) Response} → Quiet m → Quiet n → Quiet (if b then m else n)
  choice-Records = Follows-if (rows_of W) rows (Replied W dto rows)

  left_to_admin-Records : Quiet (left_to_admin W dto)
  left_to_admin-Records = saved-Records W L R dto none none _ _ _ refl refl rows

  recorded_if-Records :
      (from_address : String) (r : Response) (b : Bool) (hash : Option String)
      → HasHash r
      → r.success ≡ b
      → r.hash ≡ hash
      → Quiet (recorded_if W dto from_address r b hash)
  recorded_if-Records from_address r true (some hash) h s e =
      saved-Records W L R dto _ _ _ _ r s e rows
  recorded_if-Records from_address r true none h s e = absurd (no_hash (h s))
    where
      no_hash : (x : String) × (r.hash ≡ some x) → ⊥
      no_hash (x, q) = cc
  recorded_if-Records from_address r false hash h s e =
      Follows-pure (rows_of W) rows (Replied W dto rows) r
        (Recorded-success W dto rows rows r false s refl)

  settled-Records :
      (from_address : String) (r : Option Response)
      → IsHashed W r
      → Quiet (settled W dto from_address r)
  settled-Records from_address none h = null-Records
  settled-Records from_address (some r) h =
      recorded_if-Records from_address r r.success r.hash h refl refl

  from_source-Records :
      (wallet : Wallet) (fees : String) (source : Option TokenAddressBalance)
      → Quiet (from_source W dto wallet fees source)
  from_source-Records wallet fees none = left_to_admin-Records
  from_source-Records wallet fees (some source) =
      choice-Records (str_eq source.address "") left_to_admin-Records (
        Follows-after (rows_of W) rows (Replied W dto rows)
          (Keeps-ap (vault_of W) (withdrawal_rows W.custody) _
            (route-Keeps W dto wallet.private_key fees dto.coin))
          (route-IsHashed W dto wallet.private_key fees dto.coin) (settled-Records source.address))

  pay-Records : (wallet : Wallet) (fees : String) → Quiet (pay W dto wallet fees)
  pay-Records wallet fees =
      choice-Records (exceeds_balance W (total_of W dto fees) (column_of dto.coin) wallet)
        (failure-Records _ _)
        (Follows-then (rows_of W) rows (Replied W dto rows)
          (on_vault-Keeps W (source-Keeps W _ _ _)) (from_source-Records wallet fees))

  with_rows-Records :
      (fees : Option NetworkFee) (wallet : Option Wallet) → Quiet (with_rows W dto fees wallet)
  with_rows-Records fees none = null-Records
  with_rows-Records none (some wallet) = null-Records
  with_rows-Records (some fees) (some wallet) = pay-Records wallet _

  try_withdrawal-Records : Quiet (try_withdrawal W dto)
  unfolding try_withdrawal
  try_withdrawal-Records =
      Follows-then (rows_of W) rows (Replied W dto rows) (get_network_fees-Keeps W _) (λ fees.
        Follows-then (rows_of W) rows (Replied W dto rows)
          (on_vault-Keeps W (search_address-Keeps W _ _)) (λ wallet. with_rows-Records fees wallet))

  refusal-Ends :
      (e : Exception) (t : Desk W)
      → rows_of W t ≡ rows
      → Ends
          (λ d. (rows_of W d ≡ rows) × RejectsSome W.custody.errors)
          (λ reply d. Replied W dto rows reply (rows_of W d))
          (refusal W e t)
  unfolding save_error ◌>>=◌
  refusal-Ends e t h =
      let row : ErrorSave = record { id = 0; error = e; origin = "Withdrawal function" } in
      elim (Option-cases (W.custody.errors.save row t.vault.errors).0) [
        | inl f ↦ rw f (Ends-throw _ _ (h, (row, t.vault.errors, f)))
        | inr (saved, f) ↦ rw f (Ends-pure _ _ h)
      ]

module _ (W : WalletEnv) (L : IsLawfulCustody W.custody)
    (R : IsReliable W.custody.withdrawals) where
  -- Over a lawful custody, if the database rejects no call on the withdrawals, then whatever the libraries of
  -- the chains do, the request `withdrawal` gives a reply, or ends in an exception that leaves the rows as they
  -- were, and then a call to save an error was rejected. A reply of success leaves exactly one row more: it
  -- has the user, the receiver, the coin, the network and the amount of the request, and the transaction hash
  -- of the reply. With any other reply the rows are those from before.
  pub withdrawal-Recorded :
      (dto : WithdrawalDto) (d : Desk W)
      → Ends
          (λ e. (rows_of W e ≡ rows_of W d) × RejectsSome W.custody.errors)
          (λ reply e. Recorded W dto (rows_of W d) reply reply.success (rows_of W e))
          (withdrawal W dto d)
  unfolding withdrawal
  withdrawal-Recorded dto d =
      let rows : List Withdrawal = rows_of W d in
      Ends-catch (rows_of W) rows (Replied W dto rows) (try_withdrawal-Records W L R dto rows)
        (refusal-Ends W L R dto rows) d refl
