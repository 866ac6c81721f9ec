-- ===== src/WalletController/Unregistered.antt =====
-- The request `deposit` of src/wallet/wallet.controller.ts as src/app.module.ts sets the connection up: the
-- entity `ErrorSave` is not in its list, so `saveError` of src/database/database.service.ts is rejected.
use mathlib.Core.List.{head?}
use exchange_backend.Base.{
  ◌≡◌, refl, sym, ◌∙◌, inl, inr, Bool, true, false, Option, none, some, Option-cases, List, [], ◌∷◌,
  subst, String,
}
use exchange_backend.Base.Action.{Exception, Action, Ends, Ends-pure, Ends-throw, ◌>>=◌}
use exchange_backend.Base.Following.{
  Follows, Follows-pure, Follows-catch, Follows-looked, Follows-then,
}
use exchange_backend.Repository.{IsUnregistered}
use exchange_backend.Repository.Laws.{find-nothing}
use exchange_backend.Custody.Entity.{Deposit}
use exchange_backend.Custody.World.{IsLawfulCustody}
use exchange_backend.Custody.Database.{save_error, check_for_pending_deposit}
use exchange_backend.WalletController.World.{WalletEnv, Desk, on_vault, on_chain}
use exchange_backend.WalletController.Requests.{
  DepositDto, Reply, provider_of, deposit, current_block, unless_pending, try_deposit,
}
use exchange_backend.WalletController.Deposits.{rows_of, IsFree, asked}

-- The refusal of a request while there is an open deposit.
abbrev pub already_pending : Reply
already_pending = record {
  success = false;
  message = "There is already a pending transaction at this addresss,Please wait";
}

module _ (W : WalletEnv) (U : IsUnregistered W.custody.errors) (L : IsLawfulCustody W.custody)
    (dto : DepositDto) (rows : List Deposit) where
  abbrev Refused : Option Reply → List Deposit → Type 0
  Refused reply later = (later ≡ rows) × (reply ≡ some already_pending) × ¬ (IsFree W dto rows)

  -- What stands behind a call to save an error does not run.
  save_error-Follows :
      {A : Type 0} {Done : A → List Deposit → Type 0} (e : Exception) (origin : String)
      (next : Unit {0} → Action (Desk W) A)
      → Follows (rows_of W) rows Done (on_vault W (save_error W.custody e origin) >>= next)
  unfolding save_error ◌>>=◌
  save_error-Follows e origin next = record {
    follows = λ d h.
        rw (U.rejects (record { id = 0; error = e; origin = origin }) d.vault.errors)
          (Ends-throw _ _ h);
  }

  current_block-Follows :
      Follows
        (rows_of W)
        rows
        (λ block later. (later ≡ rows) × (block ≡ none))
        (current_block W dto)
  current_block-Follows =
      Follows-catch (rows_of W) rows _
        (Follows-then (rows_of W) rows _
          {m = on_chain W (W.chain.scanned_block (provider_of W dto.network))}
          (record { keeps = λ d. refl })
          (λ block. Follows-pure (rows_of W) rows _ none (refl, refl)))
        (λ e. save_error-Follows e _ _)

  looked :
      Follows
        (rows_of W)
        rows
        (λ already later. (later ≡ rows) × (already ≡ true → ¬ (IsFree W dto rows)))
        (on_vault W
          (check_for_pending_deposit W.custody dto.user_id dto.coin dto.network dto.to_address))
  unfolding check_for_pending_deposit ◌>>=◌
  looked = record {
    follows = λ d e.
        elim (Option-cases (W.custody.deposits.find (asked W L dto rows) d.vault.deposits).0) [
          | inl f ↦ rw f (
              Ends-throw _ _
                (L.deposits_lawful.rows-find (asked W L dto rows) d.vault.deposits ∙ e))
          | inr (found, f) ↦ rw f (
              Ends-pure _ _ (
                L.deposits_lawful.rows-find (asked W L dto rows) d.vault.deposits ∙ e,
                λ some_found free. found_one found some_found (
                    find-nothing L.deposits_lawful (asked W L dto rows) d.vault.deposits f
                      (subst (IsFree W dto) (sym e) free)),
              ))
        ];
  }
    where
      found_one :
          (found : List Deposit)
          → elim (head? found) [ none ↦ false | some d ↦ true ] ≡ true
          → ¬ (found ≡ [])
      found_one [] h = cc
      found_one (x ∷ xs) h = cc

  unless_pending-Follows :
      (already : Bool)
      → (already ≡ true → ¬ (IsFree W dto rows))
      → Follows (rows_of W) rows Refused (unless_pending W dto already)
  unless_pending-Follows true taken =
      Follows-pure (rows_of W) rows Refused _ (refl, refl, taken refl)
  unless_pending-Follows false taken =
      Follows-looked (rows_of W) rows Refused (λ block. block ≡ none) current_block-Follows
        (λ block e. rw e (save_error-Follows _ _ _))

  deposit-Follows : Follows (rows_of W) rows Refused (deposit W dto)
  unfolding deposit try_deposit
  deposit-Follows =
      Follows-catch (rows_of W) rows Refused
        (Follows-looked (rows_of W) rows Refused _ looked unless_pending-Follows)
        (λ e. save_error-Follows e _ _)

module _ (W : WalletEnv) (U : IsUnregistered W.custody.errors) (L : IsLawfulCustody W.custody) where
  -- Over a lawful custody whose connection does not have the entity of the errors, the request `deposit`
  -- adds no deposit, whatever the request, the scanner, the chains and the state. It ends in an exception, or
  -- with the refusal that a transaction is pending, and then a deposit that is not deleted has the user, the
  -- coin, the network and the address of the request.
  pub deposit-adds_none :
      (dto : DepositDto) (d : Desk W)
      → Ends
          (λ e. rows_of W e ≡ rows_of W d)
          (λ reply e.
            (rows_of W e ≡ rows_of W d)
            × (reply ≡ some already_pending)
            × ¬ (IsFree W dto (rows_of W d)))
          (deposit W dto d)
  deposit-adds_none dto d = (deposit-Follows W U L dto (rows_of W d)).follows d refl
