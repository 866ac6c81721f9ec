-- ===== src/WalletController/Deposits.antt =====
-- What the request `deposit` of src/wallet/wallet.controller.ts leaves in the table of deposits.
use mathlib.Core.List.{head?}
use exchange_backend.Base.{
  ℕ, zero, suc, String, ◌≡◌, refl, sym, ap, ◌∙◌, subst, inl, inr, Bool, true, false, Option, none,
  some, Option-cases, List, [], ◌∷◌, ◌++◌, str_eq, if◌then◌else◌,
}
use exchange_backend.Base.Lists.{All, Ordered, Ordered-append, All-map}
use exchange_backend.Base.Action.{
  Exception, Action, pure, Ends-pure, Ends-throw, Ends-mono, Ends-state, Ends, ◌>>=◌,
}
use exchange_backend.Base.Keeping.{Keeps, Keeps-bind, Keeps-pure, keeps_rules}
use exchange_backend.Base.Following.{
  Follows, Follows-pure, Follows-then, Follows-looked, Follows-catch, Ends-catch,
}
use exchange_backend.Repository.{FindOptions, RejectsSome}
use exchange_backend.Repository.Laws.{nothing-found, save-cases}
use exchange_backend.Custody.Entity.{Deposit, ErrorSave}
use exchange_backend.Custody.World.{IsLawfulCustody, Vault, deposit_rows, deposit_keyed}
use exchange_backend.Custody.Database.{
  save_error, save_deposit, new_deposit, is_open_deposit, check_for_pending_deposit,
}
use exchange_backend.WalletController.World.{WalletEnv, Desk, on_vault, on_chain}
use exchange_backend.WalletController.Requests.{
  DepositDto, Reply, deposit, current_block, open_deposit, at_block, unless_pending, refused_with,
  try_deposit,
}

module _ (W : WalletEnv) where
  abbrev pub rows_of : Desk W → List Deposit
  rows_of d = deposit_rows W.custody d.vault

  -- No deposit that is not deleted has the user, the coin, the network and the address of the request.
  abbrev pub IsFree : DepositDto → List Deposit → Type 0
  IsFree dto = All (λ r. is_open_deposit dto.user_id dto.coin dto.network dto.to_address r ≡ false)

  abbrev pub Matches : DepositDto → Deposit → Type 0
  Matches dto r =
      (id time block : ℕ) × (r
        ≡ deposit_keyed id time
            (new_deposit W.custody dto.user_id dto.to_address dto.coin dto.network block))

  -- Without a reply there is a row more, and with one there is not.
  abbrev pub Deposited : DepositDto → List Deposit → Option Reply → List Deposit → Type 0
  Deposited dto rows none later =
      IsFree dto rows × ((r : Deposit) × Matches dto r × (later ≡ rows ++ (r ∷ [])))
  Deposited dto rows (some reply) later = later ≡ rows

  on_vault-Keeps :
      {A : Type 0} {m : Action (Vault W.custody) A}
      → Keeps (deposit_rows W.custody) m
      → Keeps rows_of (on_vault W m)
  on_vault-Keeps h = record { keeps = λ d. h.keeps d.vault }

  save_error-Keeps :
      (e : Exception) (origin : String)
      → Keeps (deposit_rows W.custody) (save_error W.custody e origin)
  unfolding save_error
  save_error-Keeps e origin =
      Keeps-bind (deposit_rows W.custody) (record { keeps = λ v. refl }) (λ x. Keeps-pure _ _)

  on_chain-Keeps :
      {A : Type 0} (call : W.chain.State → Option A × W.chain.State)
      → Keeps rows_of (on_chain W call)
  on_chain-Keeps call = record { keeps = λ d. refl }

  ruleset quiet_rules = (keeps_rules, on_vault-Keeps, save_error-Keeps, on_chain-Keeps)

  current_block-Keeps : (dto : DepositDto) → Keeps rows_of (current_block W dto)
  current_block-Keeps dto = search (quiet_rules) depth 24

  module _ (L : IsLawfulCustody W.custody) (dto : DepositDto) (rows : List Deposit) where
    abbrev Deposits : Action (Desk W) (Option Reply) → Type 0
    Deposits = Follows rows_of rows (Deposited dto rows)

    reply-Deposits : (r : Reply) → Deposits (pure (some r))
    reply-Deposits r = Follows-pure rows_of rows (Deposited dto rows) (some r) refl

    apology-Deposits :
        (e : Exception) (origin : String) (r : Reply)
        → Deposits (on_vault W (save_error W.custody e origin) >>= λ _. pure (some r))
    apology-Deposits e origin r =
        Follows-then rows_of rows (Deposited dto rows) (on_vault-Keeps (save_error-Keeps e origin))
          (λ _. reply-Deposits r)

    abbrev pub asked : FindOptions Deposit
    asked = record {
      condition = is_open_deposit dto.user_id dto.coin dto.network dto.to_address;
      order = [];
      limit = some 1;
    }

    looked :
        Follows rows_of rows
          (λ already later. (later ≡ rows) × (already ≡ false → IsFree dto rows))
          (on_vault W
            (check_for_pending_deposit W.custody dto.user_id dto.coin dto.network dto.to_address))
    unfolding check_for_pending_deposit ◌>>=◌
    looked = record {
      follows = λ d e. elim (Option-cases (W.custody.deposits.find asked d.vault.deposits).0) [
        | inl f ↦ rw f (Ends-throw _ _ (L.deposits_lawful.rows-find asked d.vault.deposits ∙ e))
        | inr (found, f) ↦ rw f (
            Ends-pure _ _ (
              L.deposits_lawful.rows-find asked d.vault.deposits ∙ e,
              λ none_found. subst (IsFree dto) e (
                  nothing-found L.deposits_lawful asked d.vault.deposits f 0 refl
                    (empty found none_found)),
            ))
      ];
    }
      where
        empty :
            (found : List Deposit)
            → elim (head? found) [ none ↦ false | some d ↦ true ] ≡ false
            → found ≡ []
        empty [] h = refl
        empty (x ∷ xs) h = cc

    abbrev opened : ℕ → Deposit
    opened block = new_deposit W.custody dto.user_id dto.to_address dto.coin dto.network block

    open_deposit-Deposits : (block : ℕ) → IsFree dto rows → Deposits (open_deposit W dto block)
    unfolding save_deposit ◌>>=◌
    open_deposit-Deposits block free = record {
      follows = λ d e. elim (save-cases L.deposits_lawful (opened block) d.vault.deposits refl) [
        | inl (f, same) ↦ rw f (Ends-throw _ _ (same ∙ e))
        | inr (r, f, (time, named), added) ↦ rw f (
            Ends-pure _ _ (
              free,
              (
                r,
                (r.id, time, block, named),
                flag (str_eq dto.network "Bitcoin") _ ∙ added ∙ ap (λ xs. xs ++ (r ∷ [])) e,
              ),
            ))
      ];
    }
      where
        flag :
            (b : Bool) (v : Vault W.custody)
            → deposit_rows W.custody (if b then v else record v { deposit_cron = true })
              ≡ deposit_rows W.custody v
        flag true v = refl
        flag false v = refl

    at_block-Deposits : (block : Option ℕ) → IsFree dto rows → Deposits (at_block W dto block)
    at_block-Deposits none free = apology-Deposits _ _ _
    at_block-Deposits (some zero) free = apology-Deposits _ _ _
    at_block-Deposits (some (suc n)) free =
        Follows-catch rows_of rows (Deposited dto rows) (open_deposit-Deposits (suc n) free)
          (λ e. apology-Deposits e _ _)

    unless_pending-Deposits :
        (already : Bool)
        → (already ≡ false → IsFree dto rows)
        → Deposits (unless_pending W dto already)
    unless_pending-Deposits true free = reply-Deposits _
    unless_pending-Deposits false free =
        Follows-then rows_of rows (Deposited dto rows) (current_block-Keeps dto)
          (λ block. at_block-Deposits block (free refl))

    try_deposit-Deposits : Deposits (try_deposit W dto)
    unfolding try_deposit
    try_deposit-Deposits =
        Follows-looked rows_of rows (Deposited dto rows) _ looked unless_pending-Deposits

    pub deposit-Follows : Deposits (deposit W dto)
    unfolding deposit
    deposit-Follows =
        Follows-catch rows_of rows (Deposited dto rows) try_deposit-Deposits
          (λ e. apology-Deposits e _ _)

    apologises :
        (e : Exception) (t : Desk W)
        → rows_of t ≡ rows
        → Ends
            (λ u. (rows_of u ≡ rows) × RejectsSome W.custody.errors)
            (λ reply u. Deposited dto rows reply (rows_of u))
            (refused_with W e t)
    unfolding save_error ◌>>=◌
    apologises e t h =
        let row : ErrorSave = record {
          id = 0;
          error = e;
          origin = "Error  deposit function walet comtrller";
        } in
        elim (Option-cases (W.custody.errors.save row t.vault.errors).0) [
          | inl f ↦ rw f (Ends-throw _ _ (h, (row, t.vault.errors, f)))
          | inr (saved, f) ↦ rw f (Ends-pure _ _ h)
        ]

module _ (W : WalletEnv) (L : IsLawfulCustody W.custody) where
  -- Over a lawful custody, whatever the scanner, the chains and the database answer, the request `deposit`
  -- ends in one of three ways. Without a reply, no deposit that is not deleted had the user, the coin, the
  -- network and the address of the request, and one row with them was added. With a reply, the deposits are
  -- those from before. With an exception, they are too, and a call to save an error was rejected.
  pub deposit-Deposited :
      (dto : DepositDto) (d : Desk W)
      → Ends
          (λ e. (rows_of W e ≡ rows_of W d) × RejectsSome W.custody.errors)
          (λ reply e. Deposited W dto (rows_of W d) reply (rows_of W e))
          (deposit W dto d)
  unfolding deposit
  deposit-Deposited dto d =
      let rows : List Deposit = rows_of W d in
      Ends-catch (rows_of W) rows (Deposited W dto rows) (try_deposit-Deposits W L dto rows)
        (apologises W L dto rows) d refl

  -- For an address at most the last deposit is not deleted.
  abbrev pub IsOneOpen : List Deposit → Type 0
  IsOneOpen = Ordered (λ r s. is_open_deposit s.user_id s.coin s.network s.to_address r ≡ false)

  snoc-IsOneOpen :
      (dto : DepositDto) (rows : List Deposit) (r : Deposit)
      → IsFree W dto rows
      → Matches W dto r
      → IsOneOpen rows
      → IsOneOpen (rows ++ (r ∷ []))
  snoc-IsOneOpen dto rows r free (id, time, block, e) h =
      Ordered-append _ rows (r ∷ []) h (tt, tt)
        (All-map _ _ (λ s closed. (rw e closed, tt)) rows free)

  -- Over a lawful custody, whatever the request and the answers of the scanner, of the chains and of the
  -- database, `deposit` keeps the invariant of the deposits: a row that is followed by one for the same user,
  -- coin, network and address is deleted.
  pub deposit-IsOneOpen :
      (dto : DepositDto) (d : Desk W)
      → IsOneOpen (rows_of W d)
      → IsOneOpen (rows_of W (deposit W dto d).1)
  deposit-IsOneOpen dto d h =
      Ends-state (λ e. IsOneOpen (rows_of W e)) (deposit W dto d)
        (Ends-mono (λ e q. subst IsOneOpen (sym q) h) (λ reply e. kept reply (rows_of W e))
          ((deposit-Follows W L dto (rows_of W d)).follows d refl))
    where
      kept :
          (reply : Option Reply) (later : List Deposit)
          → Deposited W dto (rows_of W d) reply later
          → IsOneOpen later
      kept none later (free, (r, m, e)) =
          subst IsOneOpen (sym e) (snoc-IsOneOpen dto (rows_of W d) r free m h)
      kept (some reply) later e = subst IsOneOpen (sym e) h
