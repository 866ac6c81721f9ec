-- ===== src/Web3/Jobs.antt =====
-- What the jobs of src/web3/deposit.consumer.ts and src/web3/withdrawal.consumer.ts do with what
-- src/web3/web3.service.ts finds.
use exchange_backend.Base.{
  ℕ, ◌≡◌, ◌≤◌, refl, ap, ◌∙◌, ◌⊎◌, inl, inr, none, List, [], ◌∷◌, map, leb, ◌==◌,
}
use exchange_backend.Base.Lists.{All}
use exchange_backend.Base.Distinct.{update-column}
use exchange_backend.Repository.Laws.{update-cases, update-rows-All}
use exchange_backend.Base.Action.{Action}
use exchange_backend.Base.Keeping.{Keeps, Keeps-bind, Keeps-pure, Keeps-if, Yields-any}
use exchange_backend.Base.Preserving.{
  Preserves, Preserves-pure, Preserves-after, Preserves-catch, Preserves-ignore, Keeps-Preserves,
}
use exchange_backend.Custody.Entity.{Status, Withdrawal, WithdrawalJob, Deposit, DepositJob}
use exchange_backend.Custody.World.{
  CustodyEnv, IsLawfulCustody, Vault, withdrawal_rows, deposit_rows, now,
}
use exchange_backend.Custody.Database.{
  update_withdrawal_by_id, update_deposit_by_id, WithdrawalUpdate, write_withdrawal, deleted,
  write_deposit,
}
use exchange_backend.Custody.Consumers.{
  FoundTransaction, nothing, FoundReceipt, no_receipt, receipt_count, receipt, for_each,
  handle_deposit, handle_withdrawal, expire_deposit, rounded_hours,
}
use exchange_backend.Web3.Service.{
  Web3, Node, on_vault, eth, process_deposit_job, process_withdrawal_job,
}
use exchange_backend.Web3.Frames.{
  tables_of, save_error-Keeps, find_receipt-Keeps, find_transaction-Keeps, find_transaction-nothing,
}
use exchange_backend.Web3.Receipts.{IsConfirmed, find_receipt-Yields}

module _ {S A : Type 0} (P : S → Type 0) where
  Preserves-for_each :
      (f : A → Action S (Unit {0}))
      → ((x : A) → Preserves P (f x))
      → (xs : List A) → Preserves P (for_each f xs)
  Preserves-for_each f h [] = Preserves-pure P tt
  Preserves-for_each f h (x ∷ xs) =
      Preserves-after P {Q = λ _. Unit} (Preserves-ignore P (h x)) (Yields-any _)
        (λ _ _. Preserves-for_each f h xs)

module _ (E : CustodyEnv) (C : Web3) where
  on_vault-Preserves :
      {A : Type 0} (P : Vault E → Type 0) {m : Action (Vault E) A}
      → Preserves P m
      → Preserves (λ (n : Node E C). P n.vault) (on_vault E C m)
  on_vault-Preserves P h = record { preserves = λ n p. h.preserves n.vault p }

  module _ (L : IsLawfulCustody E) where
    abbrev pub statuses : Vault E → List Status
    statuses v = map (λ d. d.status) (deposit_rows E v)

    delete-Keeps : (id : ℕ) → Keeps statuses (update_deposit_by_id E id deleted)
    unfolding update_deposit_by_id
    delete-Keeps id = record {
      keeps = λ v.
          elim (update-cases L.deposits_lawful (λ d. d.id == id) (write_deposit deleted)
            v.deposits) [
              | inl e ↦ ap (λ rows. map (λ (d : Deposit). d.status) rows) e
              | inr e ↦
                  ap (λ rows. map (λ (d : Deposit). d.status) rows) e
                  ∙ update-column (λ d. d.status) (λ d. d.id == id) (write_deposit deleted)
                      (λ d. refl) (deposit_rows E v)
            ];
    }

    expire_deposit-Keeps : (d : DepositJob) → Keeps statuses (expire_deposit E d)
    unfolding expire_deposit
    expire_deposit-Keeps d =
        Keeps-bind statuses (record { keeps = λ v. refl })
          (λ time.
            Keeps-if statuses (leb 6 (rounded_hours time d.created_at)) (delete-Keeps d.id)
              (Keeps-pure _ _))

    module _ (before : List Status) where
      abbrev Statuses : List Status → Type 0
      Statuses s = s ≡ before

      abbrev DepositsAs : Node E C → Type 0
      DepositsAs n = Statuses (statuses n.vault)

      found_deposit-Preserves :
          (d : DepositJob) (found : FoundTransaction)
          → found ≡ nothing
          → Preserves DepositsAs (on_vault E C (handle_deposit E d found))
      unfolding handle_deposit
      found_deposit-Preserves d found e = rw e (
          on_vault-Preserves (λ v. Statuses (statuses v))
            (Keeps-Preserves Statuses (expire_deposit-Keeps d)))

      tables-Preserves :
          {A : Type 0} {m : Action (Node E C) A} → Keeps (tables_of E C) m → Preserves DepositsAs m
      tables-Preserves h =
          Keeps-Preserves (λ t. map (λ (d : Deposit). d.status) (E.deposits.rows t.1) ≡ before) h

      process_deposit_job-Preserves :
          (jobs : List DepositJob) → Preserves DepositsAs (process_deposit_job E C jobs)
      unfolding process_deposit_job
      process_deposit_job-Preserves = Preserves-for_each DepositsAs _ (λ d.
          Preserves-catch DepositsAs
            (Preserves-after DepositsAs
              (tables-Preserves
                (find_transaction-Keeps E C d.to_address d.amount d.network d.start_block))
              (find_transaction-nothing E C d.to_address d.amount d.network d.start_block)
              (found_deposit-Preserves d))
            (λ e. tables-Preserves (save_error-Keeps E C e _)))

    -- Over a lawful custody, whatever the chain, the scanner and the database answer, a job of the deposit
    -- queue changes the status of no deposit: none is approved or rejected.
    pub process_deposit_job-statuses :
        (jobs : List DepositJob) (n : Node E C)
        → statuses (process_deposit_job E C jobs n).1.vault ≡ statuses n.vault
    process_deposit_job-statuses jobs n =
        (process_deposit_job-Preserves (statuses n.vault) jobs).preserves n refl

    -- Without a confirmation, or with the 12 that Ethereum asks for.
    abbrev pub IsCounted : Withdrawal → Type 0
    IsCounted w = (w.confirmations ≡ 0) ⊎ (12 ≤ w.confirmations)

    abbrev AllCounted : Vault E → Type 0
    AllCounted v = All IsCounted (withdrawal_rows E v)

    abbrev pub CountedNode : Node E C → Type 0
    CountedNode n = AllCounted n.vault

    update-Preserves :
        (id : ℕ) (u : WithdrawalUpdate)
        → ((w : Withdrawal) → IsCounted (write_withdrawal u w))
        → Preserves AllCounted (update_withdrawal_by_id E id u)
    unfolding update_withdrawal_by_id
    update-Preserves id u h = record {
      preserves = λ v.
          update-rows-All L.withdrawals_lawful (λ w. w.id == id) (write_withdrawal u) v.withdrawals
            IsCounted h;
    }

    handle_withdrawal-Preserves :
        (w : WithdrawalJob) (found : FoundReceipt)
        → IsConfirmed E C w.from_address eth found
        → Preserves AllCounted (handle_withdrawal E w found)
    unfolding handle_withdrawal
    handle_withdrawal-Preserves w no_receipt h = Preserves-pure AllCounted tt
    handle_withdrawal-Preserves w (receipt_count n) h = absurd h
    handle_withdrawal-Preserves w (receipt r) (enough, sender) =
        Preserves-after AllCounted {Q = λ _. Unit} now-Preserves (Yields-any _) (λ time _.
          Preserves-after AllCounted {Q = λ _. Unit} now-Preserves (Yields-any _)
            (λ date _. update-Preserves w.id _ (λ x. inr enough)))
      where
        now-Preserves : Preserves AllCounted (now E)
        now-Preserves = record { preserves = λ v h. h }

    quiet-Preserves :
        {A : Type 0} {m : Action (Node E C) A} → Keeps (tables_of E C) m → Preserves CountedNode m
    quiet-Preserves h = Keeps-Preserves (λ t. All IsCounted (E.withdrawals.rows t.0)) h

    process_withdrawal_job-Preserves :
        (jobs : List WithdrawalJob) → Preserves CountedNode (process_withdrawal_job E C jobs)
    unfolding process_withdrawal_job
    process_withdrawal_job-Preserves = Preserves-for_each CountedNode _ (λ w.
        Preserves-catch CountedNode
          (Preserves-after CountedNode
            (quiet-Preserves (find_receipt-Keeps E C w.transaction_hash w.from_address none))
            (find_receipt-Yields E C w.transaction_hash w.from_address none)
            (λ found h. on_vault-Preserves AllCounted (handle_withdrawal-Preserves w found h)))
          (λ e. quiet-Preserves (save_error-Keeps E C e _)))

    -- Over a lawful custody, whatever the chain and the database answer, a job of the withdrawal queue keeps
    -- the invariant that each withdrawal has no confirmation or at least 12: it writes no number below the
    -- target of Ethereum, also to the withdrawals on BEP20, whose target is 4.
    pub process_withdrawal_job-IsCounted :
        (jobs : List WithdrawalJob) (n : Node E C)
        → All IsCounted (withdrawal_rows E n.vault)
        → All IsCounted (withdrawal_rows E (process_withdrawal_job E C jobs n).1.vault)
    process_withdrawal_job-IsCounted jobs n h =
        (process_withdrawal_job-Preserves jobs).preserves n h
