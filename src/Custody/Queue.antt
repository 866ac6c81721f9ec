-- ===== src/Custody/Queue.antt =====
-- src/web3/queue.provider.ts, src/cron/cron.service.ts and the webhooks of src/app.controller.ts.
use exchange_backend.Base.{
  ℕ, ◌+◌, String, Bool, true, false, ◌&&◌, Option, none, some, List, [], ◌∷◌, ◌++◌, ltb,
  if◌then◌else◌,
}
use exchange_backend.Base.Action.{
  ignore, Action, ok, err, pure, database_error, type_error, ◌>>=◌, ◌>>◌,
}
use exchange_backend.Custody.Entity.{Coin, approved, WithdrawalJob, DepositJob}
use exchange_backend.Custody.World.{CustodyEnv, Vault}
use exchange_backend.Custody.Database.{
  get_pending_withdrawal, get_pending_deposits, update_withdrawal_status, update_webhook_id,
}

-- The body of a request to `webhook`.
pub record HookBody : Type 0 where
  pub block_hash : Option String
  pub block_height : ℕ
  pub confirmations : ℕ
  pub hash : String

pub record WebhookIdBody : Type 0 where
  pub hook_id : Option String
  pub hash : String
  pub to : String
  pub coin : Coin
  pub network : String

abbrev is_given : Option String → Bool
is_given none = false
is_given (some t) = true

module _ (E : CustodyEnv) where
  -- `add` of a queue is rejected if Bull does not take the job.
  abbrev pub add_job : (Vault E → Vault E) → Action (Vault E) (Unit {0})
  add_job put v =
      if E.queued v.ticks
      then (ok tt, put (record v { ticks = v.ticks + 1 }))
      else (err database_error, record v { ticks = v.ticks + 1 })

  abbrev pub enqueue_withdrawals : List WithdrawalJob → Bool → Action (Vault E) (Unit {0})
  enqueue_withdrawals found true = pure tt
  enqueue_withdrawals found false = add_job (λ v. record v {
    withdrawal_job = true;
    withdrawal_queue = v.withdrawal_queue ++ (found ∷ []);
  })

  -- Without pending withdrawals the job is forgotten and the cron job stops.
  abbrev pub start_withdrawals : List WithdrawalJob → Action (Vault E) (Unit {0})
  start_withdrawals [] v = (ok tt, record v { withdrawal_job = false; withdrawal_cron = false })
  start_withdrawals (w ∷ ws) v = enqueue_withdrawals (w ∷ ws) v.withdrawal_job v

  unfoldable pub initiate_withdrawal_job : Action (Vault E) (Unit {0})
  initiate_withdrawal_job = do found ← get_pending_withdrawal E; start_withdrawals found

  abbrev pub enqueue_deposits : List DepositJob → Bool → Action (Vault E) (Unit {0})
  enqueue_deposits found true = pure tt
  enqueue_deposits found false =
      add_job
        (λ v. record v { deposit_job = true; deposit_queue = v.deposit_queue ++ (found ∷ []) })

  -- Without pending deposits the job is forgotten and the cron job stops.
  abbrev pub start_deposits : List DepositJob → Action (Vault E) (Unit {0})
  start_deposits [] v = (ok tt, record v { deposit_job = false; deposit_cron = false })
  start_deposits (d ∷ ds) v = enqueue_deposits (d ∷ ds) v.deposit_job v

  unfoldable pub initiate_deposit_job : Action (Vault E) (Unit {0})
  initiate_deposit_job = do found ← get_pending_deposits E; start_deposits found

  -- What runs when a job has finished: it reads the job's id before it forgets the job.
  unfoldable pub withdrawal_job_finished : Action (Vault E) (Unit {0})
  withdrawal_job_finished v =
      if v.withdrawal_job then (ok tt, record v { withdrawal_job = false }) else (err type_error, v)

  unfoldable pub deposit_job_finished : Action (Vault E) (Unit {0})
  deposit_job_finished v =
      if v.deposit_job then (ok tt, record v { deposit_job = false }) else (err type_error, v)

  -- The cron jobs fire only while they run.
  unfoldable pub handle_withdrawal_cron : Action (Vault E) (Unit {0})
  handle_withdrawal_cron v = (if v.withdrawal_cron then initiate_withdrawal_job else pure tt) v

  unfoldable pub handle_deposit_cron : Action (Vault E) (Unit {0})
  handle_deposit_cron v = (if v.deposit_cron then initiate_deposit_job else pure tt) v

  -- The update is not awaited, so the request does not see how it ends.
  unfoldable pub hook : HookBody → Action (Vault E) (Unit {0})
  hook obj =
      if is_given obj.block_hash && (ltb 0 obj.block_height && ltb 0 obj.confirmations)
      then ignore (update_withdrawal_status E obj.hash approved)
      else pure tt

  unfoldable pub add_webhook_id : WebhookIdBody → Action (Vault E) String
  add_webhook_id obj = do
    ignore (update_webhook_id E obj.hash obj.hook_id obj.to obj.coin obj.network)
    pure "ok"
