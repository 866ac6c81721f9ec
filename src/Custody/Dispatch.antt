-- ===== src/Custody/Dispatch.antt =====
-- What `initiateWithdrawalJob` of src/web3/queue.provider.ts puts into the queue.
use mathlib.Core.List.{Permᴰ}
use exchange_backend.Base.{
  ℕ, ◌+◌, ◌<◌, ◌≡◌, ◌≢◌, refl, sym, subst, ◌⊎◌, inl, inr, String, Bool, true, false, not,
  Bool-cases, none, Option-cases, List, [], ◌∷◌, ◌++◌, map, ltb, str_eq, eq_iff, arith,
}
use exchange_backend.Base.Lists.{filter}
use exchange_backend.Base.Chosen.{Chosen, Chosen-of_filter, both}
use exchange_backend.Base.Action.{◌>>=◌}
use exchange_backend.Repository.{FindOptions}
use exchange_backend.Custody.Entity.{
  Withdrawal, Status, pending, approved, rejected, reverted, YesNo, yes, no, is_pending, is_no,
  select_withdrawal,
}
use exchange_backend.Custody.World.{CustodyEnv, IsLawfulCustody, Vault, withdrawal_rows}
use exchange_backend.Custody.Database.{is_pending_withdrawal, get_pending_withdrawal, six_hours}
use exchange_backend.Custody.Queue.{enqueue_withdrawals, start_withdrawals, initiate_withdrawal_job}

-- A withdrawal that waits for the chain: less than six hours old, and not on Bitcoin.
pub record IsWaiting (time : ℕ) (w : Withdrawal) : Type 0 where
  pub on_chain : w.network ≢ "Bitcoin"
  pub undecided : w.status ≡ pending
  pub kept : w.deleted ≡ no
  pub unpaid : w.pay_by_admin ≡ no
  pub recent : time < w.created_at + 21_600_000

-- The withdrawals found are the rows that wait, each of them once.
abbrev pub AreWaiting : ℕ → List Withdrawal → List Withdrawal → Type 0
AreWaiting time = Chosen (IsWaiting time)

-- The queue of withdrawals after an attempt to start a job, at a time and over rows: it is as it was, or no
-- job was held, one is now, and its entries are those of the rows that wait, at least one.
abbrev pub Dispatched : {E : CustodyEnv} → ℕ → List Withdrawal → Vault E → Vault E → Type 0
Dispatched time rows v v' =
    (v'.withdrawal_queue ≡ v.withdrawal_queue)
    ⊎ ((v.withdrawal_job ≡ false)
        × (v'.withdrawal_job ≡ true)
        × (found : List Withdrawal) × (found ≢ [])
        × AreWaiting time rows found
        × (v'.withdrawal_queue ≡ v.withdrawal_queue ++ (map select_withdrawal found ∷ [])))

pending_of : (s : Status) → is_pending s ≡ true → s ≡ pending
pending_of pending h = refl
pending_of approved h = cc
pending_of rejected h = cc
pending_of reverted h = cc

no_of : (x : YesNo) → is_no x ≡ true → x ≡ no
no_of yes h = cc
no_of no h = refl

other_text : (s t : String) → not (str_eq s t) ≡ true → s ≢ t
other_text s t h e = contrary (rw ((eq_iff s t).1 e) at h)
  where
    contrary : false ≡ true → ⊥
    contrary p = cc

IsWaiting-of_condition :
    (time : ℕ) (w : Withdrawal) → is_pending_withdrawal time w ≡ true → IsWaiting time w
IsWaiting-of_condition time w h =
    let (n, h1) = both {a = not (str_eq w.network "Bitcoin")} h in
    let (s, h2) = both {a = is_pending w.status} h1 in
    let (d, h3) = both {a = is_no w.deleted} h2 in
    let (p, r) = both {a = is_no w.pay_by_admin} h3 in
    record {
      on_chain = other_text w.network "Bitcoin" n;
      undecided = pending_of w.status s;
      kept = no_of w.deleted d;
      unpaid = no_of w.pay_by_admin p;
      recent = recent time (w.created_at + six_hours) r;
    }
  where
    recent : (m n : ℕ) → ltb m n ≡ true → m < n
    recent m n e = ground arith

condition-of_IsWaiting :
    (time : ℕ) (w : Withdrawal) → IsWaiting time w → is_pending_withdrawal time w ≡ true
condition-of_IsWaiting time w h =
    rw (different (Bool-cases (str_eq w.network "Bitcoin"))) rw h.undecided rw h.kept rw h.unpaid
      (recent time _ h.recent)
  where
    different :
        (str_eq w.network "Bitcoin" ≡ true) ⊎ (str_eq w.network "Bitcoin" ≡ false)
        → str_eq w.network "Bitcoin" ≡ false
    different (inl e) = absurd (h.on_chain ((eq_iff w.network "Bitcoin").0 e))
    different (inr e) = e

    recent : (m n : ℕ) → m < n → ltb m n ≡ true
    recent m n e = ground arith

AreWaiting-of_filter :
    (time : ℕ) (rows found : List Withdrawal)
    → Permᴰ (filter (is_pending_withdrawal time) rows) found
    → AreWaiting time rows found
AreWaiting-of_filter time =
    Chosen-of_filter (is_pending_withdrawal time) (IsWaiting-of_condition time)
      (condition-of_IsWaiting time)

module _ (E : CustodyEnv) where
  enqueue_withdrawals-Dispatched :
      (time : ℕ) (rows : List Withdrawal) (w : Withdrawal) (ws : List Withdrawal) (held : Bool)
      (v : Vault E)
      → v.withdrawal_job ≡ held
      → AreWaiting time rows (w ∷ ws)
      → Dispatched time rows v (enqueue_withdrawals E (map select_withdrawal (w ∷ ws)) held v).1
  enqueue_withdrawals-Dispatched time rows w ws true v h all = inl refl
  enqueue_withdrawals-Dispatched time rows w ws false v h all =
      elim (Bool-cases (E.queued v.ticks)) [
        | inl e ↦ rw e (inr (h, refl, w ∷ ws, (λ e'. cc), all, refl))
        | inr e ↦ rw e (inl refl)
      ]

  start_withdrawals-Dispatched :
      (time : ℕ) (rows found : List Withdrawal) (v : Vault E)
      → AreWaiting time rows found
      → Dispatched time rows v (start_withdrawals E (map select_withdrawal found) v).1
  start_withdrawals-Dispatched time rows [] v all = inl refl
  start_withdrawals-Dispatched time rows (w ∷ ws) v all =
      enqueue_withdrawals-Dispatched time rows w ws v.withdrawal_job v refl all

  -- Over lawful repositories, an attempt to start a withdrawal job leaves the queue as it is, or adds
  -- one job where none was held. That job is held from then on, and its entries are those of at least one
  -- withdrawal: of the rows of the table that are pending, not deleted, not for the administrator to pay, not
  -- on Bitcoin and less than six hours old at the time of the attempt, of each of them once and of no other.
  pub initiate_withdrawal_job-Dispatched :
      IsLawfulCustody E
      → (v : Vault E)
      → Dispatched (E.clock v.ticks) (withdrawal_rows E v) v (initiate_withdrawal_job E v).1
  unfolding initiate_withdrawal_job get_pending_withdrawal ◌>>=◌
  initiate_withdrawal_job-Dispatched L v =
      let time : ℕ = E.clock v.ticks in
      let rows : List Withdrawal = withdrawal_rows E v in
      let options : FindOptions Withdrawal = record {
        condition = is_pending_withdrawal time;
        order = [];
        limit = none;
      } in
      elim (Option-cases (E.withdrawals.find options v.withdrawals).0) [
        | inl e ↦ rw e (inl refl)
        | inr (found, e) ↦
            let (sorted, perm, order, eq) =
              L.withdrawals_lawful.find-some options v.withdrawals found e in
            rw e (
              start_withdrawals-Dispatched time rows found _
                (AreWaiting-of_filter time rows found (subst (Permᴰ _) (sym eq) perm)))
      ]
