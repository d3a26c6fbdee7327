-- ===== src/Transfers/Celery.antt =====
-- The Celery tasks around the transfers (app/features/payments/celery/transfer_tasks.py).
pub mod Workers
use mathlib.Core.List.{map}
use tasker_api.Prelude.{
  ℕ, ◌+◌, ◌-◌, ◌*◌, ◌/◌, ⊤, Bool, true, Option, none, some, List, [], ◌∷◌, ◌++◌, ◌&&◌, ltb, leb,
  take,
}
use tasker_api.Models.{Text, TransferStatus, Transfer}
use tasker_api.Table.{Table, select_where}
use tasker_api.Db.{
  Db, Env, Job, process_transfer_task, retry_transfer_task, TransferRequest, append,
}
use tasker_api.Db.Exec.{ok, err, Exec, pure, gets, ◌>>=◌, ◌>>◌, modify}
use tasker_api.Transfers.{process_transfer, reconcile_transfer, is_processable, is_processing}
use tasker_api.Transfers.Gateway.{TransferOutcome, LookupOutcome}

abbrev second : ℕ
second = 1000000

abbrev enqueue : Job → Exec ⊤
enqueue job = modify (λ db. record db { jobs = append db.jobs job })

-- The countdown is in whole seconds.
abbrev schedule_retry : Env → ℕ → Option ℕ → Exec ⊤
schedule_retry env id none = pure tt
schedule_retry env id (some at) = enqueue (retry_transfer_task id ((at - env.now) / second))

abbrev schedule : Env → ℕ → Transfer → Exec ⊤
schedule env id t = elim t.status [
  | TransferStatus.retrying ↦ schedule_retry env id t.next_retry_at
  | _ ↦ pure tt
]

-- `_process_transfer_async`
unfoldable pub process_transfer_job : Env → (TransferRequest → TransferOutcome) → ℕ → Exec ⊤
process_transfer_job env provider id = do
  transfer ← process_transfer env provider id
  schedule env id transfer

abbrev pub is_due : Env → ℕ → Transfer → Bool
is_due env _ t =
    is_processable t.status && elim t.next_retry_at [ none ↦ true | some at ↦ leb at env.now ]

-- `_recover_stuck_transfers_async`
unfoldable pub recover_stuck_transfers : Env → Exec ⊤
recover_stuck_transfers env = modify (λ db. record db {
  jobs =
      db.jobs
      ++ map (λ (row : ℕ × Transfer). process_transfer_task row.0)
          (take 100 (select_where (is_due env) db.transfers));
})

abbrev pub is_stale : Env → ℕ → Transfer → Bool
is_stale env _ t = is_processing t.status && ltb (t.updated_at + 600 * second) env.now

-- The loop of `_reconcile_processing_transfers_async`; an exception ends it.
unfoldable pub reconcile_each : Env → (Text → LookupOutcome) → Table Transfer → Exec ⊤
reconcile_each env lookup [] = pure tt
reconcile_each env lookup ((id, _) ∷ rest) =
    reconcile_transfer env lookup id >>= λ _. reconcile_each env lookup rest

-- `_reconcile_processing_transfers_async`
unfoldable pub reconcile_processing_transfers : Env → (Text → LookupOutcome) → Exec ⊤
unfolding reconcile_each
reconcile_processing_transfers env lookup = do
  stale ← gets (λ db. take 50 (select_where (is_stale env) db.transfers))
  reconcile_each env lookup stale
