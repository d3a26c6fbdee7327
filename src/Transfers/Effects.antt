-- ===== src/Transfers/Effects.antt =====
-- What an attempt does outside the transfer's own row: the payout, the task, the other transfers,
-- the audit log and the calls of the provider.
use mathlib.Core.Option
use tasker_api.Prelude.{
  ℕ, ◌≡◌, ◌∙◌, refl, Bool, true, Option, none, some, List, ◌++◌, ◌∷◌, [], arith, leb, is_id, false,
  ◌/◌, ◌^◌, if◌then◌else◌, Bool-cases, Option-cases, ◌&&◌, ◌==◌, inl, inr,
}
use tasker_api.Models.{
  Text, TransferStatus, Transfer, PayoutQueue, PaymentAccount, PayoutStatus, PaymentStatus, Task,
  lit, shown, truthy,
}
use tasker_api.Table.{get, find?}
use tasker_api.Table.Laws.{get-update}
use tasker_api.Db.{Db, Env, TransferRequest, append}
use tasker_api.Db.Exec.{Exec}
use tasker_api.Transfers.{
  process_transfer, settle, run_attempt, resolve_destination, mark_completed, mark_failed,
  mark_retry, request_for, is_processable,
}
use tasker_api.Transfers.Gateway.{TransferOutcome, succeeded, temporary, permanent}
use tasker_api.Transfers.Outcome.{
  no_account_code, no_account_reason, as_claimed, settled, attempted, as_completed, as_failed,
  as_failed_or_retrying,
}
use tasker_api.Transfers.Process.{process-eq-run_attempt, process-skip, claimed_db}

-- A payout that was paid keeps its reference if the provider gave none.
abbrev pub paid_out : Option Text → PayoutQueue → PayoutQueue
paid_out reference p = record p {
  status = PayoutStatus.completed;
  reference = elim reference [
    | none ↦ p.reference
    | some r ↦ elim (truthy r) [ true ↦ some r | false ↦ p.reference ]
  ];
}

abbrev pub called_off : PayoutQueue → PayoutQueue
called_off p = elim p.status [
  | PayoutStatus.completed ↦ p
  | _ ↦ record p { status = PayoutStatus.cancelled }
]

-- The payment of a task that is not PAID yet.
abbrev pub marked_with : PaymentStatus → Task → Task
marked_with status t = elim t.payment_status [
  | some PaymentStatus.paid ↦ t
  | _ ↦ record t { payment_status = some status }
]

-- The payout and the task that go with a transfer in its final state.
abbrev pub payout_after : Transfer → PayoutQueue → PayoutQueue
payout_after t p = elim t.status [
  | TransferStatus.completed ↦ paid_out t.provider_transfer_id p
  | TransferStatus.failed ↦ called_off p
  | _ ↦ p
]

abbrev pub task_after : Transfer → Task → Task
task_after t k = elim t.status [
  | TransferStatus.completed ↦ marked_with PaymentStatus.paid k
  | TransferStatus.failed ↦ marked_with PaymentStatus.failed k
  | _ ↦ k
]

abbrev pub change_if {ℓ} : {A : Type ℓ} → Bool → (A → A) → A → A
change_if b f a = if b then f a else a

-- The payouts and tasks after an operation that left the transfer as `t'`: its own changed, the
-- others as they were.
abbrev pub InStep : Transfer → Db → Db → Type 0
InStep t' db db' =
    ((p : ℕ)
      → get p db'.payouts
        ≡ Option.map (change_if (is_id t'.payout_id p) (payout_after t')) (get p db.payouts))
    × ((k : ℕ)
        → get k db'.tasks
          ≡ Option.map (change_if (is_id t'.task_id k) (task_after t')) (get k db.tasks))

-- The transition that `settle` makes, without the audit record.
marked_by : Env → ℕ → Transfer → TransferOutcome → Exec Transfer
unfolding mark_completed mark_retry mark_failed
marked_by env id t (succeeded reference) = mark_completed env id t reference
marked_by env id t (temporary code message) = mark_retry env id t code (some message)
marked_by env id t (permanent code message) = mark_failed env id t code (some message)

-- The request of a transfer to an account.
abbrev pub request_of : ℕ → Transfer → Text → TransferRequest
request_of id t destination = record {
  amount = t.amount;
  currency = t.currency;
  destination = destination;
  idempotency_key = t.idempotency_key;
  reference =
      lit "payout_"
      ∷ (elim t.task_id [ none ↦ lit "None" | some n ↦ shown n ])
      ∷ lit "_"
      ∷ shown (id / 2 ^ 96)
      ∷ [];
  user_id = t.user_id;
  task_id = t.task_id;
  payout_id = t.payout_id;
}

-- The recipient code of a user: that of the first active payment account, if it is not empty.
abbrev pub account_code : Option (ℕ × PaymentAccount) → Option Text
account_code none = none
account_code (some (_, a)) = elim a.external_account_id [
  | none ↦ none
  | some code ↦ elim (truthy code) [ true ↦ some code | false ↦ none ]
]

abbrev pub recipient : Option ℕ → Db → Option Text
recipient none db = none
recipient (some user_id) db =
    account_code (find? (λ _ a. (a.user_id == user_id) && a.is_active) db.accounts)

resolve-eq-recipient : (u : Option ℕ) (db : Db) → resolve_destination u db ≡ recipient u db
unfolding resolve_destination
resolve-eq-recipient none db = refl
resolve-eq-recipient (some user_id) db = ground (
  arith,
  Option-cases
      (find? (λ _ (a : PaymentAccount). (a.user_id == user_id) && a.is_active) db.accounts),
)

abbrev pub calls_after : ℕ → Transfer → Option Text → Db → List TransferRequest
calls_after id t none db = db.transfer_calls
calls_after id t (some destination) db = db.transfer_calls ++ request_of id t destination ∷ []

module _ (env : Env) (id : ℕ) (t : Transfer) (db : Db)
    (claimed : t.status ≡ TransferStatus.processing) where
  pub mark_completed-InStep :
      (reference : Option Text)
      → InStep (as_completed env t reference) db (mark_completed env id t reference db).1
  unfolding mark_completed
  mark_completed-InStep reference = (λ p. grind (arith, get-update), λ k. grind (arith, get-update))

  mark_failed-InStep :
      (code reason : Option Text)
      → InStep (as_failed env t code reason) db (mark_failed env id t code reason db).1
  unfolding mark_failed
  mark_failed-InStep code reason = (λ p. grind (arith, get-update), λ k. grind (arith, get-update))

  mark_retry-InStep :
      (code reason : Option Text)
      → InStep (as_failed_or_retrying env t code reason) db (mark_retry env id t code reason db).1
  unfolding mark_retry
  mark_retry-InStep code reason = elim (Bool-cases (leb t.max_attempts t.attempt_count)) [
    | inl spent ↦ rw (spent) (mark_failed-InStep _ _)
    | inr left ↦ rw (left) (λ p. ground arith, λ k. ground arith)
  ]

  settle_keeps :
      (o : TransferOutcome)
      → let db' = (settle env id t o db).1 in
        let marked = (marked_by env id t o db).1 in
        (db'.payouts ≡ marked.payouts)
        × (db'.tasks ≡ marked.tasks)
        × (db'.transfer_calls ≡ db.transfer_calls)
        × (db'.jobs ≡ db.jobs)
  unfolding settle marked_by
  settle_keeps (succeeded reference) = ground arith
  settle_keeps o = ground arith

  marked_by-InStep : (o : TransferOutcome) → InStep (settled env t o) db (marked_by env id t o db).1
  unfolding marked_by
  marked_by-InStep (succeeded reference) = mark_completed-InStep reference
  marked_by-InStep (temporary code message) = mark_retry-InStep code (some message)
  marked_by-InStep (permanent code message) = mark_failed-InStep code (some message)

  settle-InStep : (o : TransferOutcome) → InStep (settled env t o) db (settle env id t o db).1
  settle-InStep o = rw ((settle_keeps o).0, (settle_keeps o).1) (marked_by-InStep o)

  unreached_keeps :
      (provider : TransferRequest → TransferOutcome)
      → let db' = (run_attempt env provider id t none db).1 in
        let marked =
          (mark_failed env id t (some no_account_code) (some (no_account_reason t)) db).1 in
        (db'.payouts ≡ marked.payouts)
        × (db'.tasks ≡ marked.tasks)
        × (db'.transfer_calls ≡ db.transfer_calls)
        × (db'.jobs ≡ db.jobs)
  unfolding run_attempt
  unreached_keeps provider = ground arith

abbrev called : Db → TransferRequest → Db
called db request = record db { transfer_calls = append db.transfer_calls request }

module _ (env : Env) (provider : TransferRequest → TransferOutcome) (id : ℕ) (t : Transfer)
    (db : Db) (claimed : t.status ≡ TransferStatus.processing) where
  run_attempt-InStep :
      (destination : Option Text)
      → InStep
          (attempted env provider id t destination)
          db
          (run_attempt env provider id t destination db).1
  unfolding run_attempt
  run_attempt-InStep none =
      let (payouts, tasks, _, _) = unreached_keeps env id t db claimed provider in
      rw (payouts, tasks) (mark_failed-InStep env id t db claimed _ _)
  run_attempt-InStep (some destination) =
      let request = request_for id t destination in
      settle-InStep env id t (called db request) claimed (provider request)

  run_attempt-jobs :
      (destination : Option Text) → (run_attempt env provider id t destination db).1.jobs ≡ db.jobs
  unfolding run_attempt
  run_attempt-jobs none = (unreached_keeps env id t db claimed provider).3
  run_attempt-jobs (some destination) =
      let request = request_for id t destination in
      (settle_keeps env id t (called db request) claimed (provider request)).3

  run_attempt-calls :
      (destination : Option Text)
      → (run_attempt env provider id t destination db).1.transfer_calls
        ≡ calls_after id t destination db
  unfolding run_attempt
  run_attempt-calls none = (unreached_keeps env id t db claimed provider).2
  run_attempt-calls (some destination) =
      let request = request_for id t destination in
      (settle_keeps env id t (called db request) claimed (provider request)).2

module _ (env : Env) (provider : TransferRequest → TransferOutcome) (id : ℕ) (t : Transfer)
    (db : Db) (there : get id db.transfers ≡ some t) (can : is_processable t.status ≡ true) where
  abbrev claim : Transfer
  claim = as_claimed env t

  -- One attempt of a stored transfer that can be processed leaves its payout and task in step with
  -- the outcome: COMPLETED (with the provider's reference) and PAID after a success; CANCELLED unless it was COMPLETED, and FAILED
  -- unless it was PAID, after a failure for good; as they were before a retry. Every other payout
  -- and every other task stays as it was.
  pub process_transfer-InStep :
      InStep
        (attempted env provider id (as_claimed env t) (resolve_destination t.user_id db))
        db
        (process_transfer env provider id db).1
  process_transfer-InStep =
      rw (process-eq-run_attempt env id t db there provider can)
        (run_attempt-InStep env provider id claim (claimed_db env id t db) refl _)

  -- One attempt of a stored transfer that can be processed calls the provider once if the user has a recipient code (that of the first active account, if
  -- it is not empty), and otherwise never; the
  -- request carries the amount and the idempotency key of the row.
  pub process_transfer-calls :
      (process_transfer env provider id db).1.transfer_calls
      ≡ calls_after id (as_claimed env t) (recipient t.user_id db) db
  process_transfer-calls =
      rw
        (← resolve-eq-recipient t.user_id db, process-eq-run_attempt env id t db there provider can)
        (run_attempt-calls env provider id claim (claimed_db env id t db) refl _
          ∙ calls_after-claimed _)
    where
      calls_after-claimed :
          (d : Option Text)
          → calls_after id claim d (claimed_db env id t db) ≡ calls_after id claim d db
      calls_after-claimed none = refl
      calls_after-claimed (some d) = refl

-- No call of `process_transfer` enqueues a job itself.
pub jobs-process_transfer :
    (env : Env) (provider : TransferRequest → TransferOutcome) (id : ℕ) (t : Transfer) (db : Db)
    → get id db.transfers ≡ some t
    → (process_transfer env provider id db).1.jobs ≡ db.jobs
jobs-process_transfer env provider id t db there = elim (Bool-cases (is_processable t.status)) [
  | inl can ↦
      rw (process-eq-run_attempt env id t db there provider can)
        (run_attempt-jobs env provider id (as_claimed env t) (claimed_db env id t db) refl _)
  | inr cannot ↦ rw (process-skip env id t db there provider cannot)
]
