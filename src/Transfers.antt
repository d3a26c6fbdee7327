-- ===== src/Transfers.antt =====
-- The transfers of money to providers (app/features/payments/transfer_service.py): a durable state
-- machine whose state is a row of `transfers`. Every method takes the clock, the random numbers and
-- the new ids of the call as `Env`; all readings of the clock in one call give the same time.
pub mod Delay
pub mod Gateway
pub mod Outcome
pub mod Process
pub mod Create
pub mod Rows
pub mod Progress
pub mod History
pub mod Liveness
pub mod Stale
pub mod Celery
mod Tests
pub mod Effects
use mathlib.Core.Option
use tasker_api.Prelude.{
  ℕ, ℤ, ◌+◌, ◌/◌, ◌^◌, ⊤, Bool, true, false, Option, none, some, ◌∷◌, ◌&&◌, [], leb, ◌==◌, is_id,
  if◌then◌else◌,
}
use tasker_api.Models.{
  Text, Piece, lit, shown, text, truthy, or_text, TransferStatus, can_transition, Transfer,
  TransferAttempt, PayoutStatus, PayoutQueue, PaymentStatus, Task, PaymentAccount,
}
use tasker_api.Table.{get, put, find?, update}
use tasker_api.Db.{Db, Env, TransferRequest, append}
use tasker_api.Db.Exec.{
  Error, value_error, ok, Exec, pure, raise, gets, or_raise, ◌>>=◌, ◌>>◌, modify,
}
use Delay.{calculate_retry_delay}
use Gateway.{
  TransferOutcome, succeeded, temporary, permanent, LookupOutcome, LookupStatus, found, unreachable,
}

abbrev pub for_payout : ℕ → ℕ → Transfer → Bool
for_payout payout_id _ t = is_id t.payout_id payout_id

-- `create_transfer`
unfoldable pub create_transfer : Env → ℕ → ℕ → ℕ → ℤ → Text → Exec (ℕ × Transfer)
create_transfer env payout_id task_id user_id amount currency = do
  existing ← gets (λ db. find? (for_payout payout_id) db.transfers)
  elim existing [
    | some transfer ↦ pure transfer
    | none ↦ do
      let transfer : Transfer = record {
        task_id = some task_id;
        payout_id = some payout_id;
        user_id = some user_id;
        amount = amount;
        currency = currency;
        status = TransferStatus.pending;
        attempt_count = 0;
        max_attempts = 10;
        provider_transfer_id = none;
        idempotency_key = lit "transfer:" ∷ shown (env.fresh 0) ∷ [];
        next_retry_at = none;
        last_attempt_at = none;
        completed_at = none;
        failed_at = none;
        failure_code = none;
        failure_reason = none;
        version = 0;
        updated_at = env.now;
      }
      modify (λ db. record db { transfers = put (env.fresh 0) transfer db.transfers })
      pure (env.fresh 0, transfer)
  ]

-- `_transition`
unfoldable pub transition : ℕ → TransferStatus → Transfer → Exec Transfer
unfolding can_transition
transition now new_status t =
    if can_transition t.status new_status
    then pure (record t { status = new_status; version = t.version + 1; updated_at = now })
    else raise (value_error (text "Invalid transfer transition"))

-- The commit of a transfer that was changed in memory.
abbrev save : ℕ → Transfer → Exec ⊤
save id t = modify (λ db. record db { transfers = put id t db.transfers })

-- `if id: row = repo.get(id); if row: change it`, for the payout and the task of a transfer.
abbrev change_payout : Option ℕ → (PayoutQueue → PayoutQueue) → Exec ⊤
change_payout none f = pure tt
change_payout (some id) f = modify (λ db. record db { payouts = update id f db.payouts })

abbrev change_task : Option ℕ → (Task → Task) → Exec ⊤
change_task none f = pure tt
change_task (some id) f = modify (λ db. record db { tasks = update id f db.tasks })

abbrev complete_payout : Option Text → PayoutQueue → PayoutQueue
complete_payout reference p = record p {
  status = PayoutStatus.completed;
  reference = elim reference [
    | none ↦ p.reference
    | some r ↦ elim (truthy r) [ true ↦ some r | false ↦ p.reference ]
  ];
}

abbrev cancel_payout : PayoutQueue → PayoutQueue
cancel_payout p = elim p.status [
  | PayoutStatus.completed ↦ p
  | _ ↦ record p { status = PayoutStatus.cancelled }
]

-- Sets the payment status of a task unless it is already PAID.
abbrev settle_task : PaymentStatus → Task → Task
settle_task status t = elim t.payment_status [
  | some PaymentStatus.paid ↦ t
  | _ ↦ record t { payment_status = some status }
]

-- `_mark_completed`
unfoldable pub mark_completed : Env → ℕ → Transfer → Option Text → Exec Transfer
unfolding transition
mark_completed env id t provider_transfer_id = do
  t' ← transition env.now TransferStatus.completed t
  let done = record t' {
    provider_transfer_id = provider_transfer_id;
    completed_at = some env.now;
    next_retry_at = none;
  }
  save id done
  change_payout done.payout_id (complete_payout provider_transfer_id)
  change_task done.task_id (settle_task PaymentStatus.paid)
  pure done

-- `_mark_failed`
unfoldable pub mark_failed : Env → ℕ → Transfer → Option Text → Option Text → Exec Transfer
unfolding transition
mark_failed env id t code reason = do
  t' ← transition env.now TransferStatus.failed t
  let dead = record t' {
    failed_at = some env.now;
    failure_code = code;
    failure_reason = reason;
    next_retry_at = none;
  }
  save id dead
  change_payout dead.payout_id cancel_payout
  change_task dead.task_id (settle_task PaymentStatus.failed)
  pure dead

-- `_mark_retry`
unfoldable pub mark_retry : Env → ℕ → Transfer → Option Text → Option Text → Exec Transfer
unfolding transition mark_failed
mark_retry env id t code reason =
    if leb t.max_attempts t.attempt_count
    then mark_failed env id t (some (or_text code (text "MAX_ATTEMPTS_EXCEEDED"))) (
        some (
          or_text reason (lit "Exceeded maximum attempts (" ∷ shown t.max_attempts ∷ lit ")" ∷ [])))
    else do
      t' ← transition env.now TransferStatus.retrying t
      let again = record t' {
        next_retry_at = some (env.now + calculate_retry_delay env.uniform t'.attempt_count);
        failure_code = code;
        failure_reason = reason;
      }
      save id again
      pure again

abbrev pays_out : ℕ → ℕ → PaymentAccount → Bool
pays_out user_id _ a = (a.user_id == user_id) && a.is_active

abbrev external_id : Option (ℕ × PaymentAccount) → Option Text
external_id none = none
external_id (some (_, a)) = elim a.external_account_id [
  | none ↦ none
  | some e ↦ elim (truthy e) [ true ↦ some e | false ↦ none ]
]

-- `_resolve_destination`
unfoldable pub resolve_destination : Option ℕ → Db → Option Text
resolve_destination none db = none
resolve_destination (some user_id) db = external_id (find? (pays_out user_id) db.accounts)

-- `_record_attempt`
unfoldable pub record_attempt :
    Env → ℕ → Transfer → Text → Option Text → Option Text → Option Text → Exec ⊤
record_attempt env id t status provider_transfer_id error_code error_message = modify (λ db.
    record db {
      transfer_attempts = append db.transfer_attempts (record {
        transfer_id = id;
        attempt_number = t.attempt_count;
        status = status;
        provider_transfer_id = provider_transfer_id;
        error_code = error_code;
        error_message = error_message;
        started_at = elim t.last_attempt_at [ none ↦ env.now | some at ↦ at ];
        completed_at = some env.now;
      });
    })

-- Step 3 of `process_transfer`: the row is claimed and the claim committed.
unfoldable pub begin_attempt : Env → ℕ → Transfer → Exec Transfer
unfolding transition
begin_attempt env id t = do
  t' ← transition env.now TransferStatus.processing t
  let claimed = record t' { attempt_count = t'.attempt_count + 1; last_attempt_at = some env.now }
  save id claimed
  pure claimed

-- `f"{task_id}"` and `transfer.id[:8]`, the first eight hexadecimal digits.
abbrev shown_or_none : Option ℕ → Piece
shown_or_none none = lit "None"
shown_or_none (some n) = shown n

abbrev request_for : ℕ → Transfer → Text → TransferRequest
request_for id t destination = record {
  amount = t.amount;
  currency = t.currency;
  destination = destination;
  idempotency_key = t.idempotency_key;
  reference = lit "payout_" ∷ shown_or_none t.task_id ∷ lit "_" ∷ shown (id / 2 ^ 96) ∷ [];
  user_id = t.user_id;
  task_id = t.task_id;
  payout_id = t.payout_id;
}

-- What follows the provider's answer in `process_transfer`.
unfoldable pub settle : Env → ℕ → Transfer → TransferOutcome → Exec Transfer
unfolding mark_completed mark_retry mark_failed record_attempt
settle env id t (succeeded reference) = do
  t' ← mark_completed env id t reference
  record_attempt env id t' (text "success") reference none none
  pure t'
settle env id t (temporary code message) = do
  t' ← mark_retry env id t code (some message)
  record_attempt env id t' (text "temporary_error") none code (some message)
  pure t'
settle env id t (permanent code message) = do
  t' ← mark_failed env id t code (some message)
  record_attempt env id t' (text "permanent_error") none code (some message)
  pure t'

-- Steps 4 and 5 of `process_transfer`, outside the transaction.
unfoldable pub run_attempt :
    Env → (TransferRequest → TransferOutcome) → ℕ → Transfer → Option Text → Exec Transfer
unfolding settle
run_attempt env provider id t none = do
  t' ←
      mark_failed env id t (some (text "NO_PAYMENT_ACCOUNT"))
        (some (lit "No active payment account found for provider " ∷ shown_or_none t.user_id ∷ []))
  record_attempt env id t' (text "error") none (some (text "NO_PAYMENT_ACCOUNT"))
      (some (text "Provider has no active payment account"))
  pure t'
run_attempt env provider id t (some destination) = do
  let request = request_for id t destination
  modify (λ db. record db { transfer_calls = append db.transfer_calls request })
  settle env id t (provider request)

abbrev is_completed : TransferStatus → Bool
is_completed TransferStatus.completed = true
is_completed _ = false

abbrev is_processable : TransferStatus → Bool
is_processable TransferStatus.pending = true
is_processable TransferStatus.retrying = true
is_processable _ = false

abbrev is_processing : TransferStatus → Bool
is_processing TransferStatus.processing = true
is_processing _ = false

abbrev not_found : ℕ → Error
not_found id = value_error (lit "Transfer " ∷ shown id ∷ lit " not found" ∷ [])

-- `process_transfer`
unfoldable pub process_transfer : Env → (TransferRequest → TransferOutcome) → ℕ → Exec Transfer
unfolding begin_attempt run_attempt
process_transfer env provider id = do
  transfer ← or_raise (← gets (λ db. get id db.transfers)) (not_found id)
  if is_completed transfer.status
      then pure transfer
      else if is_processable transfer.status
      then (do
        claimed ← begin_attempt env id transfer
        destination ← gets (resolve_destination claimed.user_id)
        run_attempt env provider id claimed destination)
      else pure transfer

-- `transfer.provider_transfer_id or transfer.idempotency_key`
abbrev lookup_key : Transfer → Text
lookup_key t = or_text t.provider_transfer_id t.idempotency_key

-- What follows the provider's answer in `reconcile_transfer`.
unfoldable pub resolve : Env → ℕ → Transfer → LookupOutcome → Exec Transfer
unfolding mark_completed mark_failed mark_retry
resolve env id t (found LookupStatus.success reference) = mark_completed env id t reference
resolve env id t (found LookupStatus.failed reference) =
    mark_failed env id t (some (text "RECONCILED_FAILED"))
      (some (text "Provider confirmed transfer failed during reconciliation"))
resolve env id t (found LookupStatus.other_status reference) =
    mark_retry env id t (some (text "RECONCILED_UNKNOWN"))
      (some (text "Provider returned unknown status during reconciliation"))
resolve env id t unreachable = pure t

-- `reconcile_transfer`
unfoldable pub reconcile_transfer : Env → (Text → LookupOutcome) → ℕ → Exec Transfer
unfolding resolve
reconcile_transfer env lookup id = do
  transfer ← or_raise (← gets (λ db. get id db.transfers)) (not_found id)
  if is_processing transfer.status
      then resolve env id transfer (lookup (lookup_key transfer))
      else pure transfer
