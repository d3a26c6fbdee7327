-- ===== src/Payments/Confirmations.antt =====
-- The webhook of the payment provider about transfers: `TransferWebhookProcessor` of
-- app/features/payments/processors.py. How the database compares two texts is the parameter `same`;
-- a comparison with a missing id finds the rows that have none.
pub mod Settled
pub mod Writes
mod Tests
use tasker_api.Prelude.{
  ℕ, ◌+◌, ℤ, pos, negsuc, ⊤, Bool, true, false, ◌&&◌, ◌||◌, not, Option, none, some, String, List,
  [], ◌∷◌, is_id, same_id, any, if◌then◌else◌,
}
use tasker_api.Models.{
  Text, lit, naira, text, truthy, or_text, Task, PaymentStatus, PayoutStatus, PayoutQueue, Transfer,
  TransferStatus, TransactionType, TransactionStatus, Transaction,
}
use tasker_api.Table.{get, put, find?, update_where}
use tasker_api.Db.{Db, Env}
use tasker_api.Db.Exec.{Exec, pure, gets, ◌>>=◌, ◌>>◌, modify}
use tasker_api.Transfers.{mark_completed, mark_failed}
use tasker_api.Payments.{neg, add_transaction, save_task}
use tasker_api.Payments.Charges.{is_success, is_failed, recorded, lock_payout, notify_user}

-- The arguments of the two handlers, but for the raw JSON.
pub record TransferEvent : Type 0 where
  pub reference : Text
  pub amount : ℤ
  pub user_id : Option ℕ
  pub task_id : Option ℕ
  pub reason : Option Text

abbrev pub refers_to : (Text → Text → Bool) → Text → Option Text → Bool
refers_to same reference none = false
refers_to same reference (some r) = same r reference

-- The payout whose lock an event takes.
abbrev pub payout_of_event : (Text → Text → Bool) → TransferEvent → ℕ → PayoutQueue → Bool
payout_of_event same e _ p = refers_to same e.reference p.reference || same_id p.task_id e.task_id

-- The transfer that an event is about.
abbrev pub is_task_of : Option ℕ → Option ℕ → Bool
is_task_of task_id none = false
is_task_of task_id (some id) = is_id task_id id

abbrev pub transfer_of_event : (Text → Text → Bool) → TransferEvent → ℕ → Transfer → Bool
transfer_of_event same e _ t =
    refers_to same e.reference t.provider_transfer_id
    || same t.idempotency_key e.reference
    || is_task_of t.task_id e.task_id

-- `where_clause` of the fallback.
abbrev pub in_fallback : (Text → Text → Bool) → TransferEvent → PayoutQueue → Bool
in_fallback same e p = elim e.task_id [
  | some id ↦ is_id p.task_id id
  | none ↦ refers_to same e.reference p.reference
]

abbrev pub is_unsettled : PayoutStatus → Bool
is_unsettled PayoutStatus.pending = true
is_unsettled PayoutStatus.customer_paid = true
is_unsettled PayoutStatus.transfer_initiated = true
is_unsettled _ = false

abbrev pub is_incomplete : PayoutStatus → Bool
is_incomplete PayoutStatus.completed = false
is_incomplete _ = true

abbrev pub is_paid : Option PaymentStatus → Bool
is_paid (some PaymentStatus.paid) = true
is_paid _ = false

-- The fallback's write to the task.
abbrev pub settle_task_of : TransferEvent → PaymentStatus → Exec ⊤
settle_task_of e status = elim e.task_id [
  | none ↦ pure tt
  | some id ↦ do
    found ← gets (λ db. get id db.tasks)
    elim found [
      | none ↦ pure tt
      | some t ↦
          if is_paid t.payment_status
          then pure tt
          else save_task id (record t { payment_status = some status })
    ]
]

abbrev pub fall_back :
    (Text → Text → Bool)
    → TransferEvent
    → (PayoutStatus → Bool)
    → PayoutStatus
    → PaymentStatus
    → Exec ⊤
fall_back same e changes payout_status payment_status = do
  modify (λ db. record db {
    payouts =
        update_where (λ _ p. in_fallback same e p && changes p.status)
          (λ p. record p { status = payout_status }) db.payouts;
  })
  settle_task_of e payment_status

abbrev pub is_transfer_completed : TransferStatus → Bool
is_transfer_completed TransferStatus.completed = true
is_transfer_completed _ = false

abbrev pub is_transfer_failed : TransferStatus → Bool
is_transfer_failed TransferStatus.failed = true
is_transfer_failed _ = false

-- Step 2 of `handle_transfer_success`.
abbrev pub confirm : Env → (Text → Text → Bool) → TransferEvent → Option (ℕ × Transfer) → Exec ⊤
confirm env same e none = fall_back same e is_unsettled PayoutStatus.completed PaymentStatus.paid
confirm env same e (some (id, t)) =
    if is_transfer_completed t.status
    then fall_back same e is_unsettled PayoutStatus.completed PaymentStatus.paid
    else (mark_completed env id t (some e.reference) >> pure tt)

abbrev pub refuse : Env → (Text → Text → Bool) → TransferEvent → Option (ℕ × Transfer) → Exec ⊤
refuse env same e none = fall_back same e is_incomplete PayoutStatus.cancelled PaymentStatus.failed
refuse env same e (some (id, t)) =
    if is_transfer_failed t.status
    then fall_back same e is_incomplete PayoutStatus.cancelled PaymentStatus.failed
    else (mark_failed env id t (some (text "WEBHOOK_FAILED"))
          (some (or_text e.reason (text "Transfer failed via webhook notification")))
        >> pure tt)

-- `-abs(amount)`
abbrev pub minus_abs : ℤ → ℤ
minus_abs (pos n) = neg (pos n)
minus_abs (negsuc n) = negsuc n

abbrev pub payout_transaction : TransferEvent → TransactionStatus → Transaction
payout_transaction e status = record {
  amount = minus_abs e.amount;
  transaction_type = TransactionType.provider_payout;
  status = status;
  user_id = e.user_id;
  task_id = e.task_id;
  reference = some e.reference;
}

-- `handle_transfer_success`
unfoldable pub handle_transfer_success : Env → (Text → Text → Bool) → TransferEvent → Exec ⊤
unfolding lock_payout mark_completed
handle_transfer_success env same e = elim e.user_id [
  | none ↦ pure tt
  | some user_id ↦ if not (truthy e.reference) then pure tt else do
    locked ← lock_payout (payout_of_event same e)
    if not locked then pure tt else do
      existing ← gets (λ db. any (recorded same is_success e.reference) db.transactions)
      if existing then pure tt else do
        transfer ← gets (λ db. find? (transfer_of_event same e) db.transfers)
        confirm env same e transfer
        add_transaction (payout_transaction e TransactionStatus.success)
        notify_user user_id (text "Payout Successful")
            (lit "Your payout of " ∷ naira e.amount ∷ lit " has been processed successfully." ∷ [])
            (("reference", e.reference) ∷ [])
]

-- `handle_transfer_failed`
unfoldable pub handle_transfer_failed : Env → (Text → Text → Bool) → TransferEvent → Exec ⊤
unfolding lock_payout mark_failed
handle_transfer_failed env same e = elim e.user_id [
  | none ↦ pure tt
  | some user_id ↦ if not (truthy e.reference) then pure tt else do
    locked ← lock_payout (payout_of_event same e)
    if not locked then pure tt else do
      existing ← gets (λ db. any (recorded same is_failed e.reference) db.transactions)
      if existing then pure tt else do
        transfer ← gets (λ db. find? (transfer_of_event same e) db.transfers)
        refuse env same e transfer
        add_transaction (payout_transaction e TransactionStatus.failed)
        notify_user user_id (text "Payout Failed")
            (text "There was an issue processing your payout. Please check your details.")
            (("reference", e.reference) ∷ [])
]
