-- ===== src/Payments/Charges.antt =====
-- The webhook of the payment provider about charges: `PaymentWebhookProcessor` of
-- app/features/payments/processors.py. How the database compares two texts is the parameter `same`.
pub mod Locks
pub mod Records
pub mod Repeats
pub mod Settling
mod Tests
use tasker_api.Prelude.{
  ℕ, ◌+◌, ℤ, pos, ltb_ℤ, ⊤, Bool, true, false, ◌&&◌, not, Option, none, some, String, List, [], ◌∷◌,
  ◌++◌, ◌==◌, is_id, same_id, any, get_or, if◌then◌else◌,
}
use tasker_api.Models.{
  Text, lit, shown, naira, text, truthy, is_blank_text, Task, PaymentStatus, DebtReason,
  ProviderDebt, PayoutStatus, PayoutQueue, TransactionType, TransactionStatus, Transaction,
  TaskAssignment,
}
use tasker_api.Table.{get, put, find?, update_where}
use tasker_api.Db.{Db, Env, Notification, append}
use tasker_api.Db.Exec.{ok, err, Exec, pure, gets, ◌>>=◌, ◌>>◌, modify}
use tasker_api.Dispatch.Lifecycle.{assignment_of}
use tasker_api.Payments.{neg, add_debt, add_transaction, save_task, process_provider_payout}

-- `event_type` without regard to case.
pub data ChargeKind : Type 0 where
  task_payment debt_settlement other_kind : ChargeKind

-- The arguments of the two handlers, but for the raw JSON.
pub record Charge : Type 0 where
  pub reference : Text
  pub amount : ℤ
  pub user_id : Option ℕ
  pub task_id : Option ℕ
  pub kind : ChargeKind
  pub provider_id : Option ℕ

abbrev pub is_success : TransactionStatus → Bool
is_success TransactionStatus.success = true
is_success _ = false

abbrev pub is_failed : TransactionStatus → Bool
is_failed TransactionStatus.failed = true
is_failed _ = false

-- `select(Transaction).where(reference == ..., status == ...)`
abbrev pub recorded : (Text → Text → Bool) → (TransactionStatus → Bool) → Text → Transaction → Bool
recorded same status reference x =
    elim x.reference [ none ↦ false | some r ↦ same r reference ] && status x.status

-- `update(PayoutQueue).where(id == ..., lock_version == ...).values(lock_version=...)`, and whether
-- it changed a row. A handler that skips or raises does not commit the update itself: it logs, and the
-- flush of the request's log entries at its end commits the session.
unfoldable pub acquire_lock : ℕ → ℕ → Exec Bool
acquire_lock payout_id version db = elim (get payout_id db.payouts) [
  | none ↦ (ok false, db)
  | some p ↦
      if p.lock_version == version
      then (
        ok true,
        record db { payouts = put payout_id (record p { lock_version = version + 1 }) db.payouts },
      )
      else (ok false, db)
]

-- The optimistic lock of the first payout that fits, if there is one.
unfoldable pub lock_payout : (ℕ → PayoutQueue → Bool) → Exec Bool
unfolding acquire_lock
lock_payout fits = do
  found ← gets (λ db. find? fits db.payouts)
  elim found [ none ↦ pure true | some (payout_id, p) ↦ acquire_lock payout_id p.lock_version ]

abbrev pub of_payout_task : ℕ → ℕ → PayoutQueue → Bool
of_payout_task task_id _ p = is_id p.task_id task_id

abbrev pub is_debt_settlement : ChargeKind → Bool
is_debt_settlement ChargeKind.debt_settlement = true
is_debt_settlement _ = false

abbrev pub is_task_payment : ChargeKind → Bool
is_task_payment ChargeKind.task_payment = true
is_task_payment _ = false

-- The lock that a charge takes: none for the settlement of a debt or without a task.
abbrev pub lock_charge : Charge → Exec Bool
lock_charge c = elim c.task_id [
  | none ↦ pure true
  | some task_id ↦
      if is_debt_settlement c.kind then pure true else lock_payout (of_payout_task task_id)
]

abbrev pub transaction_of : Charge → TransactionType → TransactionStatus → Transaction
transaction_of c kind status = record {
  amount = c.amount;
  transaction_type = kind;
  status = status;
  user_id = c.user_id;
  task_id = c.task_id;
  reference = some c.reference;
}

abbrev pub notify_user : ℕ → Text → Text → List (String × Text) → Exec ⊤
notify_user user_id title body payload = modify (λ db. record db {
  notifications = append db.notifications (record {
    recepients = user_id ∷ [];
    title = title;
    body = body;
    channels = [];
    payload = payload;
  });
})

-- The payment status of a task that waits for its customer.
abbrev pub awaits_payment : Option PaymentStatus → Bool
awaits_payment none = true
awaits_payment (some PaymentStatus.pending) = true
awaits_payment (some PaymentStatus.payment_requested) = true
awaits_payment (some PaymentStatus.failed) = true
awaits_payment _ = false

abbrev pub is_payable : PayoutStatus → Bool
is_payable PayoutStatus.pending = true
is_payable PayoutStatus.cancelled = true
is_payable _ = false

abbrev pub payable_for : ℕ → Option ℕ → ℕ → PayoutQueue → Bool
payable_for task_id provider_id _ p =
    is_id p.task_id task_id && same_id p.provider_id provider_id && is_payable p.status

-- `task.assigned_provider_id or (task.assignment.provider_id if task.assignment else None)`
abbrev pub provider_of : Task → Option (ℕ × TaskAssignment) → Option ℕ
provider_of t none = t.assigned_provider_id
provider_of t (some (_, a)) = elim t.assigned_provider_id [
  | none ↦ some a.provider_id
  | some id ↦ some id
]

-- Step 5 of `handle_charge_success`: the task is paid, and its provider's payout is started.
unfoldable pub settle_task_payment : Env → ℕ → Task → Exec ⊤
unfolding process_provider_payout
settle_task_payment env task_id t =
    if awaits_payment t.payment_status
    then (do
      save_task task_id (record t { payment_status = some PaymentStatus.customer_paid })
      modify (λ db. record db {
        payouts =
            update_where (payable_for task_id t.assigned_provider_id)
              (λ p. record p { status = PayoutStatus.customer_paid }) db.payouts;
      })
      assignment ← gets (λ db. find? (assignment_of task_id) db.assignments)
      elim (provider_of t assignment) [
        | none ↦ pure tt
        | some provider_id ↦ process_provider_payout env task_id provider_id
      ])
    else pure tt

-- The entry of a payment in the debt ledger of `provider_id or user_id`.
abbrev pub pay_debt : Charge → ℕ → Exec ⊤
pay_debt c provider_id = add_debt (record {
  provider_id = provider_id;
  task_id = none;
  amount = neg c.amount;
  reason = DebtReason.debt_payment;
})

abbrev pub debtor : Charge → Option ℕ
debtor c = elim c.provider_id [ some provider_id ↦ some provider_id | none ↦ c.user_id ]

abbrev pub settle_debt : Charge → Exec ⊤
settle_debt c = elim (debtor c) [ none ↦ pure tt | some provider_id ↦ pay_debt c provider_id ]

-- The task that a charge pays, `some none` if it pays none, `none` if the charge is skipped: its task
-- is not there, or costs more than was paid.
abbrev pub underpaid : Task → ℤ → Bool
underpaid t amount = elim t.customer_total_price [
  | none ↦ false
  | some price ↦ ltb_ℤ (pos 0) price && ltb_ℤ amount price
]

abbrev pub charged_task : Charge → Db → Option (Option (ℕ × Task))
charged_task c db =
    if is_task_payment c.kind
    then elim c.task_id [
      | none ↦ some none
      | some id ↦ elim (get id db.tasks) [
        | none ↦ none
        | some t ↦ if underpaid t c.amount then none else some (some (id, t))
      ]
    ]
    else some none

abbrev pub charge_type : ChargeKind → TransactionType
charge_type ChargeKind.debt_settlement = TransactionType.debt_settlement
charge_type _ = TransactionType.task_payment

-- Steps 3 to 6 of `handle_charge_success`.
unfoldable pub accept_charge : Env → Charge → Option (ℕ × Task) → Exec ⊤
unfolding settle_task_payment
accept_charge env c task = do
  add_transaction (transaction_of c (charge_type c.kind) TransactionStatus.success)
  if is_debt_settlement c.kind then settle_debt c else do
    elim task [ none ↦ pure tt | some (task_id, t) ↦ settle_task_payment env task_id t ]
    elim c.user_id [
      | none ↦ pure tt
      | some user_id ↦
          notify_user user_id (text "Payment Successful")
            (lit "Your payment of " ∷ naira c.amount ∷ lit " has been received successfully." ∷ [])
            (("transaction_id", shown (env.fresh 1) ∷ []) ∷ ("reference", c.reference) ∷ [])
    ]

-- `handle_charge_success`
unfoldable pub handle_charge_success : Env → (Text → Text → Bool) → Charge → Exec ⊤
unfolding lock_payout accept_charge
handle_charge_success env same c = if is_blank_text c.reference then pure tt else do
  locked ← lock_charge c
  if not locked then pure tt else do
    existing ← gets (λ db. any (recorded same is_success c.reference) db.transactions)
    if existing then pure tt else do
      task ← gets (charged_task c)
      elim task [ none ↦ pure tt | some task ↦ accept_charge env c task ]

-- `handle_charge_failed`
unfoldable pub handle_charge_failed : (Text → Text → Bool) → Charge → Exec ⊤
unfolding lock_payout
handle_charge_failed same c = elim c.user_id [
  | none ↦ pure tt
  | some user_id ↦ if not (truthy c.reference) then pure tt else do
    locked ← elim c.task_id [
      | none ↦ pure true
      | some task_id ↦ lock_payout (of_payout_task task_id)
    ]
    if not locked then pure tt else do
      existing ← gets (λ db. any (recorded same is_failed c.reference) db.transactions)
      if existing then pure tt else do
        add_transaction (transaction_of c TransactionType.task_payment TransactionStatus.failed)
        notify_user user_id (text "Payment Failed")
            (lit "Your payment of "
              ∷ naira c.amount
              ∷ lit " could not be processed. Please try again."
              ∷ [])
            (("reference", c.reference) ∷ [])
]
