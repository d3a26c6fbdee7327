-- ===== src/Payments.antt =====
-- The settlement of payments (app/features/payments/payment_service.py): cash and online payments of
-- a finished task, and the payout of its provider.
pub mod Ledger
pub mod Payout
pub mod Settlement
pub mod Charges
pub mod Settlements
pub mod Confirmations
mod Tests
pub mod Compare
use tasker_api.Prelude.{
  ℕ, ℤ, pos, ◌+ℤ◌, ◌-ℤ◌, ltb_ℤ, leb_ℤ, min_ℤ, max_ℤ, is_zero, ⊤, Bool, true, false, ◌&&◌, Option,
  none, some, String, List, [], ◌∷◌, ◌++◌, ◌==◌, is_id, get_or, if◌then◌else◌,
}
use tasker_api.Models.{
  Text, lit, shown, naira, text, Task, PaymentMode, PaymentStatus, DebtReason, ProviderDebt,
  PayoutStatus, PayoutQueue, TransactionType, TransactionStatus, Transaction, User,
}
use tasker_api.Table.{get, put, find?, update}
use tasker_api.Db.{Db, Env, Notification, process_transfer_task, append}
use tasker_api.Db.Exec.{
  Error, http, ok, err, Exec, pure, raise, gets, ◌>>=◌, ◌>>◌, modify, raise_if, when,
  integrity_error,
}
use tasker_api.Transfers.{create_transfer}

-- The arguments of `receive_payment` that the services give, and what it returns.
pub record ChargeRequest : Type 0 where
  pub email : Text
  pub amount : ℤ
  pub user_id : Option ℕ

pub record Checkout : Type 0 where
  pub checkout_url : Option Text
  pub reference : Option Text

-- `PaystackPaymentGateway.receive_payment`, which is a mock in the source.
unfoldable pub receive_payment : ChargeRequest → Checkout
receive_payment request = record {
  checkout_url = some (text "https://mock.checkout.url/123");
  reference = some (text "mock_ref_123");
}

-- `-x`
abbrev pub neg : ℤ → ℤ
neg x = pos 0 -ℤ x

-- `func.coalesce(func.sum(ProviderDebt.amount), 0.0)` over the entries of a provider.
unfoldable pub total_debt : ℕ → List ProviderDebt → ℤ
total_debt provider_id [] = pos 0
total_debt provider_id (d ∷ debts) =
    (if d.provider_id == provider_id then d.amount else pos 0) +ℤ total_debt provider_id debts

abbrev pub add_debt : ProviderDebt → Exec ⊤
add_debt d = modify (λ db. record db { debts = append db.debts d })

abbrev pub add_transaction : Transaction → Exec ⊤
add_transaction x = modify (λ db. record db { transactions = append db.transactions x })

abbrev pub save_task : ℕ → Task → Exec ⊤
save_task id t = modify (λ db. record db { tasks = put id t db.tasks })

abbrev pub payout_for : ℕ → ℕ → ℕ → PayoutQueue → Bool
payout_for task_id provider_id _ p = is_id p.task_id task_id && is_id p.provider_id provider_id

abbrev pub is_customer_paid : PayoutStatus → Bool
is_customer_paid PayoutStatus.customer_paid = true
is_customer_paid _ = false

-- `payout_obj.payout_amount or (task.provider_payout if task and task.provider_payout else 0.0)`
abbrev pub task_payout : Option Task → ℤ
task_payout none = pos 0
task_payout (some t) = get_or t.provider_payout (pos 0)

abbrev pub gross_payout : PayoutQueue → Option Task → ℤ
gross_payout p task = if is_zero p.payout_amount then task_payout task else p.payout_amount

-- What is kept back of a payout for the debt of the provider.
abbrev pub debt_offset : ℤ → ℤ → ℤ
debt_offset gross debt = if ltb_ℤ (pos 0) debt then min_ℤ gross debt else pos 0

-- The two ledger entries of an offset.
abbrev record_offset : ℕ → ℕ → ℤ → Exec ⊤
record_offset task_id provider_id offset = do
  add_debt (record {
    provider_id = provider_id;
    task_id = some task_id;
    amount = neg offset;
    reason = DebtReason.payout_offset;
  })
  add_transaction (record {
    amount = offset;
    transaction_type = TransactionType.debt_settlement;
    status = TransactionStatus.success;
    user_id = some provider_id;
    task_id = some task_id;
    reference = none;
  })

-- The transfer of what remains, and the job that processes it.
abbrev start_transfer : Env → ℕ → ℕ → ℕ → ℤ → Exec ⊤
start_transfer env payout_id task_id provider_id amount = do
  transfer ← create_transfer env payout_id task_id provider_id amount (text "NGN")
  modify (λ db. record db { jobs = append db.jobs (process_transfer_task transfer.0) })

-- `process_provider_payout`
unfoldable pub process_provider_payout : Env → ℕ → ℕ → Exec ⊤
unfolding total_debt create_transfer
process_provider_payout env task_id provider_id = do
  task ← gets (λ db. get task_id db.tasks)
  found ← gets (λ db. find? (payout_for task_id provider_id) db.payouts)
  elim found [
    | none ↦ pure tt
    | some (payout_id, payout) ↦
        if is_customer_paid payout.status
        then (do
          let gross = gross_payout payout task
          debt ← gets (λ db. total_debt provider_id db.debts)
          let offset = debt_offset gross debt
          let remaining = if ltb_ℤ (pos 0) debt then gross -ℤ offset else gross
          when (ltb_ℤ (pos 0) debt) (record_offset task_id provider_id offset)
          when (ltb_ℤ (pos 0) remaining)
              (start_transfer env payout_id task_id provider_id remaining)
          modify (λ db. record db {
            payouts =
                update payout_id
                  (λ p. record p {
                    payout_amount = gross;
                    status = PayoutStatus.transfer_initiated;
                  })
                  db.payouts;
          })
          elim task [
            | none ↦ pure tt
            | some t ↦
                save_task task_id
                  (record t { payment_status = some PaymentStatus.transfer_initiated })
          ])
        else pure tt
  ]

-- The constraint uq_payout_queue_task_provider_customer; a missing id is equal to none.
abbrev both_equal : Option ℕ → Option ℕ → Bool
both_equal none b = false
both_equal (some a) b = is_id b a

abbrev pub clashes : PayoutQueue → ℕ → PayoutQueue → Bool
clashes new _ p =
    both_equal new.task_id p.task_id
    && both_equal new.provider_id p.provider_id
    && both_equal new.customer_id p.customer_id

-- `payout_queue_repo.add`
abbrev pub add_payout : ℕ → PayoutQueue → Exec ⊤
add_payout id p = do
  clash ← gets (λ db. find? (clashes p) db.payouts)
  elim clash [
    | some row ↦ raise integrity_error
    | none ↦ modify (λ db. record db { payouts = put id p db.payouts })
  ]

-- `platform_fee or 0.0`
abbrev pub fee_of : Task → ℤ
fee_of t = get_or t.platform_fee (pos 0)

-- What the provider of a cash task has been paid.
abbrev pub cash_payout : Task → ℤ
cash_payout t =
    let rest = max_ℤ (pos 0) (get_or t.customer_total_price (pos 0) -ℤ fee_of t) in
    elim t.provider_payout [ none ↦ rest | some p ↦ if ltb_ℤ (pos 0) p then p else rest ]

-- `to_naira(price) if price else ""`
abbrev shown_price : Option ℤ → Text
shown_price none = []
shown_price (some n) = if is_zero n then [] else naira n ∷ []

abbrev notify_customer : Option ℕ → (ℕ → Notification) → Exec ⊤
notify_customer none n = pure tt
notify_customer (some id) n =
    modify (λ db. record db { notifications = append db.notifications (n id) })

-- The JSON value of the optional price in a notification's data.
abbrev price_value : Option ℤ → Text
price_value none = text "None"
price_value (some n) = naira n ∷ []

-- `_process_cash_payment`; the task that it changes in memory is returned. The commit of the debt
-- commits the task as well.
unfoldable pub process_cash_payment : Env → ℕ → Task → ℕ → Exec Task
process_cash_payment env task_id task provider_id = do
  let paid = record task { payment_status = some PaymentStatus.cash_paid }
  when (ltb_ℤ (pos 0) (fee_of task)) (do
    add_debt (record {
      provider_id = provider_id;
      task_id = some task_id;
      amount = fee_of task;
      reason = DebtReason.cash_task_commission;
    })
    save_task task_id paid)
  when (ltb_ℤ (pos 0) (cash_payout task)) (
      add_payout (env.fresh 0) (record {
        provider_id = some provider_id;
        customer_id = task.customer_id;
        task_id = some task_id;
        payout_amount = cash_payout task;
        customer_payment_amount = get_or task.customer_total_price (pos 0);
        status = PayoutStatus.completed;
        payment_url = none;
        url_generated_at = none;
        reference = none;
        lock_version = 1;
      }))
  notify_customer task.customer_id (λ id. record {
    recepients = id ∷ [];
    title = text "Task Completed — Paid in Cash";
    body =
        lit "Your task '" ∷ task.title
        ++ lit "' is completed. Payment of " ∷ shown_price task.customer_total_price
        ++ text " was settled in cash.";
    channels = "IN_APP" ∷ "PUSH" ∷ [];
    payload =
        ("task_id", shown task_id ∷ [])
        ∷ ("payment_mode", text "cash")
        ∷ ("amount", price_value task.customer_total_price)
        ∷ ("type", text "cash_payment_confirmed")
        ∷ [];
  })
  pure paid

abbrev email_of : Option ℕ → Db → Text
email_of none db = text "customer@example.com"
email_of (some id) db = elim (get id db.users) [
  | none ↦ text "customer@example.com"
  | some u ↦ u.email
]

-- `_process_online_payment`
unfoldable pub process_online_payment : Env → (ChargeRequest → Checkout) → ℕ → Task → ℕ → Exec Task
process_online_payment env gateway task_id task provider_id = do
  email ← gets (email_of task.customer_id)
  let checkout = gateway (record {
    email = email;
    amount = get_or task.customer_total_price (pos 0);
    user_id = task.customer_id;
  })
  when (ltb_ℤ (pos 0) (get_or task.provider_payout (pos 0))) (
      add_payout (env.fresh 0) (record {
        provider_id = some provider_id;
        customer_id = task.customer_id;
        task_id = some task_id;
        payout_amount = get_or task.provider_payout (pos 0);
        customer_payment_amount = get_or task.customer_total_price (pos 0);
        status = PayoutStatus.pending;
        payment_url = checkout.checkout_url;
        url_generated_at = some env.now;
        reference = checkout.reference;
        lock_version = 1;
      }))
  notify_customer task.customer_id (λ id. record {
    recepients = id ∷ [];
    title = text "Payment Requested for Completed Task";
    body =
        lit "Your task '" ∷ task.title
        ++ lit "' is completed. Tap to pay " ∷ shown_price task.customer_total_price
        ++ text " online.";
    channels = "IN_APP" ∷ "PUSH" ∷ "EMAIL" ∷ [];
    payload =
        ("task_id", shown task_id ∷ [])
        ∷ ("payment_url", get_or checkout.checkout_url [])
        ∷ ("amount", price_value task.customer_total_price)
        ∷ ("type", text "payment_request")
        ∷ [];
  })
  pure (record task {
    payment_url = checkout.checkout_url;
    payment_status = some PaymentStatus.payment_requested;
  })

-- `process_task_payment`; a text that names no mode is cash.
unfoldable pub process_task_payment :
    Env → (ChargeRequest → Checkout) → ℕ → ℕ → PaymentMode → Exec ⊤
unfolding process_cash_payment process_online_payment
process_task_payment env gateway task_id provider_id mode = do
  found ← gets (λ db. get task_id db.tasks)
  elim found [
    | none ↦ pure tt
    | some t ↦ do
      let task = record t { payment_mode = some mode }
      changed ← elim mode [
        | PaymentMode.cash ↦ process_cash_payment env task_id task provider_id
        | PaymentMode.online ↦ process_online_payment env gateway task_id task provider_id
      ]
      save_task task_id changed
  ]
