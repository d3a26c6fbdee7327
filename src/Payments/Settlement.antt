-- ===== src/Payments/Settlement.antt =====
-- What `process_task_payment` books for a finished task, in each mode.
use tasker_api.Prelude.{
  ℕ, ℤ, pos, ◌+ℤ◌, ◌-ℤ◌, ltb_ℤ, max_ℤ, int_laws, ◌≡◌, refl, Option, none, some, List, [], ◌∷◌, ◌++◌,
  arith, get_or, if◌then◌else◌, Bool-cases, inl, inr, ==_refl,
}
use tasker_api.Models.{
  Text, text, Task, PaymentMode, PaymentStatus, PayoutStatus, PayoutQueue, ProviderDebt, DebtReason,
}
use tasker_api.Table.{Table, get, put, find?}
use tasker_api.Table.Laws.{get-put_self}
use tasker_api.Db.{Db, Env}
use tasker_api.Db.Exec.{ok}
use tasker_api.Payments.{
  ChargeRequest, Checkout, process_task_payment, process_cash_payment, process_online_payment,
  total_debt, clashes,
}
use tasker_api.Payments.Ledger.{total_debt-append}

-- The platform's fee, and what the provider of a cash task keeps: the payout that was agreed, or the
-- price without the fee.
abbrev pub platform_share : Task → ℤ
platform_share t = get_or t.platform_fee (pos 0)

abbrev pub cash_share : Task → ℤ
cash_share t =
    let rest = max_ℤ (pos 0) (get_or t.customer_total_price (pos 0) -ℤ platform_share t) in
    elim t.provider_payout [ none ↦ rest | some p ↦ if ltb_ℤ (pos 0) p then p else rest ]

abbrev pub contact : Option ℕ → Db → Text
contact none db = text "customer@example.com"
contact (some id) db = elim (get id db.users) [
  | none ↦ text "customer@example.com"
  | some u ↦ u.email
]

abbrev pub charge_of : Task → Db → ChargeRequest
charge_of t db = record {
  email = contact t.customer_id db;
  amount = get_or t.customer_total_price (pos 0);
  user_id = t.customer_id;
}

-- The payout that is queued for the task: what the provider is owed, and with which status and link.
abbrev pub queued : Env → ℕ → ℕ → Task → ℤ → PayoutStatus → Option Checkout → PayoutQueue
queued env task_id provider_id t amount status checkout = record {
  provider_id = some provider_id;
  customer_id = t.customer_id;
  task_id = some task_id;
  payout_amount = amount;
  customer_payment_amount = get_or t.customer_total_price (pos 0);
  status = status;
  payment_url = elim checkout [ none ↦ none | some c ↦ c.checkout_url ];
  url_generated_at = elim checkout [ none ↦ none | some c ↦ some env.now ];
  reference = elim checkout [ none ↦ none | some c ↦ c.reference ];
  lock_version = 1;
}

-- The payouts after `p` is queued, if its amount is positive.
abbrev pub with_payout : Env → PayoutQueue → Table PayoutQueue → Table PayoutQueue
with_payout env p payouts =
    if ltb_ℤ (pos 0) p.payout_amount then put (env.fresh 0) p payouts else payouts

abbrev pub paid_in_cash : Task → Task
paid_in_cash t = record t {
  payment_mode = some PaymentMode.cash;
  payment_status = some PaymentStatus.cash_paid;
}

-- The ledger after the fee of a cash task is charged.
abbrev fee_debts : ℕ → ℕ → Task → List ProviderDebt → List ProviderDebt
fee_debts task_id provider_id t debts =
    if ltb_ℤ (pos 0) (platform_share t)
    then debts
      ++ record {
        provider_id = provider_id;
        task_id = some task_id;
        amount = platform_share t;
        reason = DebtReason.cash_task_commission;
      }
        ∷ []
    else debts

module _ (env : Env) (gateway : ChargeRequest → Checkout) (task_id provider_id : ℕ) (t : Task)
    (db : Db) (there : get task_id db.tasks ≡ some t) where
  abbrev pub cash_queued : PayoutQueue
  cash_queued = queued env task_id provider_id t (cash_share t) PayoutStatus.completed none

  abbrev pub online_queued : PayoutQueue
  online_queued =
      queued env task_id provider_id t (get_or t.provider_payout (pos 0)) PayoutStatus.pending
        (some (gateway (charge_of t db)))

  cash_writes :
      find? (clashes cash_queued) db.payouts ≡ none
      → let (r, db') = process_task_payment env gateway task_id provider_id PaymentMode.cash db in
        (r ≡ ok tt)
        × (get task_id db'.tasks ≡ some (paid_in_cash t))
        × (db'.debts ≡ fee_debts task_id provider_id t db.debts)
        × (db'.payouts
            ≡ with_payout env
                (queued env task_id provider_id t (cash_share t) PayoutStatus.completed none)
                db.payouts)
        × (db'.transfers ≡ db.transfers)
        × (db'.jobs ≡ db.jobs)
  unfolding process_task_payment process_cash_payment
  cash_writes unique = elim (Bool-cases (ltb_ℤ (pos 0) (platform_share t))) [
    | inl fee ↦ elim (Bool-cases (ltb_ℤ (pos 0) (cash_share t))) [
      | inl owed ↦ grind (arith, get-put_self)
      | inr nothing ↦ grind (arith, get-put_self)
    ]
    | inr no_fee ↦ elim (Bool-cases (ltb_ℤ (pos 0) (cash_share t))) [
      | inl owed ↦ grind (arith, get-put_self)
      | inr nothing ↦ grind (arith, get-put_self)
    ]
  ]

  fee_charged :
      total_debt provider_id (fee_debts task_id provider_id t db.debts)
      ≡ total_debt provider_id db.debts +ℤ max_ℤ (pos 0) (platform_share t)
  fee_charged = elim (Bool-cases (ltb_ℤ (pos 0) (platform_share t))) [
    | inl fee ↦ rw (fee, total_debt-append, ==_refl) refl
    | inr no_fee ↦ rw no_fee (grind int_laws)
  ]

  -- A cash payment, if no payout is queued yet for the task, its provider and its customer, leaves the
  -- task CASH_PAID, charges the platform fee, if it is positive, to the
  -- provider's debt, queues what the provider was paid, if that is positive, as a COMPLETED payout,
  -- and starts no transfer and no job.
  pub cash_payment_books :
      find? (clashes cash_queued) db.payouts ≡ none
      → let (r, db') = process_task_payment env gateway task_id provider_id PaymentMode.cash db in
        (r ≡ ok tt)
        × (get task_id db'.tasks
            ≡ some (record t {
              payment_mode = some PaymentMode.cash;
              payment_status = some PaymentStatus.cash_paid;
            }))
        × (total_debt provider_id db'.debts
            ≡ total_debt provider_id db.debts +ℤ max_ℤ (pos 0) (platform_share t))
        × (db'.payouts
            ≡ with_payout env
                (queued env task_id provider_id t (cash_share t) PayoutStatus.completed none)
                db.payouts)
        × (db'.transfers ≡ db.transfers)
        × (db'.jobs ≡ db.jobs)
  cash_payment_books unique =
      let (returned, tasks, debts, payouts, transfers, jobs) = cash_writes unique in
      (returned, tasks, rw debts fee_charged, payouts, transfers, jobs)

  -- An online payment, if no payout is queued yet for the task, its provider and its customer, leaves
  -- the task PAYMENT_REQUESTED with the link of the checkout for its
  -- price, queues the provider's payout, if that is positive, as PENDING, and changes no debt,
  -- transfer or job.
  pub online_payment_requests :
      find? (clashes online_queued) db.payouts ≡ none
      → let checkout = gateway (charge_of t db) in
        let (r, db') = process_task_payment env gateway task_id provider_id PaymentMode.online db in
        (r ≡ ok tt)
        × (get task_id db'.tasks
            ≡ some (record t {
              payment_mode = some PaymentMode.online;
              payment_url = checkout.checkout_url;
              payment_status = some PaymentStatus.payment_requested;
            }))
        × (db'.payouts
            ≡ with_payout env
                (queued env task_id provider_id t
                  (get_or t.provider_payout (pos 0))
                  PayoutStatus.pending
                  (some checkout))
                db.payouts)
        × (db'.debts ≡ db.debts)
        × (db'.transfers ≡ db.transfers)
        × (db'.jobs ≡ db.jobs)
  unfolding process_task_payment process_online_payment
  online_payment_requests unique = grind (arith, get-put_self)
