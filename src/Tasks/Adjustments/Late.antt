-- ===== src/Tasks/Adjustments/Late.antt =====
-- An adjustment that is approved while the customer's payment of the old price is under way.
use tasker_api.Prelude.{ℕ, pos, ltb_ℤ, ◌≡◌, Bool, true, some, arith, is_id}
use tasker_api.Models.{Text, Task, TaskPriceAdjustment}
use tasker_api.Table.{get}
use tasker_api.Db.{Db, Env}
use tasker_api.Payments.Charges.{Charge, ChargeKind, handle_charge_success}
use tasker_api.Payments.Charges.Locks.{OnlyLocks}
use tasker_api.Payments.Charges.Repeats.{is_refused, charge_refused}
use tasker_api.Tasks.Adjustments.{
  respond_to_price_adjustment, is_pending_adjustment, new_price, take_rate_of, repriced,
}
use tasker_api.Tasks.Adjustments.Prices.{respond_writes}

module _ (env : Env) (same : Text → Text → Bool) (c : Charge)
    (task_id adjustment_id customer_id : ℕ) (t : Task) (a : TaskPriceAdjustment) (db : Db)
    (there : get task_id db.tasks ≡ some t) (mine : is_id t.customer_id customer_id ≡ true)
    (asked : get adjustment_id db.adjustments ≡ some a) (of_task : a.task_id ≡ task_id)
    (waits : is_pending_adjustment a.status ≡ true) where
  underpaid_now :
      (db' : Db) (rate : ℕ)
      → c.kind ≡ ChargeKind.task_payment
      → c.task_id ≡ some task_id
      → get task_id db'.tasks ≡ some (repriced rate (new_price a) t)
      → ltb_ℤ c.amount (new_price a) ≡ true
      → ltb_ℤ (pos 0) (new_price a) ≡ true
      → is_refused env same c db' ≡ true
  underpaid_now db' rate kind charged repriced_there less costs = ground arith

  -- A task whose customer approves a pending adjustment, whatever the status of the task and of its
  -- payment. A charge for the task of less than the new price, for instance one for the old price that
  -- the customer was already asked to pay, is then refused: it writes nothing but the lock version of
  -- a payout, so that the payment is not recorded and the provider is not paid.
  pub late_approval-refuses :
      c.kind ≡ ChargeKind.task_payment
      → c.task_id ≡ some task_id
      → ltb_ℤ (pos 0) (new_price a) ≡ true
      → ltb_ℤ c.amount (new_price a) ≡ true
      → let db' = (respond_to_price_adjustment task_id adjustment_id customer_id true db).1 in
        OnlyLocks db' (handle_charge_success env same c db').1
  late_approval-refuses kind charged costs less =
      let db' = (respond_to_price_adjustment task_id adjustment_id customer_id true db).1 in
      let (returned, row, task) =
        respond_writes task_id adjustment_id customer_id t a db there mine asked of_task waits
          true in
      charge_refused env same c db'
        (underpaid_now db' (take_rate_of t db) kind charged task less costs)
