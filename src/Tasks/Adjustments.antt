-- ===== src/Tasks/Adjustments.antt =====
-- The price adjustments of app/features/tasks/task_service.py: a provider asks for a price, and the
-- customer answers.
pub mod Prices
pub mod Late
use tasker_api.Prelude.{
  ℕ, ℤ, pos, ◌-ℤ◌, max_ℤ, round_ℤ, times, ⊤, Bool, true, false, ◌&&◌, not, Option, none, some,
  String, List, [], ◌∷◌, ◌++◌, ◌==◌, is_id, is_some, get_or, if◌then◌else◌,
}
use tasker_api.Models.{
  Text, lit, shown, naira, text, TaskStatus, Task, PriceAdjustmentStatus, TaskPriceAdjustment,
}
use tasker_api.Table.{get, put, find?, update}
use tasker_api.Db.{Db, Env, append}
use tasker_api.Db.Exec.{
  Error, http, ok, err, Exec, pure, raise, gets, or_raise, ◌>>=◌, ◌>>◌, modify, raise_if,
}
use tasker_api.Dispatch.{notify}
use tasker_api.Tasks.{change_task, task_not_found}

-- `PriceAdjustmentCreate`, of an amount of whole kobo.
pub record PriceAdjustmentCreate : Type 0 where
  pub amount : ℤ
  pub description : Option Text

abbrev pub is_active : TaskStatus → Bool
is_active TaskStatus.assigned = true
is_active TaskStatus.in_progress = true
is_active _ = false

abbrev pub is_pending_adjustment : Option PriceAdjustmentStatus → Bool
is_pending_adjustment (some PriceAdjustmentStatus.pending) = true
is_pending_adjustment _ = false

abbrev pub pending_adjustment_of : ℕ → ℕ → TaskPriceAdjustment → Bool
pending_adjustment_of task_id _ a = (a.task_id == task_id) && is_pending_adjustment a.status

abbrev save_adjustment : ℕ → TaskPriceAdjustment → Exec ⊤
save_adjustment id a = modify (λ db. record db { adjustments = put id a db.adjustments })

-- `log_task_event`, with a reason that may be missing.
abbrev log_event : ℕ → String → Option Text → List (String × Text) → Exec ⊤
log_event task_id event reason payload = modify (λ db. record db {
  history =
      append db.history
        (record { task_id = task_id; event = event; reason = reason; payload = payload });
})

abbrev notify_if : Option ℕ → Text → Text → List (String × Text) → Exec ⊤
notify_if none title body payload = pure tt
notify_if (some id) title body payload =
    notify (record {
      recepients = id ∷ [];
      title = title;
      body = body;
      channels = [];
      payload = payload;
    })

abbrev optional_text : Option Text → Text
optional_text none = text "None"
optional_text (some t) = t

abbrev optional_amount : Option ℤ → Text
optional_amount none = text "None"
optional_amount (some n) = naira n ∷ []

-- `request_price_adjustment`
unfoldable pub request_price_adjustment :
    Env → ℕ → ℕ → PriceAdjustmentCreate → Exec (ℕ × TaskPriceAdjustment)
request_price_adjustment env task_id provider_id schema = do
  task ← or_raise (← gets (λ db. get task_id db.tasks)) task_not_found
  raise_if (not (is_id task.assigned_provider_id provider_id))
      (http 403 (text "Only the assigned provider can request a price adjustment for this task"))
  raise_if (not (is_active task.status))
      (http 400 (text "Price adjustments can only be requested for active tasks"))
  existing ← gets (λ db. find? (pending_adjustment_of task_id) db.adjustments)
  raise_if (is_some existing)
      (http 400 (text "A price adjustment request is already pending for this task"))
  let adjustment : TaskPriceAdjustment = record {
    task_id = task_id;
    description = schema.description;
    amount = some schema.amount;
    requested_by = some provider_id;
    status = some PriceAdjustmentStatus.pending;
  }
  save_adjustment (env.fresh 0) adjustment
  log_event task_id "PRICE_ADJUSTMENT_REQUESTED" schema.description (
      ("adjustment_id", shown (env.fresh 0) ∷ [])
      ∷ ("amount", naira schema.amount ∷ [])
      ∷ ("requested_by", shown provider_id ∷ [])
      ∷ [])
  notify_if task.customer_id (text "Price Adjustment Requested")
      (lit "Provider requested a price adjustment of "
        ∷ naira schema.amount
        ∷ lit " for task: "
        ∷ task.title)
      (("task_id", shown task_id ∷ [])
        ∷ ("adjustment_id", shown (env.fresh 0) ∷ [])
        ∷ ("amount", naira schema.amount ∷ [])
        ∷ ("description", optional_text schema.description)
        ∷ [])
  pure (env.fresh 0, adjustment)

-- `max(0.0, float(adjustment.amount or 0.0))`
abbrev pub new_price : TaskPriceAdjustment → ℤ
new_price a = max_ℤ (pos 0) (get_or a.amount (pos 0))

-- The take rate of the task's service, in parts of ten thousand.
abbrev pub take_rate_of : Task → Db → ℕ
take_rate_of t db = elim t.service_id [
  | none ↦ 1500
  | some id ↦ elim (get id db.services) [ none ↦ 1500 | some s ↦ get_or s.take_rate 1500 ]
]

-- `round(new_customer_price * take_rate, 2)`
abbrev pub fee_at : ℕ → ℤ → ℤ
fee_at rate price = round_ℤ (times rate price) 10000

-- The task at a new price of whole kobo, on which the `round(..., 2)` of the payout does nothing.
abbrev pub repriced : ℕ → ℤ → Task → Task
repriced rate price t = record t {
  customer_total_price = some price;
  platform_fee = some (fee_at rate price);
  provider_payout = some (price -ℤ fee_at rate price);
}

abbrev pub answer : Bool → PriceAdjustmentStatus
answer true = PriceAdjustmentStatus.approved
answer false = PriceAdjustmentStatus.rejected

abbrev answer_value : Bool → Text
answer_value true = text "APPROVED"
answer_value false = text "REJECTED"

abbrev answer_event : Bool → String
answer_event true = "PRICE_ADJUSTMENT_APPROVED"
answer_event false = "PRICE_ADJUSTMENT_REJECTED"

abbrev answer_title : Bool → Text
answer_title true = text "Price Adjustment Approved"
answer_title false = text "Price Adjustment Declined"

abbrev answer_verb : Bool → Text
answer_verb true = text "Customer approved your price adjustment request of "
answer_verb false = text "Customer declined your price adjustment request of "

abbrev answer_body : Bool → TaskPriceAdjustment → Task → Text
answer_body approved a t =
    answer_verb approved ++ naira (get_or a.amount (pos 0)) ∷ lit " for task: " ∷ t.title

abbrev pub find_adjustment : ℕ → ℕ → Db → Option TaskPriceAdjustment
find_adjustment task_id id db = elim (get id db.adjustments) [
  | none ↦ none
  | some a ↦ if a.task_id == task_id then some a else none
]

-- `respond_to_price_adjustment`
unfoldable pub respond_to_price_adjustment : ℕ → ℕ → ℕ → Bool → Exec TaskPriceAdjustment
respond_to_price_adjustment task_id adjustment_id customer_id approved = do
  task ← or_raise (← gets (λ db. get task_id db.tasks)) task_not_found
  raise_if (not (is_id task.customer_id customer_id))
      (http 403 (text "Only the task customer can respond to price adjustments"))
  adjustment ←
      or_raise (← gets (find_adjustment task_id adjustment_id))
        (http 404 (text "Price adjustment request not found"))
  raise_if (not (is_pending_adjustment adjustment.status))
      (http 400 (text "This price adjustment request has already been processed"))
  let answered : TaskPriceAdjustment = record adjustment { status = some (answer approved) }
  rate ← gets (take_rate_of task)
  if approved then change_task task_id (repriced rate (new_price adjustment)) else pure tt
  save_adjustment adjustment_id answered
  log_event task_id (answer_event approved) adjustment.description (
      ("adjustment_id", shown adjustment_id ∷ [])
      ∷ ("amount", optional_amount adjustment.amount)
      ∷ ("customer_id", shown customer_id ∷ [])
      ∷ [])
  notify_if task.assigned_provider_id (answer_title approved) (answer_body approved adjustment task)
      (("task_id", shown task_id ∷ [])
        ∷ ("adjustment_id", shown adjustment_id ∷ [])
        ∷ ("status", answer_value approved)
        ∷ ("amount", optional_amount adjustment.amount)
        ∷ [])
  pure answered
