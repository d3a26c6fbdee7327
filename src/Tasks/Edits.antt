-- ===== src/Tasks/Edits.antt =====
-- The other operations of app/features/tasks/task_service.py on a task that exists: its update, its
-- deletion, which is a cancellation, and the checkout that a customer asks for.
use tasker_api.Prelude.{
  ℕ, pos, leb_ℤ, Bool, true, false, ◌&&◌, ◌||◌, not, Option, none, some, [], ◌∷◌, is_id, is_some,
  get_or,
}
use tasker_api.Models.{Text, shown, text, truthy, TaskStatus, Task, task_status_value}
use tasker_api.Table.{get}
use tasker_api.Db.{Env}
use tasker_api.Db.Exec.{Error, http, Exec, pure, gets, or_raise, ◌>>=◌, ◌>>◌, raise_if, when}
use tasker_api.Dispatch.{log_task_event}
use tasker_api.Payments.{ChargeRequest, Checkout}
use tasker_api.Tasks.{change_task, task_not_found}

-- `TaskUpdate`
pub record TaskUpdate : Type 0 where
  pub title : Option Text
  pub description : Option Text
  pub expires_at : Option ℕ
  pub scheduled_start_at : Option ℕ

abbrev pub changes_any : TaskUpdate → Bool
changes_any u =
    is_some u.title || is_some u.description || is_some u.scheduled_start_at || is_some u.expires_at

abbrev kept_or : Option ℕ → Option ℕ → Option ℕ
kept_or none old = old
kept_or (some new) old = some new

abbrev pub updated : Env → TaskUpdate → Task → Task
updated env u t = record t {
  title = get_or u.title t.title;
  description = get_or u.description t.description;
  scheduled_start_at = kept_or u.scheduled_start_at t.scheduled_start_at;
  expires_at = kept_or u.expires_at t.expires_at;
  updated_at = env.now;
}

-- `update_task`; the task that it returns is read again.
unfoldable pub update_task : Env → ℕ → ℕ → TaskUpdate → Bool → Exec (Option Task)
update_task env task_id user_id schema is_admin = do
  task ← or_raise (← gets (λ db. get task_id db.tasks)) task_not_found
  raise_if (not is_admin && not (is_id task.customer_id user_id))
      (http 403 (text "Not authorized to update this task"))
  when (changes_any schema) (change_task task_id (updated env schema))
  gets (λ db. get task_id db.tasks)

abbrev pub is_closed : TaskStatus → Bool
is_closed TaskStatus.completed = true
is_closed TaskStatus.cancelled = true
is_closed _ = false

-- `delete_task`
unfoldable pub delete_task : Env → ℕ → ℕ → Bool → Exec Bool
delete_task env task_id user_id is_admin = do
  task ← or_raise (← gets (λ db. get task_id db.tasks)) task_not_found
  raise_if (not is_admin && not (is_id task.customer_id user_id))
      (http 403 (text "Not authorized to cancel this task"))
  raise_if (is_closed task.status)
      (http 400 (text "Cannot cancel a task that is already completed or cancelled"))
  change_task task_id (λ t. record t { status = TaskStatus.cancelled; updated_at = env.now })
  log_task_event task_id "task_cancelled" (text "Task cancelled by user") (
      ("from_status", text (task_status_value task.status))
      ∷ ("to_status", text "CANCELLED")
      ∷ ("user_id", shown user_id ∷ [])
      ∷ [])
  pure true

abbrev pub can_prepay : TaskStatus → Bool
can_prepay TaskStatus.opened = true
can_prepay TaskStatus.searching = true
can_prepay _ = false

abbrev no_email : Error
no_email = http 400 (text "Customer email is required for payment")

abbrev pub has_url : Option Text → Bool
has_url none = false
has_url (some url) = truthy url

-- `initiate_task_payment`; the customer's name and telephone are not passed on.
unfoldable pub initiate_task_payment : (ChargeRequest → Checkout) → ℕ → ℕ → Exec Checkout
initiate_task_payment gateway task_id customer_id = do
  task ← or_raise (← gets (λ db. get task_id db.tasks)) task_not_found
  raise_if (not (is_id task.customer_id customer_id))
      (http 403 (text "Not authorized to initiate payment for this task"))
  raise_if (not (can_prepay task.status))
      (http 400 (text "Payment can only be initialized for open tasks"))
  customer ← or_raise (← gets (λ db. get customer_id db.users)) no_email
  raise_if (not (truthy customer.email)) no_email
  let total_amount = get_or task.customer_total_price (pos 0)
  raise_if (leb_ℤ total_amount (pos 0))
      (http 400 (text "Task total price has not been calculated or is invalid"))
  let checkout =
      gateway (record { email = customer.email; amount = total_amount; user_id = some customer_id })
  raise_if (not (has_url checkout.checkout_url))
      (http 500 (text "Payment gateway could not generate checkout url"))
  pure checkout
