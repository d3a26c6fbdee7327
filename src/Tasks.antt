-- ===== src/Tasks.antt =====
-- The drafts and the cancellation of tasks (app/features/tasks/task_service.py).
pub mod Cancellation
pub mod Adjustments
pub mod Completion
pub mod Edits
mod Tests
use mathlib.Core.Option
use package.text.Mathlib.Text.{◌==◌ as ◌=text◌}
use tasker_api.Prelude.{
  ℕ, ⊤, Bool, true, false, ◌&&◌, not, Option, none, some, String, List, [], ◌∷◌, ◌++◌, ◌==◌, is_id,
  is_some, if◌then◌else◌,
}
use tasker_api.Models.{
  Text, lit, shown, text, truthy, is_blank, TaskStatus, Task, task_status_value, CancelledBy,
  cancelled_by_value, TaskAssignmentStatus, TaskAssignment, DutyStatus, User,
}
use tasker_api.Table.{get, put, delete, find?, update}
use tasker_api.Db.{Db, Env, Notification}
use tasker_api.Db.Exec.{
  Error, http, ok, err, Exec, pure, raise, gets, or_raise, ◌>>=◌, ◌>>◌, modify, raise_if, when,
}
use tasker_api.Dispatch.{log_task_event, notify}
use tasker_api.Dispatch.Lifecycle.{assignment_of, is_over, set_duty}

abbrev pub is_draft : TaskStatus → Bool
is_draft TaskStatus.draft = true
is_draft _ = false

abbrev pub is_in_progress : TaskStatus → Bool
is_in_progress TaskStatus.in_progress = true
is_in_progress _ = false

abbrev pub change_task : ℕ → (Task → Task) → Exec ⊤
change_task id f = modify (λ db. record db { tasks = update id f db.tasks })

abbrev pub task_not_found : Error
task_not_found = http 404 (text "Task not found")

-- `confirm_draft`
unfoldable pub confirm_draft : Env → ℕ → ℕ → Exec (Option Task)
confirm_draft env task_id user_id = do
  task ← or_raise (← gets (λ db. get task_id db.tasks)) task_not_found
  raise_if (not (is_id task.customer_id user_id))
      (http 403 (text "Not authorized to confirm this task"))
  raise_if (not (is_draft task.status)) (http 400 (text "Task is not in draft status"))
  change_task task_id (λ t. record t { status = TaskStatus.opened; updated_at = env.now })
  log_task_event task_id "task_confirmed" (text "Customer confirmed draft task") (
      ("from_status", text "DRAFT")
      ∷ ("to_status", text "OPEN")
      ∷ ("user_id", shown user_id ∷ [])
      ∷ [])
  gets (λ db. get task_id db.tasks)

-- `cancel_draft`
unfoldable pub cancel_draft : ℕ → ℕ → Exec Bool
cancel_draft task_id user_id = do
  task ← or_raise (← gets (λ db. get task_id db.tasks)) task_not_found
  raise_if (not (is_id task.customer_id user_id))
      (http 403 (text "Not authorized to cancel this task"))
  raise_if (not (is_draft task.status)) (http 400 (text "Task is not in draft status"))
  modify (λ db. record db { tasks = delete task_id db.tasks })
  pure true

-- `cancellation_pin is not None and cancellation_pin.strip() != ""`
abbrev pub pin_provided : Option String → Bool
pin_provided none = false
pin_provided (some pin) = not (is_blank pin)

-- `assignment.cancellation_pin == cancellation_pin`
abbrev pub same_pin : Option String → Option String → Bool
same_pin none none = true
same_pin (some a) (some b) = a =text b
same_pin _ _ = false

-- Where the PIN counts: the customer cancels an assigned task in progress, and gives one.
abbrev pub pin_checked : Task → Option (ℕ × TaskAssignment) → Option String → Bool → Bool
pin_checked task assignment pin is_admin =
    not is_admin && is_in_progress task.status && is_some assignment && pin_provided pin

abbrev pub pin_matches : Option (ℕ × TaskAssignment) → Option String → Bool
pin_matches none pin = false
pin_matches (some (_, a)) pin = same_pin a.cancellation_pin pin

abbrev pub pin_valid : Task → Option (ℕ × TaskAssignment) → Option String → Bool → Bool
pin_valid task assignment pin is_admin =
    pin_checked task assignment pin is_admin && pin_matches assignment pin

abbrev pub canceller : Bool → CancelledBy
canceller true = CancelledBy.platform
canceller false = CancelledBy.customer

-- `cancellation_reason or default`
abbrev reason_or : Option Text → Option Text → Option Text
reason_or none default_reason = default_reason
reason_or (some r) default_reason = if truthy r then some r else default_reason

abbrev pub stored_reason : Option Text → Bool → Option Text
stored_reason reason true = reason_or reason (some (text "Cancelled by administrator"))
stored_reason reason false = reason_or reason none

abbrev event_name : Bool → String
event_name true = "task_cancelled_by_admin"
event_name false = "task_cancelled_by_customer"

abbrev event_reason : Option Text → Bool → Text
event_reason reason is_admin = elim (stored_reason reason is_admin) [
  | none ↦ text "Customer cancelled the task"
  | some r ↦ r
]

-- `str(b)`
abbrev shown_bool : Bool → Text
shown_bool true = text "True"
shown_bool false = text "False"

abbrev provider_entry : Option (ℕ × TaskAssignment) → List (String × Text)
provider_entry none = []
provider_entry (some (_, a)) = ("provider_id", shown a.provider_id ∷ []) ∷ []

abbrev pin_entries : Bool → Bool → List (String × Text)
pin_entries provided valid =
    ("pin_provided", shown_bool provided)
    ∷ ("pin_valid", shown_bool valid)
    ∷ (if provided then [] else ("penalty_applied", text "true") ∷ [])

abbrev cancel_assignment : Env → Bool → Option (ℕ × TaskAssignment) → Exec ⊤
cancel_assignment env is_admin none = pure tt
cancel_assignment env is_admin (some (id, a)) = do
  modify (λ db. record db {
    assignments =
        update id (λ x. record x { status = TaskAssignmentStatus.cancelled; updated_at = env.now })
          db.assignments;
  })
  when is_admin (set_duty a.provider_id DutyStatus.online_available)

abbrev cancellation_body : Task → Bool → Bool → Text
cancellation_body task valid true =
    lit "The task '" ∷ task.title ++ text "' has been cancelled by platform administration."
cancellation_body task valid false =
    if is_in_progress task.status
    then (if valid
        then lit "The customer has cancelled the task '" ∷ task.title
          ++ text "' by mutual agreement."
        else lit "The customer has cancelled the task '" ∷ task.title
          ++ text "' they started. This may result in a penalty charge.")
    else lit "The customer has cancelled the assigned task '" ∷ task.title ++ text "'."

abbrev notify_provider : ℕ → Task → Bool → Bool → Option (ℕ × TaskAssignment) → Exec ⊤
notify_provider task_id task valid is_admin none = pure tt
notify_provider task_id task valid is_admin (some (_, a)) = do
  provider ← gets (λ db. get a.provider_id db.users)
  when (is_some provider) (
      notify (record {
        recepients = a.provider_id ∷ [];
        title = text "Task Cancelled";
        body = cancellation_body task valid is_admin;
        channels = "push" ∷ [];
        payload =
            ("task_id", shown task_id ∷ [])
            ∷ ("task_title", task.title)
            ∷ ("cancelled_by", text (cancelled_by_value (canceller is_admin)))
            ∷ ("agreement_pin_used", shown_bool valid)
            ∷ [];
      }))

-- What follows the guards of `cancel_task`.
unfoldable pub carry_out :
    Env
    → ℕ
    → ℕ
    → Option Text
    → Option String
    → Bool
    → Task
    → Option (ℕ × TaskAssignment)
    → Exec (Option Task)
carry_out env task_id user_id reason pin is_admin task assignment = do
  let valid = pin_valid task assignment pin is_admin
  change_task task_id (λ t. record t {
    status = TaskStatus.cancelled;
    cancellation_reason = stored_reason reason is_admin;
    cancelled_by = some (canceller is_admin);
    updated_at = env.now;
  })
  cancel_assignment env is_admin assignment
  log_task_event task_id (event_name is_admin) (event_reason reason is_admin) (
      ("from_status", text (task_status_value task.status))
        ∷ ("to_status", text "CANCELLED")
        ∷ ("cancelled_by", text (cancelled_by_value (canceller is_admin)))
        ∷ ("user_id", shown user_id ∷ [])
        ∷ provider_entry assignment
      ++ (if not is_admin && is_in_progress task.status
          then pin_entries (pin_provided pin) valid
          else []))
  notify_provider task_id task valid is_admin assignment
  gets (λ db. get task_id db.tasks)

-- `cancel_task`; a row of an assignment always has a provider.
unfoldable pub cancel_task : Env → ℕ → ℕ → Option Text → Option String → Bool → Exec (Option Task)
unfolding carry_out
cancel_task env task_id user_id reason pin is_admin = do
  task ← or_raise (← gets (λ db. get task_id db.tasks)) task_not_found
  raise_if (not is_admin && not (is_id task.customer_id user_id))
      (http 403 (text "Not authorized to cancel this task"))
  raise_if (is_over task.status) (
      http 400 (
        lit "Cannot cancel task with status " ∷ lit (task_status_value task.status) ∷ lit "." ∷ []))
  assignment ← gets (λ db. find? (assignment_of task_id) db.assignments)
  raise_if (pin_checked task assignment pin is_admin && not (pin_matches assignment pin))
      (http 400 (text "Invalid cancellation PIN"))
  carry_out env task_id user_id reason pin is_admin task assignment
