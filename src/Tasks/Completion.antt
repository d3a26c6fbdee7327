-- ===== src/Tasks/Completion.antt =====
-- The work on a task: it is started and finished with the PINs of its customer
-- (app/features/tasks/router/assignments.py), and a worker books its end
-- (app/features/tasks/celery/completion.py). Who is signed in is an argument; logs and times are
-- left out.
pub mod Work
pub mod Ends
mod Tests
use mathlib.Core.Option
use package.text.Mathlib.Text.{◌==◌ as ◌=text◌}
use tasker_api.Prelude.{
  ℕ, ◌+◌, ⊤, Bool, true, false, is_id, ◌++◌, ◌&&◌, not, Option, none, some, String, List, [], ◌∷◌,
  ◌==◌,
}
use tasker_api.Models.{
  Text, lit, text, is_empty, TaskStatus, Task, task_status_value, TaskAssignmentStatus,
  TaskAssignment, DutyStatus, User, UserStats, PaymentMode, CredibilityReason,
}
use tasker_api.Table.{get, find?, put, update_where}
use tasker_api.Db.{
  Db, Env, Job, append, complete_task_assignment, process_task_payment_job, sync_provider_metrics,
  sync_service_metrics,
}
use tasker_api.Db.Exec.{
  Error, http, ok, err, Exec, pure, raise, gets, or_raise, ◌>>=◌, ◌>>◌, modify, raise_if, when,
}
use tasker_api.Dispatch.{save_task, save_assignment}
use tasker_api.Dispatch.Lifecycle.{assignment_of, set_duty, is_assigned}
use tasker_api.Credibility.{add}
use tasker_api.Tasks.{is_in_progress, same_pin}

-- The assignment of a task is unique.
abbrev pub assignment_for : ℕ → Exec (Option (ℕ × TaskAssignment))
assignment_for task_id = gets (λ db. find? (assignment_of task_id) db.assignments)

-- The PIN that the provider shows is there and the one that was given.
abbrev pub shown_pin : Option String → String → Bool
shown_pin none given = false
shown_pin (some pin) given = not (is_empty pin) && (pin =text given)

abbrev wrong_status : String → String → Task → Error
wrong_status verb expected task = http 409 (
    lit "Task cannot be "
    ∷ lit verb
    ∷ lit " from status '"
    ∷ lit (task_status_value task.status)
    ∷ lit "'. Expected '"
    ∷ lit expected
    ∷ lit "'."
    ∷ [])

-- The task and its assignment, for the provider who is assigned.
abbrev own_task : ℕ → ℕ → Exec (Task × (ℕ × TaskAssignment))
own_task task_id user_id = do
  task ← or_raise (← gets (λ db. get task_id db.tasks)) (http 404 (text "Task not found."))
  assignment ← or_raise (← assignment_for task_id) (http 404 (text "Task assignment not found"))
  raise_if (not (assignment.1.provider_id == user_id))
      (http 403 (text "You are not the assigned provider for this task."))
  pure (task, assignment)

-- `start_task`
unfoldable pub start_task : Env → ℕ → ℕ → String → Exec ⊤
start_task env task_id user_id pin = do
  found ← own_task task_id user_id
  let task = found.0
  raise_if (not (is_assigned task.status)) (wrong_status "started" "assigned" task)
  raise_if (not (same_pin task.start_pin (some pin))) (http 400 (text "Invalid start PIN."))
  save_task task_id (record task { status = TaskStatus.in_progress })
  assignment ← assignment_for task_id
  elim assignment [
    | none ↦ pure tt
    | some row ↦
        save_assignment row.0
          (record row.1 { status = TaskAssignmentStatus.in_progress; started_at = some env.now })
  ]

-- `complete_task`
unfoldable pub complete_task : ℕ → ℕ → String → PaymentMode → Exec ⊤
complete_task task_id user_id pin mode = do
  found ← own_task task_id user_id
  let task = found.0
  raise_if (not (is_in_progress task.status)) (wrong_status "completed" "in_progress" task)
  raise_if (not (same_pin task.completion_pin (some pin)))
      (http 400 (text "Invalid completion PIN."))
  modify (λ db. record db { jobs = append db.jobs (complete_task_assignment task_id user_id mode) })

-- `verify_provider_pin`, with the user in place of the part of it that is shown.
unfoldable pub verify_provider_pin : ℕ → ℕ → String → Exec User
verify_provider_pin task_id customer_id pin = do
  task ← or_raise (← gets (λ db. get task_id db.tasks)) (http 404 (text "Task not found."))
  raise_if (not (is_id task.customer_id customer_id))
      (http 403 (text "You are not authorized to verify provider for this task."))
  row ←
      or_raise (← assignment_for task_id)
        (http 404 (text "No assigned provider found for this task."))
  raise_if (not (shown_pin row.1.identity_pin pin)) (
      http 400 (
        text
          "Verification failed: We do not know who this person is and the PIN does not match. Do not allow them entry or contact them, as they may be an imposter."))
  or_raise (← gets (λ db. get row.1.provider_id db.users))
      (http 404 (text "Assigned provider user profile not found."))

abbrev pub stats_of : ℕ → ℕ → UserStats → Bool
stats_of user_id _ s = s.user_id == user_id

-- `_complete_task_assignment_async`; it returns the ids of the service and of the category.
unfoldable pub finish_assignment : Env → ℕ → ℕ → Exec (Option ℕ × Option ℕ)
finish_assignment env task_id provider_id = do
  assignment ← assignment_for task_id
  elim assignment [
    | none ↦ pure tt
    | some row ↦
        save_assignment row.0
          (record row.1 { status = TaskAssignmentStatus.completed; completed_at = some env.now })
  ]
  found ← gets (λ db. get task_id db.tasks)
  elim found [
    | none ↦ pure tt
    | some task ↦ save_task task_id (record task { status = TaskStatus.completed })
  ]
  set_duty provider_id DutyStatus.online_available
  modify (λ db. record db {
    stats =
        update_where (stats_of provider_id)
          (λ s. record s { total_tasks_completed = s.total_tasks_completed + 1 }) db.stats;
  })
  _ ← add provider_id CredibilityReason.task_completed (some task_id)
  pure (elim found [ none ↦ (none, none) | some task ↦ (task.service_id, task.category_id) ])

abbrev pub metrics_job : Option ℕ × Option ℕ → List Job
metrics_job (some service_id, some category_id) = sync_service_metrics service_id category_id ∷ []
metrics_job _ = []

-- `complete_task_assignment`, the Celery task.
unfoldable pub complete_task_assignment_task : Env → ℕ → ℕ → PaymentMode → Exec ⊤
unfolding finish_assignment
complete_task_assignment_task env task_id provider_id mode = do
  ids ← finish_assignment env task_id provider_id
  modify (λ db. record db {
    jobs =
        db.jobs
        ++ process_task_payment_job task_id provider_id mode
          ∷ sync_provider_metrics provider_id
          ∷ metrics_job ids;
  })
