-- ===== src/Dispatch.antt =====
-- The dispatch of tasks to providers (app/features/tasks/dispatch_service.py): sessions of pings,
-- automatic and manual retries, and the answers of the providers.
pub mod Policy
pub mod Lifecycle
pub mod Ping
mod Tests
pub mod Retries
pub mod Redispatch
pub mod Matching
pub mod Due
use mathlib.Core.Option
use tasker_api.Prelude.{
  ℕ, ◌+◌, ◌*◌, ⊤, Bool, true, false, ◌&&◌, not, Option, none, some, List, [], ◌∷◌, ◌++◌, ◌==◌,
  is_id, get_or, String, if◌then◌else◌,
}
use tasker_api.Models.{
  Text, lit, shown, text, truthy, TaskStatus, TaskDispatchStatus, Task, TaskAssignmentStatus,
  TaskAssignment, task_status_value, TaskEventHistory, DispatchSessionTrigger,
  DispatchSessionStatus, DispatchSession, DispatchAttemptStatus, TaskDispatchAttempt, DutyStatus,
  ProviderProfile, CredibilityReason,
}
use tasker_api.Table.{get, put, find?, update_where, max_where, count_where}
use tasker_api.Db.{Db, Env, Notification, execute_matching_engine, append}
use tasker_api.Db.Exec.{
  Error, http, ok, err, Exec, pure, raise, gets, or_raise, ◌>>=◌, ◌>>◌, modify, when, raise_if,
}
use tasker_api.Credibility
use Policy.{can_auto_retry, can_manual_redispatch, get_next_retry_delay}

-- `_save` for each kind of row, `_log_task_event`, and the outboxes.
abbrev pub save_task : ℕ → Task → Exec ⊤
save_task id t = modify (λ db. record db { tasks = put id t db.tasks })

abbrev pub save_session : ℕ → DispatchSession → Exec ⊤
save_session id s = modify (λ db. record db { sessions = put id s db.sessions })

abbrev pub save_attempt : ℕ → TaskDispatchAttempt → Exec ⊤
save_attempt id a = modify (λ db. record db { attempts = put id a db.attempts })

abbrev pub save_assignment : ℕ → TaskAssignment → Exec ⊤
save_assignment id a = modify (λ db. record db { assignments = put id a db.assignments })

abbrev pub log_task_event : ℕ → String → Text → List (String × Text) → Exec ⊤
log_task_event task_id event reason payload = modify (λ db. record db {
  history =
      append db.history
        (record { task_id = task_id; event = event; reason = some reason; payload = payload });
})

abbrev pub notify : Notification → Exec ⊤
notify n = modify (λ db. record db { notifications = append db.notifications n })

abbrev pub of_task : ℕ → ℕ → DispatchSession → Bool
of_task task_id _ s = s.task_id == task_id

-- `_get_next_sequence`
unfoldable pub get_next_sequence : ℕ → Db → ℕ
get_next_sequence task_id db = max_where (of_task task_id) (λ s. s.sequence) db.sessions + 1

-- The session that the three ways to start a dispatch create and hand to the matching engine.
unfoldable pub open_session :
    Env → ℕ → DispatchSessionTrigger → Option Text → Exec (ℕ × DispatchSession)
unfolding get_next_sequence
open_session env task_id trigger reason = do
  seq ← gets (get_next_sequence task_id)
  let dispatch_session : DispatchSession = record {
    task_id = task_id;
    trigger = trigger;
    status = DispatchSessionStatus.running;
    sequence = seq;
    started_at = env.now;
    completed_at = none;
    reason = reason;
    batch_size = 5;
    lock_version = 1;
    search_radius = some 1000;
    excluded_provider_ids = [];
    updated_at = env.now;
  }
  save_session (env.fresh 0) dispatch_session
  pure (env.fresh 0, dispatch_session)

abbrev pub run_engine : ℕ → Exec ⊤
run_engine session_id =
    modify (λ db. record db { jobs = append db.jobs (execute_matching_engine session_id) })

-- `task.status in (ASSIGNED, COMPLETED, CANCELLED)`
abbrev pub is_closed : TaskStatus → Bool
is_closed TaskStatus.assigned = true
is_closed TaskStatus.completed = true
is_closed TaskStatus.cancelled = true
is_closed _ = false

-- `start_initial_dispatch`
unfoldable pub start_initial_dispatch : Env → ℕ → Exec (Option (ℕ × DispatchSession))
unfolding open_session
start_initial_dispatch env task_id = do
  found ← gets (λ db. get task_id db.tasks)
  elim found [
    | none ↦ pure none
    | some task ↦ if is_closed task.status then pure none else do
      save_task task_id (record task {
        dispatch_status = some TaskDispatchStatus.dispatching;
        dispatch_claimed_at = some env.now;
        status = TaskStatus.searching;
        dispatch_started_at = some (get_or task.dispatch_started_at env.now);
      })
      dispatch_session ← open_session env task_id DispatchSessionTrigger.initial none
      run_engine dispatch_session.0
      pure (some dispatch_session)
  ]

-- `_handle_auto_exhaustion`
unfoldable pub handle_auto_exhaustion : Env → ℕ → Task → Option (ℕ × DispatchSession) → Exec ⊤
handle_auto_exhaustion env task_id task dispatch_session = do
  save_task task_id (record task {
    dispatch_status = some TaskDispatchStatus.auto_exhausted;
    status = TaskStatus.no_match;
    cancellation_reason =
        some (text "No available provider accepted the task after maximum automatic retries.");
  })
  elim dispatch_session [
    | none ↦ pure tt
    | some (id, s) ↦
        save_session id
          (record s { status = DispatchSessionStatus.exhausted; completed_at = some env.now })
  ]
  log_task_event task_id "AUTO_RETRY_EXHAUSTED"
      (text "Exhausted maximum automatic dispatch retries.") (("task_status", text "NO_MATCH") ∷ [])
  elim task.customer_id [
    | none ↦ pure tt
    | some customer_id ↦ notify (record {
      recepients = customer_id ∷ [];
      title = text "No Providers Available";
      body =
          lit "We couldn't find an available provider for your task '" ∷ task.title
          ++ text "' after multiple attempts. The task has expired.";
      channels = "PUSH" ∷ "IN_APP" ∷ [];
      payload =
          ("task_id", shown task_id ∷ [])
          ∷ ("type", text "TASK_EXPIRED")
          ∷ ("reason", text "auto_retry_exhausted")
          ∷ [];
    })
  ]

-- `auto_retry`
unfoldable pub auto_retry : Env → ℕ → Exec (Option (ℕ × DispatchSession))
unfolding open_session handle_auto_exhaustion can_auto_retry
auto_retry env task_id = do
  found ← gets (λ db. get task_id db.tasks)
  elim found [
    | none ↦ pure none
    | some task ↦
        if is_closed task.status
        then pure none
        else if not (can_auto_retry (get_or task.auto_dispatch_count 0))
        then (do handle_auto_exhaustion env task_id task none; pure none)
        else do
          save_task task_id (record task {
            auto_dispatch_count = some (get_or task.auto_dispatch_count 0 + 1);
            dispatch_status = some TaskDispatchStatus.dispatching;
            dispatch_claimed_at = some env.now;
            status = TaskStatus.searching;
          })
          dispatch_session ← open_session env task_id DispatchSessionTrigger.auto_retry none
          run_engine dispatch_session.0
          pure (some dispatch_session)
  ]
