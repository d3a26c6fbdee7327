-- ===== src/Dispatch/Ping.antt =====
-- app/features/tasks/dispatch_service.py: the answer of a provider to a ping, or its timeout.
pub mod Acceptance
pub mod Winner
use mathlib.Core.Option
use tasker_api.Prelude.{
  ℕ, ◌+◌, ⊤, Bool, true, false, ◌&&◌, not, Option, none, some, List, [], ◌∷◌, ◌++◌, ◌==◌, is_id,
  is_some, get_or, String, if◌then◌else◌,
}
use tasker_api.Models.{
  Text, lit, shown, text, is_empty, is_blank, stripped, TaskStatus, TaskDispatchStatus, Task,
  TaskAssignmentStatus, TaskAssignment, DispatchSessionStatus, DispatchSession,
  DispatchAttemptStatus, TaskDispatchAttempt, DutyStatus, ProviderProfile, CredibilityReason,
}
use tasker_api.Table.{get, put, find?, update_where, count_where}
use tasker_api.Db.{Db, Env}
use tasker_api.Db.Exec.{
  Error, ok, err, Exec, pure, raise, gets, ◌>>=◌, ◌>>◌, modify, one_or_none_of,
}
use tasker_api.Credibility
use tasker_api.Dispatch.{
  save_task, save_session, save_attempt, save_assignment, log_task_event, notify,
}
use tasker_api.Dispatch.Lifecycle.{handle_no_match, assignment_of, profile_of, is_assigned}

abbrev pub is_pending : Option DispatchAttemptStatus → Bool
is_pending (some DispatchAttemptStatus.pending) = true
is_pending _ = false

abbrev pub is_accepted : Option DispatchAttemptStatus → Bool
is_accepted (some DispatchAttemptStatus.accepted) = true
is_accepted _ = false

-- The pending ping of a task to a provider; the pending pings of a task; the accepted one.
abbrev pub pending_of : ℕ → ℕ → ℕ → TaskDispatchAttempt → Bool
pending_of task_id provider_id _ a =
    (a.task_id == task_id) && (a.provider_id == provider_id) && is_pending a.status

abbrev pub pending_for : ℕ → ℕ → TaskDispatchAttempt → Bool
pending_for task_id _ a = (a.task_id == task_id) && is_pending a.status

abbrev pub accepted_for : ℕ → ℕ → TaskDispatchAttempt → Bool
accepted_for task_id _ a = (a.task_id == task_id) && is_accepted a.status

abbrev pub accepted_by_other : ℕ → ℕ → ℕ → TaskDispatchAttempt → Bool
accepted_by_other task_id provider_id _ a =
    (a.task_id == task_id) && is_accepted a.status && not (a.provider_id == provider_id)

-- The pings that an acceptance cancels: the other pending ones of the task.
abbrev pub cancelled_by_acceptance : ℕ → ℕ → ℕ → TaskDispatchAttempt → Bool
cancelled_by_acceptance task_id attempt_id id a =
    (a.task_id == task_id) && not (id == attempt_id) && is_pending a.status

abbrev is_running : DispatchSessionStatus → Bool
is_running DispatchSessionStatus.running = true
is_running _ = false

abbrev running_for : ℕ → ℕ → DispatchSession → Bool
running_for task_id _ s = (s.task_id == task_id) && is_running s.status

-- `if not assignment.identity_pin: ...`
abbrev keep_pin : Option String → String → String
keep_pin none new = new
keep_pin (some pin) new = if is_empty pin then new else pin

-- The assignment of the task is given to the provider, or made.
abbrev assign : Env → ℕ → ℕ → Option (ℕ × TaskAssignment) → Exec ⊤
assign env task_id provider_id none = save_assignment (env.fresh 0) (record {
  task_id = task_id;
  provider_id = provider_id;
  assigned_at = env.now;
  started_at = none;
  completed_at = none;
  identity_pin = some (env.pin 0);
  cancellation_pin = some (env.pin 1);
  status = TaskAssignmentStatus.assigned;
  updated_at = env.now;
})
assign env task_id provider_id (some (id, a)) = save_assignment id (record a {
  provider_id = provider_id;
  status = TaskAssignmentStatus.assigned;
  assigned_at = env.now;
  identity_pin = some (keep_pin a.identity_pin (env.pin 0));
})

abbrev assignment_id : Option (ℕ × TaskAssignment) → Text
assignment_id none = text "None"
assignment_id (some (id, _)) = shown id ∷ []

abbrev provider_name : Option (ℕ × ProviderProfile) → Text
provider_name none = text "A provider"
provider_name (some (_, p)) = elim p.first_name [
  | none ↦ text "A provider"
  | some name ↦ if is_blank name then text "A provider" else stripped name ∷ []
]

abbrev notify_match : ℕ → ℕ → Option (ℕ × ProviderProfile) → Option Task → Exec ⊤
notify_match task_id provider_id profile none = pure tt
notify_match task_id provider_id profile (some task) = elim task.customer_id [
  | none ↦ pure tt
  | some customer_id ↦ notify (record {
    recepients = customer_id ∷ [];
    title = text "Matched!";
    body = provider_name profile ++ (lit " has accepted your task '" ∷ task.title) ++ text "'.";
    channels = "PUSH" ∷ "IN_APP" ∷ [];
    payload =
        ("task_id", shown task_id ∷ [])
        ∷ ("task_title", task.title)
        ∷ ("provider_id", shown provider_id ∷ [])
        ∷ ("status", text "ASSIGNED")
        ∷ ("type", text "SYSTEM_ALERT")
        ∷ [];
  })
]

abbrev start_duty : Option (ℕ × ProviderProfile) → Exec ⊤
start_duty none = pure tt
start_duty (some (id, p)) = modify (λ db. record db {
  profiles = put id (record p { duty_status = some DutyStatus.on_task }) db.profiles;
})

-- `_process_acceptance`. Its last two updates are committed by the notification or, without a customer,
-- by the flush of the request's log entries at its end.
unfoldable pub process_acceptance : Env → ℕ → ℕ → ℕ → Exec ⊤
process_acceptance env task_id provider_id attempt_id = do
  task ← gets (λ db. get task_id db.tasks)
  elim task [
    | none ↦ pure tt
    | some t ↦ save_task task_id (record t {
      status = TaskStatus.assigned;
      dispatch_status = some TaskDispatchStatus.matched;
      assigned_provider_id = some provider_id;
    })
  ]
  assignment ← one_or_none_of (λ db. db.assignments) (assignment_of task_id)
  assign env task_id provider_id assignment
  log_task_event task_id "task_assigned" (text "Provider accepted dispatch and task was assigned") (
      ("provider_id", shown provider_id ∷ [])
      ∷ ("assigned_provider_id", shown provider_id ∷ [])
      ∷ ("task_status", text "ASSIGNED")
      ∷ ("assignment_id", assignment_id assignment)
      ∷ [])
  profile ← one_or_none_of (λ db. db.profiles) (profile_of provider_id)
  start_duty profile
  modify (λ db. record db {
    sessions =
        update_where (running_for task_id)
          (λ s. record s {
            status = DispatchSessionStatus.assigned;
            completed_at = some env.now;
            updated_at = env.now;
          })
          db.sessions;
  })
  modify (λ db. record db {
    attempts =
        update_where (cancelled_by_acceptance task_id attempt_id)
          (λ a. record a {
            status = some DispatchAttemptStatus.cancelled;
            responded_at = some env.now;
          })
          db.attempts;
  })
  notify_match task_id provider_id profile task

abbrev is_on_dispatch : Option DutyStatus → Bool
is_on_dispatch (some DutyStatus.on_dispatch) = true
is_on_dispatch _ = false

abbrev is_searching : TaskStatus → Bool
is_searching TaskStatus.searching = true
is_searching _ = false

abbrev on_dispatch : ℕ → ℕ → ProviderProfile → Bool
on_dispatch user_id _ p = (p.user_id == user_id) && is_on_dispatch p.duty_status

abbrev retry_if_searching : Env → ℕ → Option ℕ → Option Task → Exec ⊤
retry_if_searching env task_id session_id none = pure tt
retry_if_searching env task_id session_id (some task) =
    if is_searching task.status
    then elim session_id [
      | none ↦ pure tt
      | some id ↦
          handle_no_match env task_id id (some (text "All candidate pings declined or timed out"))
    ]
    else pure tt

-- `_process_decline_or_timeout`. The update of the duty is committed by what follows, at the latest by
-- the flush of the request's log entries at its end.
unfoldable pub process_decline_or_timeout : Env → ℕ → ℕ → TaskDispatchAttempt → Exec ⊤
unfolding handle_no_match Credibility.add
process_decline_or_timeout env task_id provider_id attempt = do
  Credibility.add provider_id CredibilityReason.task_declined (some task_id)
  modify (λ db. record db {
    profiles =
        update_where (on_dispatch provider_id)
          (λ p. record p { duty_status = some DutyStatus.online_available }) db.profiles;
  })
  pending_count ← gets (λ db. count_where (pending_for task_id) db.attempts)
  task ← gets (λ db. get task_id db.tasks)
  if pending_count == 0
      then retry_if_searching env task_id attempt.dispatch_session_id task
      else pure tt

-- The statuses that a response can bring about: anything but ACCEPTED and DECLINED is a timeout.
abbrev pub responded_status : DispatchAttemptStatus → DispatchAttemptStatus
responded_status DispatchAttemptStatus.accepted = DispatchAttemptStatus.accepted
responded_status DispatchAttemptStatus.declined = DispatchAttemptStatus.declined
responded_status _ = DispatchAttemptStatus.timeout

abbrev pub is_assigned_task : Option Task → Bool
is_assigned_task none = false
is_assigned_task (some task) = is_assigned task.status

-- What follows the guards: the response is recorded and acted on.
unfoldable pub record_response :
    Env → ℕ → ℕ → ℕ → TaskDispatchAttempt → DispatchAttemptStatus → Exec ⊤
unfolding process_acceptance process_decline_or_timeout
record_response env task_id provider_id attempt_id attempt new_status = do
  let answered = record attempt { status = some new_status; responded_at = some env.now }
  save_attempt attempt_id answered
  elim new_status [
    | DispatchAttemptStatus.accepted ↦ process_acceptance env task_id provider_id attempt_id
    | _ ↦ process_decline_or_timeout env task_id provider_id answered
  ]

-- `handle_ping_response`
unfoldable pub handle_ping_response : Env → ℕ → ℕ → DispatchAttemptStatus → Exec ⊤
unfolding record_response
handle_ping_response env task_id provider_id response = do
  found ← one_or_none_of (λ db. db.attempts) (pending_of task_id provider_id)
  elim found [
    | none ↦ pure tt
    | some (attempt_id, attempt) ↦ do
      task ← gets (λ db. get task_id db.tasks)
      let new_status = responded_status response
      if is_accepted (some new_status)
          then (if is_assigned_task task then pure tt else do
            existing ← one_or_none_of (λ db. db.attempts) (accepted_by_other task_id provider_id)
            if is_some existing
                then pure tt
                else record_response env task_id provider_id attempt_id attempt new_status)
          else record_response env task_id provider_id attempt_id attempt new_status
  ]
