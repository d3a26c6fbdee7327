-- ===== src/Dispatch/Lifecycle.antt =====
-- app/features/tasks/dispatch_service.py: the manual redispatch, and what follows a session that
-- matched nobody.
use mathlib.Core.Option
use tasker_api.Prelude.{
  ℕ, ◌+◌, ◌*◌, ⊤, Bool, true, false, not, Option, none, some, [], ◌∷◌, ◌==◌, is_id, get_or,
  if◌then◌else◌,
}
use tasker_api.Models.{
  Text, lit, shown, text, truthy, or_text, TaskStatus, TaskDispatchStatus, Task,
  TaskAssignmentStatus, TaskAssignment, task_status_value, DispatchSessionTrigger,
  DispatchSessionStatus, DispatchSession, DutyStatus, ProviderProfile,
}
use tasker_api.Table.{get, find?, update_where}
use tasker_api.Db.{Env}
use tasker_api.Db.Exec.{http, Exec, pure, gets, or_raise, ◌>>=◌, ◌>>◌, modify, raise_if}
use tasker_api.Dispatch.{
  save_task, save_session, save_assignment, log_task_event, open_session, run_engine,
  handle_auto_exhaustion,
}
use tasker_api.Dispatch.Policy.{can_auto_retry, can_manual_redispatch, get_next_retry_delay}

abbrev pub second : ℕ
second = 1000000

-- `handle_no_match`
unfoldable pub handle_no_match : Env → ℕ → ℕ → Option Text → Exec ⊤
unfolding handle_auto_exhaustion can_auto_retry
handle_no_match env task_id session_id reason = do
  task ← gets (λ db. get task_id db.tasks)
  dispatch_session ← gets (λ db. get session_id db.sessions)
  let failed =
      Option.map
        (λ (s : DispatchSession). record s {
          status = DispatchSessionStatus.failed;
          completed_at = some env.now;
          reason = some (or_text reason (text "No eligible candidate providers found"));
        })
        dispatch_session
  elim failed [ none ↦ pure tt | some s ↦ save_session session_id s ]
  elim task [
    | none ↦ pure tt
    | some t ↦
        let count = get_or t.auto_dispatch_count 0 in
        if can_auto_retry count
        then (do
          save_task task_id (record t {
            dispatch_status = some TaskDispatchStatus.retry_scheduled;
            next_dispatch_at = some (env.now + get_next_retry_delay count * second);
          })
          log_task_event task_id "AUTO_RETRY_SCHEDULED"
              (lit "Scheduled auto retry attempt "
                ∷ shown (count + 1)
                ∷ lit " in "
                ∷ shown (get_next_retry_delay count)
                ∷ lit ".0s"
                ∷ [])
              (("task_status", text (task_status_value t.status)) ∷ []))
        else handle_auto_exhaustion env task_id t
            (Option.map (λ (s : DispatchSession). (session_id, s)) failed)
  ]

abbrev pub is_assigned : TaskStatus → Bool
is_assigned TaskStatus.assigned = true
is_assigned _ = false

abbrev pub is_over : TaskStatus → Bool
is_over TaskStatus.completed = true
is_over TaskStatus.cancelled = true
is_over _ = false

abbrev pub assignment_of : ℕ → ℕ → TaskAssignment → Bool
assignment_of task_id _ a = a.task_id == task_id

abbrev pub profile_of : ℕ → ℕ → ProviderProfile → Bool
profile_of user_id _ p = p.user_id == user_id

-- `update(ProviderProfile).where(user_id == ...).values(duty_status=...)`
abbrev pub set_duty : ℕ → DutyStatus → Exec ⊤
set_duty user_id duty = modify (λ db. record db {
  profiles =
      update_where (profile_of user_id) (λ p. record p { duty_status = some duty }) db.profiles;
})

-- Cancels the current assignment and frees its provider.
abbrev release_assignment : Option (ℕ × TaskAssignment) → Exec ⊤
release_assignment none = pure tt
release_assignment (some (id, a)) =
    save_assignment id (record a { status = TaskAssignmentStatus.cancelled })
    >> set_duty a.provider_id DutyStatus.online_available

-- Who may redispatch: the customer up to the limit, an administrator while the task is not over.
abbrev check_redispatch : Task → ℕ → Bool → Exec ⊤
check_redispatch task user_id false = do
  raise_if (not (is_id task.customer_id user_id))
      (http 403 (text "Not authorized to redispatch this task"))
  raise_if (not (can_manual_redispatch (get_or task.manual_dispatch_count 0))) (
      http 400 (
        lit "Maximum allowed customer redispatches ("
        ∷ shown 3
        ∷ lit ") reached for this task."
        ∷ []))
check_redispatch task user_id true = raise_if (is_over task.status) (
    http 400 (
      lit "Cannot redispatch task in '"
      ∷ lit (task_status_value task.status)
      ∷ lit "' status."
      ∷ []))

abbrev admin_reason : ℕ → Bool → Option Text
admin_reason user_id true = some (lit "Admin redispatch initiated by " ∷ shown user_id ∷ [])
admin_reason user_id false = none

abbrev redispatch_reason : Option Text → ℕ → Bool → Option Text
redispatch_reason (some f) user_id is_admin =
    if truthy f then some f else admin_reason user_id is_admin
redispatch_reason none user_id is_admin = admin_reason user_id is_admin

abbrev log_redispatch : ℕ → Option Text → ℕ → ℕ → Bool → Exec ⊤
log_redispatch task_id feedback user_id session_id false = pure tt
log_redispatch task_id feedback user_id session_id true =
    log_task_event task_id "admin_redispatch"
      (or_text feedback (text "Admin initiated task redispatch"))
      (("admin_id", shown user_id ∷ []) ∷ ("dispatch_session_id", shown session_id ∷ []) ∷ [])

-- `manual_redispatch`; it returns the task as it is stored at the end.
unfoldable pub manual_redispatch : Env → ℕ → ℕ → Option Text → Bool → Exec (Option Task)
unfolding open_session can_manual_redispatch
manual_redispatch env task_id user_id feedback is_admin = do
  task ← or_raise (← gets (λ db. get task_id db.tasks)) (http 404 (text "Task not found"))
  check_redispatch task user_id is_admin
  assignment ← gets (λ db. find? (assignment_of task_id) db.assignments)
  if is_assigned task.status then release_assignment assignment else pure tt
  save_task task_id (record task {
    assigned_provider_id = none;
    manual_dispatch_count = some (get_or task.manual_dispatch_count 0 + 1);
    dispatch_status = some TaskDispatchStatus.dispatching;
    dispatch_claimed_at = some env.now;
    status = TaskStatus.searching;
  })
  dispatch_session ←
      open_session env task_id DispatchSessionTrigger.manual
        (redispatch_reason feedback user_id is_admin)
  log_redispatch task_id feedback user_id dispatch_session.0 is_admin
  run_engine dispatch_session.0
  gets (λ db. get task_id db.tasks)
