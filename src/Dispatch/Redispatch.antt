-- ===== src/Dispatch/Redispatch.antt =====
-- What follows a session that matched nobody, the manual redispatch, and the numbers of sessions.
use tasker_api.Prelude.{
  ℕ, ◌+◌, ◌*◌, ◌<◌, ◌≡◌, refl, Bool, true, false, ◌&&◌, not, Option, none, some, [], ◌∷◌, ◌++◌,
  is_id, get_or, arith, ltb, leb, if◌then◌else◌, Bool-cases, inl, inr,
}
use tasker_api.Models.{
  Text, text, or_text, TaskStatus, TaskDispatchStatus, Task, DispatchSessionTrigger,
  DispatchSessionStatus, DispatchSession,
}
use tasker_api.Table.{Table, get, max_where}
use tasker_api.Table.Laws.{get-put_self}
use tasker_api.Table.Rows.{AllRows}
use tasker_api.Db.{Db, Env, execute_matching_engine}
use tasker_api.Db.Exec.{Result, ok, err}
use tasker_api.Dispatch.{handle_auto_exhaustion, open_session, of_task, get_next_sequence}
use tasker_api.Dispatch.Lifecycle.{handle_no_match, manual_redispatch}
use tasker_api.Dispatch.Policy.{can_auto_retry, can_manual_redispatch, get_next_retry_delay}
use tasker_api.Dispatch.Retries.{retries_of, exhausted}

-- The task after a session that matched nobody.
abbrev pub unmatched : Env → Task → Task
unmatched env t =
    if ltb (retries_of t) 5
    then record t {
      dispatch_status = some TaskDispatchStatus.retry_scheduled;
      next_dispatch_at = some (env.now + get_next_retry_delay (retries_of t) * 1000000);
    }
    else exhausted t

-- The session that matched nobody.
abbrev pub ended : Env → Task → Option Text → DispatchSession → DispatchSession
ended env t reason s = record s {
  status =
      if ltb (retries_of t) 5
      then DispatchSessionStatus.failed
      else DispatchSessionStatus.exhausted;
  completed_at = some env.now;
  reason = some (or_text reason (text "No eligible candidate providers found"));
}

module _ (env : Env) (task_id session_id : ℕ) (reason : Option Text) (t : Task)
    (s : DispatchSession) (db : Db) (there : get task_id db.tasks ≡ some t)
    (running : get session_id db.sessions ≡ some s) where
  -- A session that matched nobody ends FAILED while the task has fewer than 5 automatic retries behind it,
  -- and the next retry is put down for the time that the policy says; after that the session ends
  -- EXHAUSTED and the task NO_MATCH. The matching engine is not started.
  pub handle_no_match_lem :
      let (r, db') = handle_no_match env task_id session_id reason db in
      (r ≡ ok tt)
      × (get task_id db'.tasks ≡ some (unmatched env t))
      × (get session_id db'.sessions ≡ some (ended env t reason s))
      × (db'.jobs ≡ db.jobs)
  unfolding handle_no_match handle_auto_exhaustion can_auto_retry
  handle_no_match_lem = elim (Bool-cases (ltb (retries_of t) 5)) [
    | inl more ↦ grind (arith, get-put_self)
    | inr spent ↦ grind (arith, get-put_self)
  ]

-- Who may redispatch a task.
abbrev pub has_ended : TaskStatus → Bool
has_ended TaskStatus.completed = true
has_ended TaskStatus.cancelled = true
has_ended _ = false

abbrev pub may_redispatch : Task → ℕ → Bool → Bool
may_redispatch t user_id true = not (has_ended t.status)
may_redispatch t user_id false =
    is_id t.customer_id user_id && ltb (get_or t.manual_dispatch_count 0) 3

abbrev pub redispatched : Env → Task → Task
redispatched env t = record t {
  assigned_provider_id = none;
  manual_dispatch_count = some (get_or t.manual_dispatch_count 0 + 1);
  dispatch_status = some TaskDispatchStatus.dispatching;
  dispatch_claimed_at = some env.now;
  status = TaskStatus.searching;
}

abbrev pub is_err : {A : Type 0} → Result A → Bool
is_err (ok a) = false
is_err (err e) = true

-- The outcome of a redispatch that is allowed, and of one that is not.
abbrev pub Redispatched : Bool → Env → ℕ → Task → Db → Result (Option Task) × Db → Type 0
Redispatched true env task_id t db (r, db') =
    (r ≡ ok (some (redispatched env t)))
    × (get task_id db'.tasks ≡ some (redispatched env t))
    × (db'.jobs ≡ db.jobs ++ execute_matching_engine (env.fresh 0) ∷ [])
Redispatched false env task_id t db (r, db') = (is_err r ≡ true) × (db' ≡ db)

module _ (env : Env) (task_id user_id : ℕ) (feedback : Option Text) (t : Task) (db : Db)
    (there : get task_id db.tasks ≡ some t) where
  redispatch_allowed :
      (is_admin : Bool)
      → may_redispatch t user_id is_admin ≡ true
      → Redispatched true env task_id t db
          (manual_redispatch env task_id user_id feedback is_admin db)
  unfolding manual_redispatch can_manual_redispatch open_session
  redispatch_allowed true may = grind (arith, get-put_self)
  redispatch_allowed false may = grind (arith, get-put_self)

  redispatch_refused :
      (is_admin : Bool)
      → may_redispatch t user_id is_admin ≡ false
      → Redispatched false env task_id t db
          (manual_redispatch env task_id user_id feedback is_admin db)
  unfolding manual_redispatch can_manual_redispatch
  redispatch_refused true may = ground arith
  redispatch_refused false may = ground arith

  -- An administrator may redispatch a task that is not COMPLETED or CANCELLED, and its customer a
  -- task that was redispatched fewer than 3 times: it is then SEARCHING without a provider, counted,
  -- and the matching engine is started once. Any other redispatch raises and writes nothing.
  pub manual_redispatch_lem :
      (is_admin : Bool)
      → Redispatched
          (may_redispatch t user_id is_admin)
          env
          task_id
          t
          db
          (manual_redispatch env task_id user_id feedback is_admin db)
  manual_redispatch_lem is_admin = elim (Bool-cases (may_redispatch t user_id is_admin)) [
    | inl may ↦ rw may (redispatch_allowed is_admin may)
    | inr not_may ↦ rw not_may (redispatch_refused is_admin not_may)
  ]

-- Every session of the task has a smaller number than `n`.
abbrev pub NumberedBelow : ℕ → ℕ → Table DispatchSession → Type 0
NumberedBelow task_id n = AllRows (λ i s. (of_task task_id i s && leb n s.sequence) ≡ false)

max_where-NumberedBelow :
    (task_id n : ℕ) (sessions : Table DispatchSession)
    → max_where (of_task task_id) (λ s. s.sequence) sessions < n
    → NumberedBelow task_id n sessions
unfolding max_where
max_where-NumberedBelow task_id n [] h = tt
max_where-NumberedBelow task_id n ((i, s) ∷ rest) h =
    (ground arith, max_where-NumberedBelow task_id n rest (ground arith))

-- A new session is stored with a number above those of all earlier sessions of the task.
pub open_session-numbers :
    (env : Env) (task_id : ℕ) (trigger : DispatchSessionTrigger) (reason : Option Text) (db : Db)
    → let (r, db') = open_session env task_id trigger reason db in
      (s : DispatchSession) × (r ≡ ok (env.fresh 0, s))
      × (get (env.fresh 0) db'.sessions ≡ some s)
      × (s.task_id ≡ task_id)
      × NumberedBelow task_id s.sequence db.sessions
unfolding open_session get_next_sequence
open_session-numbers env task_id trigger reason db = (
  _,
  refl,
  get-put_self (env.fresh 0) _ db.sessions,
  refl,
  max_where-NumberedBelow task_id _ db.sessions (omega arith),
)
