-- ===== src/Dispatch/Retries.antt =====
-- The automatic retries of the dispatch: `auto_retry` against its specification, and many calls of
-- it on one task.
use tasker_api.Prelude.{
  ℕ, ◌+◌, ◌≤◌, ◌<◌, ◌≡◌, refl, false, Option, some, List, [], ◌∷◌, ◌++◌, get_or, min, arith, ltb,
  length, if◌then◌else◌, Bool-cases, inl, inr,
}
use tasker_api.Models.{text, TaskStatus, TaskDispatchStatus, Task}
use tasker_api.Table.{get}
use tasker_api.Table.Laws.{get-put_self}
use tasker_api.Db.{Db, Env, Job, execute_matching_engine}
use tasker_api.Dispatch.{is_closed, auto_retry, handle_auto_exhaustion, open_session}
use tasker_api.Dispatch.Policy.{can_auto_retry}

abbrev pub retries_of : Task → ℕ
retries_of t = get_or t.auto_dispatch_count 0

abbrev pub exhausted : Task → Task
exhausted t = record t {
  dispatch_status = some TaskDispatchStatus.auto_exhausted;
  status = TaskStatus.no_match;
  cancellation_reason =
      some (text "No available provider accepted the task after maximum automatic retries.");
}

-- The task after `auto_retry`.
abbrev pub retried : Env → Task → Task
retried env t =
    if is_closed t.status
    then t
    else if ltb (retries_of t) 5
    then record t {
      auto_dispatch_count = some (retries_of t + 1);
      dispatch_status = some TaskDispatchStatus.dispatching;
      dispatch_claimed_at = some env.now;
      status = TaskStatus.searching;
    }
    else exhausted t

-- The jobs after `auto_retry`.
abbrev pub retry_jobs : Env → Task → List Job → List Job
retry_jobs env t jobs =
    if is_closed t.status
    then jobs
    else if ltb (retries_of t) 5
    then jobs ++ execute_matching_engine (env.fresh 0) ∷ []
    else jobs

module _ (env : Env) (task_id : ℕ) (t : Task) (db : Db)
    (there : get task_id db.tasks ≡ some t) where
  -- An automatic retry leaves a task that is ASSIGNED, COMPLETED or CANCELLED alone; it starts the
  -- matching engine once and counts the retry while fewer than 5 were made, and otherwise sets the
  -- task to NO_MATCH and starts nothing.
  pub auto_retry_lem :
      let db' = (auto_retry env task_id db).1 in
      (get task_id db'.tasks ≡ some (retried env t)) × (db'.jobs ≡ retry_jobs env t db.jobs)
  unfolding auto_retry handle_auto_exhaustion open_session can_auto_retry
  auto_retry_lem = elim (Bool-cases (is_closed t.status)) [
    | inl closed ↦ ground arith
    | inr still_open ↦ elim (Bool-cases (ltb (retries_of t) 5)) [
      | inl more ↦ grind (arith, get-put_self)
      | inr spent ↦ grind (arith, get-put_self)
    ]
  ]

-- `auto_retry` once for each call, each with its own clock.
unfoldable pub auto_retry_each : ℕ → List Env → Db → Db
auto_retry_each task_id [] db = db
auto_retry_each task_id (env ∷ rest) db = auto_retry_each task_id rest (auto_retry env task_id db).1

abbrev pub IsExhausted : Option Task → Type 0
IsExhausted row =
    (t : Task) × (row ≡ some t)
    × (t.status ≡ TaskStatus.no_match)
    × (t.dispatch_status ≡ some TaskDispatchStatus.auto_exhausted)

retried_open :
    (env : Env) (t : Task) → is_closed t.status ≡ false → is_closed (retried env t).status ≡ false
retried_open env t h = ground arith

stays_spent :
    (env : Env) (t : Task)
    → is_closed t.status ≡ false
    → 5 ≤ retries_of t
    → retried env t ≡ exhausted t
stays_spent env t h spent = ground arith

retried_counts :
    (env : Env) (t : Task)
    → is_closed t.status ≡ false
    → retries_of t ≤ 5
    → retries_of (retried env t) ≡ min 5 (retries_of t + 1)
retried_counts env t h capped = elim (Bool-cases (ltb (retries_of t) 5)) [
  | inl left ↦ ground arith
  | inr spent ↦ ground arith
]

-- A task that nobody takes and that is not ASSIGNED, COMPLETED or CANCELLED ends in NO_MATCH, its
-- dispatch AUTO_EXHAUSTED, after more calls of `auto_retry` than it has retries left of the 5.
pub auto_retry_each_exhausts :
    (task_id : ℕ) (envs : List Env) (t : Task) (db : Db)
    → get task_id db.tasks ≡ some t
    → is_closed t.status ≡ false
    → retries_of t ≤ 5
    → 5 < retries_of t + length envs
    → IsExhausted (get task_id (auto_retry_each task_id envs db).tasks)
unfolding auto_retry_each
auto_retry_each_exhausts task_id [] t db there still_open capped enough = absurd (omega arith)
auto_retry_each_exhausts task_id (env ∷ []) t db there still_open capped enough = (
  exhausted t,
  rw (stays_spent env t still_open (omega arith)) at (auto_retry_lem env task_id t db there).0,
  refl,
  refl,
)
auto_retry_each_exhausts task_id (env ∷ next ∷ rest) t db there still_open capped enough =
    let db' = (auto_retry env task_id db).1 in
    auto_retry_each_exhausts task_id (next ∷ rest) (retried env t) db'
      (auto_retry_lem env task_id t db there).0 (retried_open env t still_open)
      (omega (arith, retried_counts env t still_open capped))
      (omega (arith, retried_counts env t still_open capped))
