-- ===== src/Dispatch/Due.antt =====
-- The scheduled Celery tasks of app/features/tasks/celery/dispatch.py: due retries are claimed and
-- started, and claims that nobody finished are given back.
pub mod Rounds
use mathlib.Core.Option
use mathlib.Core.List.{map}
use tasker_api.Prelude.{
  ℕ, zero, suc, ◌+◌, ◌-◌, ◌*◌, ◌≡◌, ◌≤◌, ◌⊎◌, refl, sym, ap, ◌∙◌, Bool, true, false, ◌&&◌, Option,
  none, some, List, [], ◌∷◌, ◌++◌, ◌==◌, arith, any, length-append, subst, length, take, ltb, leb,
  get_or, if◌then◌else◌, Bool-cases, inl, inr, ==_refl, ◌||◌,
}
use tasker_api.Models.{Task, TaskDispatchStatus, DispatchSession}
use tasker_api.Table.{Table, get, select_where, update_where, count_where}
use tasker_api.Db.{Db, Env, Job, process_auto_retry}
use tasker_api.Db.Exec.{ok, err, Exec, pure, gets, ◌>>=◌, ◌>>◌, modify}
use tasker_api.Dispatch.{auto_retry}
use tasker_api.Dispatch.Lifecycle.{second}
use tasker_api.Dispatch.Policy.{stale_claim_timeout_seconds}

abbrev is_retry_scheduled : Option TaskDispatchStatus → Bool
is_retry_scheduled (some TaskDispatchStatus.retry_scheduled) = true
is_retry_scheduled _ = false

abbrev is_dispatching : Option TaskDispatchStatus → Bool
is_dispatching (some TaskDispatchStatus.dispatching) = true
is_dispatching _ = false

abbrev at_or_before : ℕ → Option ℕ → Bool
at_or_before now none = false
at_or_before now (some time) = leb time now

abbrev pub is_due : ℕ → ℕ → Task → Bool
is_due now _ t = is_retry_scheduled t.dispatch_status && at_or_before now t.next_dispatch_at

-- `ORDER BY next_dispatch_at`
abbrev due_time : ℕ × Task → ℕ
due_time row = get_or row.1.next_dispatch_at 0

abbrev pub insert_by_time : ℕ × Task → Table Task → Table Task
insert_by_time row [] = row ∷ []
insert_by_time row (other ∷ rest) =
    let inserted = insert_by_time row rest in
    if ltb (due_time other) (due_time row) then other ∷ inserted else row ∷ other ∷ rest

abbrev pub order_by_time : Table Task → Table Task
order_by_time [] = []
order_by_time (row ∷ rest) = insert_by_time row (order_by_time rest)

abbrev pub row_ids : Table Task → List ℕ
row_ids rows = map (λ (row : ℕ × Task). row.0) rows

abbrev pub has_id : List ℕ → ℕ → Bool
has_id ids id = any (λ other. other == id) ids

-- The tasks that one round claims.
unfoldable pub due_task_ids : ℕ → ℕ → Db → List ℕ
due_task_ids now batch_size db =
    take batch_size (row_ids (order_by_time (select_where (is_due now) db.tasks)))

abbrev pub claimed : ℕ → Task → Task
claimed now t = record t {
  dispatch_status = some TaskDispatchStatus.dispatching;
  dispatch_claimed_at = some now;
}

abbrev pub claim : ℕ → List ℕ → Db → Db
claim now ids db = record db {
  tasks = update_where (λ id _. has_id ids id) (claimed now) db.tasks;
  jobs = db.jobs ++ map process_auto_retry ids;
}

-- What a round that found `ids` comes to: `after` is the database once they are claimed, `rest` the
-- outcome of the rounds that follow. A round that finds nobody ends the loop, and so does a short one.
abbrev pub round_total : ℕ → List ℕ → Db → ℕ × Db → Db → ℕ × Db
round_total batch_size [] after rest db = (0, db)
round_total batch_size (id ∷ ids) after (n, db') db =
    if ltb (length (id ∷ ids)) batch_size
    then (length (id ∷ ids), after)
    else (length (id ∷ ids) + n, db')

-- `_process_due_dispatches_async`, with at most that many rounds; the number of claims is returned.
unfoldable pub process_due_dispatches : ℕ → ℕ → ℕ → Db → ℕ × Db
unfolding due_task_ids
process_due_dispatches now batch_size zero db = (0, db)
process_due_dispatches now batch_size (suc rounds) db =
    let ids = due_task_ids now batch_size db in
    let after = claim now ids db in
    round_total batch_size ids after (process_due_dispatches now batch_size rounds after) db

abbrev pub is_stale_claim : ℕ → ℕ → Task → Bool
is_stale_claim threshold _ t =
    is_dispatching t.dispatch_status && at_or_before threshold t.dispatch_claimed_at

-- `_recover_stale_dispatches_async`; the number of recovered tasks is returned.
unfoldable pub recover_stale_dispatches : Env → ℕ → Db → ℕ × Db
recover_stale_dispatches env timeout_seconds db = (
  count_where (is_stale_claim (env.now - timeout_seconds * second)) db.tasks,
  record db {
    tasks =
        update_where (is_stale_claim (env.now - timeout_seconds * second))
          (λ t. record t {
            dispatch_status = some TaskDispatchStatus.retry_scheduled;
            next_dispatch_at = some env.now;
          })
          db.tasks;
  },
)

-- `_process_auto_retry_async`
abbrev pub run_auto_retry : Env → ℕ → Exec (Option ℕ)
run_auto_retry env task_id = do
  dispatch_session ← auto_retry env task_id
  pure (Option.map (λ (row : ℕ × DispatchSession). row.0) dispatch_session)
