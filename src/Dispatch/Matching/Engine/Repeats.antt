-- ===== src/Dispatch/Matching/Engine/Repeats.antt =====
-- The engine's run on a session that runs, and on one that has ended.
use tasker_api.Prelude.{
  ℕ, ◌+◌, ◌≡◌, refl, ap, ◌∙◌, Bool, true, false, some, List, [], ◌∷◌, arith, ==_refl,
}
use tasker_api.Models.{Text, lit, Task, DispatchSession, DispatchAttemptStatus}
use tasker_api.Table.{get, put, select_where, update_where}
use tasker_api.Db.{Db, Env, BatchPing}
use tasker_api.Db.Exec.{ok}
use tasker_api.Dispatch.Lifecycle.{handle_no_match}
use tasker_api.Dispatch.Policy.{ping_duration_seconds}
use tasker_api.Dispatch.Matching.{Search, ScoredCandidate, batch_size_of}
use tasker_api.Dispatch.Matching.Pinger.{recover_stale_attempts, is_stale_ping}
use tasker_api.Dispatch.Matching.Engine.{
  unmatched, finish_engine, run, run_locked, ranked, offer, execute_engine, is_session_running,
  session_status_value, all_batch_jobs, with_jobs,
}
use tasker_api.Dispatch.Matching.Engine.Batches.{Offered, all_batch_jobs-Offered}
use tasker_api.Dispatch.Redispatch.{handle_no_match_lem, ended, unmatched as unmatched_task}

module _ (env : Env) (search : Search) (exclude_previous_sessions : Bool) (excluded : List ℕ)
    (session_id : ℕ) (s : DispatchSession) (t : Task) (c : ScoredCandidate)
    (cs : List ScoredCandidate) where
  -- The database that the engine works on, if no ping of the task is stale.
  abbrev pub locked : Db → Db
  locked db = record db {
    sessions =
        put session_id (record s { lock_version = s.lock_version + 1; updated_at = env.now })
          db.sessions;
  }

  abbrev pub working : Db → Db
  working db = record (locked db) {
    attempts =
        update_where (is_stale_ping s.task_id env.now)
          (λ a. record a {
            status = some DispatchAttemptStatus.timeout;
            responded_at = some env.now;
          })
          db.attempts;
  }

  abbrev pub jobs : List BatchPing
  jobs = all_batch_jobs session_id s.task_id ping_duration_seconds (batch_size_of s) (c ∷ cs)

  -- A running session whose task is there and has no stale ping, and for which somebody is found.
  abbrev pub Matches : Db → Type 0
  Matches db =
      (get session_id db.sessions ≡ some s)
      × (is_session_running s.status ≡ true)
      × (get s.task_id db.tasks ≡ some t)
      × (select_where (is_stale_ping s.task_id env.now) db.attempts ≡ [])
      × (ranked exclude_previous_sessions excluded session_id s t search (working db) ≡ c ∷ cs)

  locks :
      (db : Db)
      → Matches db
      → run env exclude_previous_sessions excluded ping_duration_seconds search session_id db
        ≡ run_locked env exclude_previous_sessions excluded ping_duration_seconds search session_id
            s
            (locked db)
            db
  unfolding run
  locks db (there, running, task, fresh, found) = ground (arith, ==_refl s.lock_version)

  recovers :
      (db : Db)
      → Matches db
      → recover_stale_attempts env s.task_id (locked db) ≡ (ok false, working db)
  unfolding recover_stale_attempts
  recovers db (there, running, task, fresh, found) = ground arith

  offers :
      (db : Db)
      → Matches db
      → run_locked env exclude_previous_sessions excluded ping_duration_seconds search session_id s
          (locked db)
          db
        ≡ offer session_id s ping_duration_seconds (c ∷ cs) (working db) db
  unfolding run_locked
  offers db (there, running, task, fresh, found) =
      let recovered = recovers db (there, running, task, fresh, found) in ground arith

  matched_run :
      (db : Db)
      → Matches db
      → execute_engine env search exclude_previous_sessions excluded session_id db
        ≡ (ok true, with_jobs jobs db)
  unfolding execute_engine
  matched_run db m = rw (locks db m, offers db m) refl

  -- A run of the engine on a RUNNING session whose task is there, has no pending ping whose time is
  -- over, and has candidates: every ranked candidate is in just one of the enqueued batches, in
  -- order, in batches of at most the session's size; their sequence numbers are 1, 2, ... without a
  -- gap; the k-th batch waits for k ping windows and only the last is marked as last. Nothing is
  -- written but these jobs: the session keeps its lock version.
  pub matched_run-Offered :
      (db : Db)
      → Matches db
      → let size = batch_size_of s in
        (execute_engine env search exclude_previous_sessions excluded session_id db
          ≡ (ok true, with_jobs jobs db))
        × Offered ping_duration_seconds size (c ∷ cs) jobs
  matched_run-Offered db m = (
    matched_run db m,
    all_batch_jobs-Offered session_id s.task_id ping_duration_seconds (batch_size_of s) (c ∷ cs)
        (ground arith),
  )

module _ (env : Env) (search : Search) (exclude_previous_sessions : Bool) (excluded : List ℕ)
    (session_id : ℕ) (s : DispatchSession) (db : Db) where
  abbrev pub ended_reason : Text
  ended_reason = lit "SESSION_NOT_ACTIVE (" ∷ lit (session_status_value s.status) ∷ lit ")" ∷ []

  idles :
      get session_id db.sessions ≡ some s
      → is_session_running s.status ≡ false
      → run env exclude_previous_sessions excluded ping_duration_seconds search session_id db
        ≡ unmatched ended_reason db db
  unfolding run
  idles there over = ground arith

  finishes :
      get session_id db.sessions ≡ some s
      → let (r, db') = handle_no_match env s.task_id session_id (some ended_reason) db in
        r ≡ ok tt → finish_engine env session_id (unmatched ended_reason db db) ≡ (ok false, db')
  finishes there returned = ground arith

  ended_run :
      get session_id db.sessions ≡ some s
      → is_session_running s.status ≡ false
      → let (r, db') = handle_no_match env s.task_id session_id (some ended_reason) db in
        r ≡ ok tt
        → execute_engine env search exclude_previous_sessions excluded session_id db
          ≡ (ok false, db')
  unfolding execute_engine
  ended_run there over returned =
      ap (finish_engine env session_id) (idles there over) ∙ finishes there returned

  -- A run of the engine on a session that has ended, with its task there: the session becomes
  -- FAILED or EXHAUSTED whatever its status was, and the task, whatever its status is, is put down
  -- for another dispatch or, after the last retry, becomes NO_MATCH.
  pub ended_run-unmatches :
      (t : Task)
      → get session_id db.sessions ≡ some s
      → is_session_running s.status ≡ false
      → get s.task_id db.tasks ≡ some t
      → let (r, db') = execute_engine env search exclude_previous_sessions excluded session_id db in
        (r ≡ ok false)
        × (get s.task_id db'.tasks ≡ some (unmatched_task env t))
        × (get session_id db'.sessions ≡ some (ended env t (some ended_reason) s))
  ended_run-unmatches t there over task =
      let (returned, tasks, sessions, jobs) =
        handle_no_match_lem env s.task_id session_id (some ended_reason) t s db task there in
      rw (ended_run there over returned) (refl, tasks, sessions)
