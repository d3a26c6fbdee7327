-- ===== src/Dispatch/Matching/Engine.antt =====
-- `MatchingEngine.run` of app/core/services/matching_engine.py and the Celery tasks around it in
-- app/features/tasks/celery/dispatch.py. A Celery session commits only where the code does, so the
-- engine has two databases: the one it works on, and the one that is left when the session closes
-- without a commit. A job that was enqueued stays in both.
pub mod Batches
pub mod Repeats
mod Tests
use mathlib.Core.List.{map}
use tasker_api.Prelude.{
  ℕ, ◌+◌, ◌-◌, ◌*◌, ◌/◌, ℤ, pos, ⊤, Bool, true, false, ◌||◌, not, Option, none, some, String, List,
  [], ◌∷◌, ◌++◌, ◌==◌, length, take, drop, concat, range_from, if◌then◌else◌,
}
use tasker_api.Models.{Text, lit, text, TaskStatus, Task, DispatchSession, DispatchSessionStatus}
use tasker_api.Table.{get, put}
use tasker_api.Db.{Db, Env, Job, BatchPing, execute_batch_ping, check_session_exhaustion, append}
use tasker_api.Db.Exec.{ok, err, Result, Exec, pure, gets, ◌>>=◌, ◌>>◌, modify, when}
use tasker_api.Dispatch.Lifecycle.{handle_no_match}
use tasker_api.Dispatch.Policy.{candidate_pool_size, ping_duration_seconds}
use tasker_api.Dispatch.Matching.{
  Search, ScoredCandidate, NearbyProviderResult, fetch, score, radius_of, batch_size_of,
}
use tasker_api.Dispatch.Matching.Pinger.{recover_stale_attempts, ping_batch, user_ids}

pub record MatchingResult : Type 0 where
  pub matched : Bool
  pub candidates_count : ℕ
  pub attempts_created : ℕ
  pub reason : Option Text

-- A result with the two databases.
pub record EngineRun : Type 0 where
  pub result : MatchingResult
  pub working : Db
  pub committed : Db

abbrev pub unmatched : Text → Db → Db → EngineRun
unmatched reason working committed = record {
  result = record {
    matched = false;
    candidates_count = 0;
    attempts_created = 0;
    reason = some reason;
  };
  working = working;
  committed = committed;
}

abbrev pub session_status_value : DispatchSessionStatus → String
session_status_value DispatchSessionStatus.running = "RUNNING"
session_status_value DispatchSessionStatus.assigned = "ASSIGNED"
session_status_value DispatchSessionStatus.failed = "FAILED"
session_status_value DispatchSessionStatus.expired = "EXPIRED"
session_status_value DispatchSessionStatus.exhausted = "EXHAUSTED"
session_status_value DispatchSessionStatus.cancelled = "CANCELLED"

abbrev pub is_session_running : DispatchSessionStatus → Bool
is_session_running DispatchSessionStatus.running = true
is_session_running _ = false

-- `update(DispatchSession).where(id == ..., lock_version == ...)`, if it finds the row.
abbrev pub lock_session : Env → ℕ → DispatchSession → Db → Option Db
lock_session env session_id s db = elim (get session_id db.sessions) [
  | none ↦ none
  | some row ↦
      if row.lock_version == s.lock_version
      then some (record db {
        sessions =
            put session_id (record row { lock_version = s.lock_version + 1; updated_at = env.now })
              db.sessions;
      })
      else none
]

-- `[candidates[i : i + size] for i in range(0, len(candidates), size)]`
unfoldable pub batches : {A : Type 0} → ℕ → List A → List (List A)
batches size xs =
    map (λ j. take size (drop (j * size) xs)) (range_from 0 ((length xs + size - 1) / size))

-- The jobs of the batches from index `i` on, of `total`.
abbrev pub batch_jobs : ℕ → ℕ → ℕ → ℕ → ℕ → ℕ → List (List ScoredCandidate) → List BatchPing
batch_jobs session_id task_id duration total i seq_start [] = []
batch_jobs session_id task_id duration total i seq_start (batch ∷ rest) =
    record {
      session_id = session_id;
      task_id = task_id;
      candidate_ids = user_ids batch;
      batch_index = i;
      is_last_batch = i == total - 1;
      seq_start = seq_start;
      ping_duration = duration;
      countdown = i * duration;
    }
    ∷ batch_jobs session_id task_id duration total (i + 1) (seq_start + length batch) rest

abbrev pub with_jobs : List BatchPing → Db → Db
with_jobs pings db = record db { jobs = db.jobs ++ map execute_batch_ping pings }

abbrev pub all_batch_jobs : ℕ → ℕ → ℕ → ℕ → List ScoredCandidate → List BatchPing
all_batch_jobs session_id task_id duration size candidates =
    batch_jobs session_id task_id duration (length (batches size candidates)) 0 1
      (batches size candidates)

-- The candidates of a session, ranked; no candidates have no ranking.
abbrev pub ranked : Bool → List ℕ → ℕ → DispatchSession → Task → Search → Db → List ScoredCandidate
ranked exclude_previous_sessions excluded session_id s t search db = score (radius_of s) (
    fetch exclude_previous_sessions candidate_pool_size (excluded ++ s.excluded_provider_ids)
      session_id s s.task_id t search db)

-- The last step of `run`.
abbrev pub offer : ℕ → DispatchSession → ℕ → List ScoredCandidate → Db → Db → EngineRun
offer session_id s duration [] working committed =
    unmatched (text "NO_CANDIDATES") working committed
offer session_id s duration (c ∷ cs) working committed =
    let jobs = all_batch_jobs session_id s.task_id duration (batch_size_of s) (c ∷ cs) in
    record {
      result = record {
        matched = true;
        candidates_count = length (c ∷ cs);
        attempts_created = length (c ∷ cs);
        reason = none;
      };
      working = with_jobs jobs working;
      committed = with_jobs jobs committed;
    }

-- `recover_stale_attempts` commits if it finds a ping.
abbrev pub after_recovery : Db → Result Bool × Db → Db × Db
after_recovery committed (ok true, working) = (working, working)
after_recovery committed (ok false, working) = (working, committed)
after_recovery committed (err e, working) = (working, committed)

-- `run`, from the session's lock on.
unfoldable pub run_locked :
    Env → Bool → List ℕ → ℕ → Search → ℕ → DispatchSession → Db → Db → EngineRun
unfolding batches
run_locked env exclude_previous_sessions excluded duration search session_id s locked db =
    elim (get s.task_id locked.tasks) [
      | none ↦ unmatched (text "TASK_NOT_FOUND") locked db
      | some t ↦
          let (working, committed) =
            after_recovery db (recover_stale_attempts env s.task_id locked) in
          offer session_id s duration
            (ranked exclude_previous_sessions excluded session_id s t search working) working
            committed
    ]

-- `MatchingEngine.run`
unfoldable pub run : Env → Bool → List ℕ → ℕ → Search → ℕ → Db → EngineRun
unfolding run_locked
run env exclude_previous_sessions excluded duration search session_id db =
    elim (get session_id db.sessions) [
      | none ↦ unmatched (text "SESSION_NOT_FOUND") db db
      | some s ↦
          if not (is_session_running s.status)
          then unmatched
              (lit "SESSION_NOT_ACTIVE (" ∷ lit (session_status_value s.status) ∷ lit ")" ∷ []) db
              db
          else elim (lock_session env session_id s db) [
            | none ↦ unmatched (text "LOCKING_CONFLICT") db db
            | some locked ↦
                run_locked env exclude_previous_sessions excluded duration search session_id s
                  locked db
          ]
    ]

-- What the task does with the engine's result: `handle_no_match` commits what the engine wrote, and
-- without it the session closes with what was committed.
abbrev pub finish_engine : Env → ℕ → EngineRun → Result Bool × Db
finish_engine env session_id r =
    if r.result.matched then (ok true, r.committed) else elim (get session_id r.working.sessions) [
      | none ↦ (ok false, r.committed)
      | some s ↦ (handle_no_match env s.task_id session_id r.result.reason >> pure false) r.working
    ]

-- `_execute_matching_engine_async`
unfoldable pub execute_engine : Env → Search → Bool → List ℕ → ℕ → Exec Bool
unfolding run handle_no_match
execute_engine env search exclude_previous_sessions excluded session_id db =
    finish_engine env session_id
      (run env exclude_previous_sessions excluded ping_duration_seconds search session_id db)

abbrev is_searching : TaskStatus → Bool
is_searching TaskStatus.searching = true
is_searching _ = false

abbrev pub still_searching : ℕ → ℕ → Db → Option Task
still_searching session_id task_id db = elim (get task_id db.tasks) [
  | none ↦ none
  | some t ↦ elim (get session_id db.sessions) [
    | none ↦ none
    | some s ↦
        if is_searching t.status
        then (if is_session_running s.status then some t else none)
        else none
  ]
]

-- The candidate that stands for an id in a batch's job.
abbrev pub dummy_candidate : ℕ → ScoredCandidate
dummy_candidate id = record { user_id = id; distance_km = 0; score = pos 10000 }

-- `_execute_batch_ping_async`; the task is looked up again after the recovery.
unfoldable pub run_batch_ping : Env → BatchPing → Exec Bool
unfolding recover_stale_attempts ping_batch
run_batch_ping env b = do
  found ← gets (still_searching b.session_id b.task_id)
  elim found [
    | none ↦ pure false
    | some _ ↦ do
      recover_stale_attempts env b.task_id
      again ← gets (still_searching b.session_id b.task_id)
      elim again [
        | none ↦ pure false
        | some t ↦ do
          ping_batch env b.ping_duration (map dummy_candidate b.candidate_ids) b.task_id t
              b.session_id b.seq_start
          when b.is_last_batch (
              modify (λ db. record db {
                jobs =
                    append db.jobs
                      (check_session_exhaustion b.session_id b.task_id b.ping_duration);
              }))
          pure true
      ]
  ]

-- `_check_session_exhaustion_async`
unfoldable pub run_exhaustion_check : Env → ℕ → ℕ → Exec ⊤
unfolding handle_no_match
run_exhaustion_check env session_id task_id = do
  found ← gets (still_searching session_id task_id)
  elim found [
    | none ↦ pure tt
    | some _ ↦ handle_no_match env task_id session_id (some (text "ALL_DECLINED_OR_TIMED_OUT"))
  ]
