-- ===== src/Tasks/Completion/Work.antt =====
-- Who may start and finish a task, and what the worker that books its end leaves behind.
use tasker_api.Prelude.{
  ℕ, ◌+◌, ◌≡◌, Bool, true, false, ◌&&◌, none, some, String, Option, List, ⊤, arith, [], ◌∷◌, ◌++◌,
  append_before, ◌==◌, subst,
}
use tasker_api.Models.{
  TaskStatus, Task, TaskAssignmentStatus, TaskAssignment, PaymentMode, CredibilityReason,
  credibility_delta, UserStats, CredibilityLedgerEntry,
}
use tasker_api.Table.{get, put, find?, update_where}
use tasker_api.Db.{
  Db, Env, Job, sync_user_credibility_score, sync_service_metrics, append, complete_task_assignment,
  process_task_payment_job, sync_provider_metrics,
}
use tasker_api.Db.Exec.{Result, ok}
use tasker_api.Dispatch.Lifecycle.{assignment_of, is_assigned}
use tasker_api.Dispatch.Redispatch.{is_err}
use tasker_api.Tasks.{is_in_progress, same_pin}
use tasker_api.Tasks.Completion.{
  start_task, complete_task, complete_task_assignment_task, finish_assignment, stats_of,
  metrics_job,
}
use tasker_api.Credibility.{add}

-- A call that is allowed returns and leaves a database; one that is not raises and writes nothing.
abbrev pub Guarded : {A : Type 0} → Bool → A → Db → Db → Result A × Db → Type 0
Guarded true a after db outcome = outcome ≡ (ok a, after)
Guarded false a after db (r, db') = (is_err r ≡ true) × (db' ≡ db)

abbrev pub reward : ℕ → ℕ → CredibilityLedgerEntry
reward task_id user_id = record {
  user_id = user_id;
  delta = credibility_delta CredibilityReason.task_completed;
  reason = CredibilityReason.task_completed;
  task_id = some task_id;
}

abbrev counted : UserStats → UserStats
counted s = record s { total_tasks_completed = s.total_tasks_completed + 1 }

-- The metrics of the service and the category, if the task has both.
abbrev pub metrics_of : Option ℕ → Option ℕ → List Job
metrics_of none category_id = []
metrics_of (some service_id) none = []
metrics_of (some service_id) (some category_id) = sync_service_metrics service_id category_id ∷ []

-- The jobs that the end of a task enqueues.
abbrev pub end_jobs : ℕ → ℕ → Task → PaymentMode → List Job
end_jobs task_id user_id t mode =
    sync_user_credibility_score user_id
    ∷ process_task_payment_job task_id user_id mode
    ∷ sync_provider_metrics user_id
    ∷ metrics_of t.service_id t.category_id

module _ (env : Env) (task_id i user_id : ℕ) (pin : String) (t : Task) (a : TaskAssignment)
    (db : Db) (there : get task_id db.tasks ≡ some t)
    (assigned : find? (assignment_of task_id) db.assignments ≡ some (i, a)) where
  abbrev pub may_start : Bool
  may_start = (a.provider_id == user_id) && is_assigned t.status && same_pin t.start_pin (some pin)

  abbrev pub may_complete : Bool
  may_complete =
      (a.provider_id == user_id) && is_in_progress t.status && same_pin t.completion_pin (some pin)

  abbrev pub started_task : Task
  started_task = record t { status = TaskStatus.in_progress }

  abbrev pub started_assignment : TaskAssignment
  started_assignment = record a {
    status = TaskAssignmentStatus.in_progress;
    started_at = some env.now;
  }

  abbrev pub started : Db
  started = record db {
    tasks = put task_id started_task db.tasks;
    assignments = put i started_assignment db.assignments;
  }

  pub start_task_lem : Guarded may_start tt started db (start_task env task_id user_id pin db)
  unfolding start_task
  start_task_lem = ground arith

  pub starts : may_start ≡ true → start_task env task_id user_id pin db ≡ (ok tt, started)
  starts allowed =
      subst (λ b. Guarded b tt started db (start_task env task_id user_id pin db)) allowed
        start_task_lem

  pub complete_task_lem :
      (mode : PaymentMode)
      → Guarded may_complete tt
          (record db { jobs = append db.jobs (complete_task_assignment task_id user_id mode) })
          db
          (complete_task task_id user_id pin mode db)
  unfolding complete_task
  complete_task_lem mode = ground arith

  pub completes :
      (mode : PaymentMode)
      → may_complete ≡ true
      → complete_task task_id user_id pin mode db ≡ (
        ok tt,
        record db { jobs = append db.jobs (complete_task_assignment task_id user_id mode) },
      )
  completes mode allowed =
      subst
        (λ b.
          Guarded b tt
            (record db { jobs = append db.jobs (complete_task_assignment task_id user_id mode) }) db
            (complete_task task_id user_id pin mode db))
        allowed (complete_task_lem mode)

  abbrev pub finished_task : Task
  finished_task = record t { status = TaskStatus.completed }

  abbrev pub finished_assignment : TaskAssignment
  finished_assignment = record a {
    status = TaskAssignmentStatus.completed;
    completed_at = some env.now;
  }

  -- What the worker leaves behind.
  abbrev pub Booked : PaymentMode → Result ⊤ × Db → Type 0
  Booked mode (r, db') =
      (r ≡ ok tt)
      × (db'.tasks ≡ put task_id finished_task db.tasks)
      × (db'.assignments ≡ put i finished_assignment db.assignments)
      × (db'.stats ≡ update_where (stats_of user_id) counted db.stats)
      × (db'.ledger ≡ append db.ledger (reward task_id user_id))
      × (db'.jobs ≡ db.jobs ++ end_jobs task_id user_id t mode)

  pub worker-Booked :
      (mode : PaymentMode) → Booked mode (complete_task_assignment_task env task_id user_id mode db)
  unfolding complete_task_assignment_task finish_assignment add credibility_delta
  worker-Booked mode = (
    ground arith,
    ground arith,
    ground arith,
    ground arith,
    ground arith,
    ground (
      arith,
      append_before db.jobs (sync_user_credibility_score user_id) (
          process_task_payment_job task_id user_id mode
          ∷ sync_provider_metrics user_id
          ∷ metrics_job (t.service_id, t.category_id)),
    ),
  )
