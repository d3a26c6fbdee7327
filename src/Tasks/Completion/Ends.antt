-- ===== src/Tasks/Completion/Ends.antt =====
-- A task from its start to its end, and an end that is asked for twice.
use tasker_api.Prelude.{
  ℕ, ◌≡◌, ◌∙◌, refl, ap, true, ◌&&◌, some, String, List, arith, ◌++◌, ◌==◌, ==_refl,
}
use tasker_api.Models.{TaskStatus, Task, TaskAssignmentStatus, TaskAssignment, PaymentMode}
use tasker_api.Table.{get, find?}
use tasker_api.Table.Laws.{find?-put_found, find?_sound, get-put_self}
use tasker_api.Db.{Db, Env, Job, append, complete_task_assignment}
use tasker_api.Db.Exec.{ok}
use tasker_api.Dispatch.Lifecycle.{assignment_of, is_assigned}
use tasker_api.Tasks.{is_in_progress, same_pin}
use tasker_api.Tasks.Completion.{start_task, complete_task, complete_task_assignment_task}
use tasker_api.Tasks.Completion.Work.{reward, end_jobs, started, starts, completes, worker-Booked}

module _ (env env' : Env) (task_id i : ℕ) (start_given end_given : String) (mode : PaymentMode)
    (t : Task) (a : TaskAssignment) (db : Db) where
  abbrev pub both_jobs : List Job
  both_jobs = append db.jobs (complete_task_assignment task_id a.provider_id mode)

  the_pin_fits :
      is_in_progress t.status ≡ true
      → same_pin t.completion_pin (some end_given) ≡ true
      → ((a.provider_id == a.provider_id)
          && is_in_progress t.status
          && same_pin t.completion_pin (some end_given))
        ≡ true
  the_pin_fits works fits = ground (arith, ==_refl a.provider_id)

  abbrev pub worked : TaskAssignment
  worked = record a {
    status = TaskAssignmentStatus.completed;
    started_at = some env.now;
    completed_at = some env'.now;
  }

  -- An ASSIGNED task with an assignment, whose provider gives its start PIN and then its completion
  -- PIN: both calls return, the second enqueues one job, and that job's run returns. Then the task and
  -- its assignment are COMPLETED, the assignment has the times of its start and its end, the provider
  -- has one more entry in the ledger of credibility, and the payment, the provider's score and
  -- metrics and, if the task has a service and a category, theirs are enqueued.
  pub work_books :
      get task_id db.tasks ≡ some t
      → find? (assignment_of task_id) db.assignments ≡ some (i, a)
      → is_assigned t.status ≡ true
      → same_pin t.start_pin (some start_given) ≡ true
      → same_pin t.completion_pin (some end_given) ≡ true
      → let (r1, db1) = start_task env task_id a.provider_id start_given db in
        let (r2, db2) = complete_task task_id a.provider_id end_given mode db1 in
        let (r3, db3) = complete_task_assignment_task env' task_id a.provider_id mode db2 in
        (r1 ≡ ok tt)
        × (r2 ≡ ok tt)
        × (db2.jobs ≡ both_jobs)
        × (r3 ≡ ok tt)
        × (get task_id db3.tasks ≡ some (record t { status = TaskStatus.completed }))
        × (find? (assignment_of task_id) db3.assignments ≡ some (i, worked))
        × (db3.ledger ≡ append db.ledger (reward task_id a.provider_id))
        × (db3.jobs ≡ both_jobs ++ end_jobs task_id a.provider_id t mode)
  work_books there assigned waits start_fits end_fits =
      let p = a.provider_id in
      let first =
        starts env task_id i p start_given t a db there assigned
          (ground (arith, ==_refl a.provider_id)) in
      let db1 = started env task_id i p start_given t a db there assigned in
      let t1 = record t { status = TaskStatus.in_progress } in
      let a1 = record a { status = TaskAssignmentStatus.in_progress; started_at = some env.now } in
      let of_task = find?_sound (assignment_of task_id) db.assignments i a assigned in
      let there1 = get-put_self task_id t1 db.tasks in
      let assigned1 =
        find?-put_found (assignment_of task_id) i a1 a db.assignments assigned of_task in
      let second =
        completes env' task_id i p end_given t1 a1 db1 there1 assigned1 mode
          (ground (arith, ==_refl a.provider_id)) in
      let db2 = record db1 { jobs = both_jobs } in
      let (returned, tasks, assignments, stats, ledger, jobs) =
        worker-Booked env' task_id i p end_given t1 a1 db2 there1 assigned1 mode in
      rw (first, second)
        (
          refl,
          refl,
          refl,
          returned,
          rw tasks (get-put_self task_id (record t { status = TaskStatus.completed }) db1.tasks),
          rw assignments (
              find?-put_found (assignment_of task_id) i worked a1 db1.assignments assigned1
                of_task),
          ledger,
          jobs,
        )

  -- A task IN_PROGRESS whose provider gives the completion PIN twice, before the worker runs: both
  -- calls return and each enqueues the job, and both runs return. The provider then has two entries in
  -- the ledger for the one task, and its payment is enqueued twice.
  pub second_completion-rewards_again :
      get task_id db.tasks ≡ some t
      → find? (assignment_of task_id) db.assignments ≡ some (i, a)
      → is_in_progress t.status ≡ true
      → same_pin t.completion_pin (some end_given) ≡ true
      → let (r1, db1) = complete_task task_id a.provider_id end_given mode db in
        let (r2, db2) = complete_task task_id a.provider_id end_given mode db1 in
        let (r3, db3) = complete_task_assignment_task env task_id a.provider_id mode db2 in
        let (r4, db4) = complete_task_assignment_task env' task_id a.provider_id mode db3 in
        (r1 ≡ ok tt)
        × (r2 ≡ ok tt)
        × (db2.jobs ≡ append both_jobs (complete_task_assignment task_id a.provider_id mode))
        × (r3 ≡ ok tt)
        × (r4 ≡ ok tt)
        × (db4.ledger
            ≡ append
                (append db.ledger (reward task_id a.provider_id))
                (reward task_id a.provider_id))
        × (db4.jobs
            ≡ (db2.jobs ++ end_jobs task_id a.provider_id t mode)
              ++ end_jobs task_id a.provider_id t mode)
  second_completion-rewards_again there assigned works end_fits =
      let p = a.provider_id in
      let may = the_pin_fits works end_fits in
      let first = completes env task_id i p end_given t a db there assigned mode may in
      let db1 : Db = record db { jobs = both_jobs } in
      let second = completes env task_id i p end_given t a db1 there assigned mode may in
      let db2 : Db = record db1 {
        jobs = append both_jobs (complete_task_assignment task_id p mode);
      } in
      let (returned3, tasks3, assignments3, stats3, ledger3, jobs3) =
        worker-Booked env task_id i p end_given t a db2 there assigned mode in
      let of_task = find?_sound (assignment_of task_id) db.assignments i a assigned in
      let t3 = record t { status = TaskStatus.completed } in
      let a3 = record a { status = TaskAssignmentStatus.completed; completed_at = some env.now } in
      let db3 = (complete_task_assignment_task env task_id p mode db2).1 in
      let there3 : get task_id db3.tasks ≡ some t3 = rw tasks3 (get-put_self task_id t3 db.tasks) in
      let assigned3 : find? (assignment_of task_id) db3.assignments ≡ some (i, a3) =
        rw assignments3
          (find?-put_found (assignment_of task_id) i a3 a db.assignments assigned of_task) in
      let (returned4, tasks4, assignments4, stats4, ledger4, jobs4) =
        worker-Booked env' task_id i p end_given t3 a3 db3 there3 assigned3 mode in
      rw (first, second)
        (
          refl,
          refl,
          refl,
          returned3,
          returned4,
          ledger4 ∙ ap (λ l. append l (reward task_id p)) ledger3,
          jobs4 ∙ ap (λ js. js ++ end_jobs task_id p t mode) jobs3,
        )
