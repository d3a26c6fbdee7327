-- ===== src/Tasks/Completion/Tests.antt =====
-- The start and the end of a task on a small database, at which the theorems apply.
use tasker_api.Prelude.{◌≡◌, refl, some, [], ◌∷◌, ◌++◌}
use tasker_api.Models.{TaskStatus, TaskAssignmentStatus, PaymentMode}
use tasker_api.Table.{get, find?}
use tasker_api.Db.{Db, empty_db, append, complete_task_assignment}
use tasker_api.Db.Exec.{ok}
use tasker_api.Dispatch.Lifecycle.{assignment_of}
use tasker_api.Tasks.Tests.{test_env, task_in, test_assignment}
use tasker_api.Tasks.Completion.{start_task, complete_task, complete_task_assignment_task}
use tasker_api.Tasks.Completion.Work.{reward, end_jobs}
use tasker_api.Tasks.Completion.Ends.{work_books, second_completion-rewards_again}

abbrev db_in : TaskStatus → Db
db_in status = record empty_db {
  tasks = (6, task_in status) ∷ [];
  assignments = (3, test_assignment) ∷ [];
}

task_there : get 6 (db_in TaskStatus.assigned).tasks ≡ some (task_in TaskStatus.assigned)
unfolding get
task_there = refl

work_there : get 6 (db_in TaskStatus.in_progress).tasks ≡ some (task_in TaskStatus.in_progress)
unfolding get
work_there = refl

assignment_there :
    find? (assignment_of 6) (db_in TaskStatus.assigned).assignments ≡ some (3, test_assignment)
unfolding find?
assignment_there = refl

work_books_example :
    let db = db_in TaskStatus.assigned in
    let (r1, db1) = start_task test_env 6 7 "1111" db in
    let (r2, db2) = complete_task 6 7 "2222" PaymentMode.cash db1 in
    let (r3, db3) = complete_task_assignment_task test_env 6 7 PaymentMode.cash db2 in
    (r1 ≡ ok tt)
    × (r2 ≡ ok tt)
    × (db2.jobs ≡ append db.jobs (complete_task_assignment 6 7 PaymentMode.cash))
    × (r3 ≡ ok tt)
    × (get 6 db3.tasks ≡ some (task_in TaskStatus.completed))
    × (find? (assignment_of 6) db3.assignments
        ≡ some (
          3,
          record test_assignment {
            status = TaskAssignmentStatus.completed;
            started_at = some 1000;
            completed_at = some 1000;
          },
        ))
    × (db3.ledger ≡ append db.ledger (reward 6 7))
    × (db3.jobs
        ≡ append db.jobs (complete_task_assignment 6 7 PaymentMode.cash)
          ++ end_jobs 6 7 (task_in TaskStatus.assigned) PaymentMode.cash)
work_books_example =
    work_books test_env test_env 6 3 "1111" "2222" PaymentMode.cash (task_in TaskStatus.assigned)
      test_assignment (db_in TaskStatus.assigned) task_there assignment_there refl refl refl

second_completion-rewards_again_example :
    let db = db_in TaskStatus.in_progress in
    let (r1, db1) = complete_task 6 7 "2222" PaymentMode.cash db in
    let (r2, db2) = complete_task 6 7 "2222" PaymentMode.cash db1 in
    let (r3, db3) = complete_task_assignment_task test_env 6 7 PaymentMode.cash db2 in
    let (r4, db4) = complete_task_assignment_task test_env 6 7 PaymentMode.cash db3 in
    let job = complete_task_assignment 6 7 PaymentMode.cash in
    let ends = end_jobs 6 7 (task_in TaskStatus.in_progress) PaymentMode.cash in
    (r1 ≡ ok tt)
    × (r2 ≡ ok tt)
    × (db2.jobs ≡ append (append db.jobs job) job)
    × (r3 ≡ ok tt)
    × (r4 ≡ ok tt)
    × (db4.ledger ≡ append (append db.ledger (reward 6 7)) (reward 6 7))
    × (db4.jobs ≡ (db2.jobs ++ ends) ++ ends)
second_completion-rewards_again_example =
    second_completion-rewards_again test_env test_env 6 3 "1111" "2222" PaymentMode.cash
      (task_in TaskStatus.in_progress) test_assignment (db_in TaskStatus.in_progress) work_there
      assignment_there refl refl
