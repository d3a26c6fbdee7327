-- ===== src/Dispatch/Tests.antt =====
-- Runs of the dispatch on a small database, at which the theorems apply.
use tasker_api.Prelude.{ℕ, ◌≡◌, refl, true, false, Option, none, some, [], ◌∷◌, arith, leb}
use tasker_api.Models.{
  text, TaskStatus, TaskDispatchStatus, Task, DispatchAttemptStatus, TaskDispatchAttempt,
  DispatchSessionTrigger, DispatchSessionStatus, DispatchSession,
}
use tasker_api.Table.{get, find?, count_where}
use tasker_api.Db.{Db, Env, empty_db}
use tasker_api.Db.Exec.{ok}
use tasker_api.Dispatch.{auto_retry}
use tasker_api.Dispatch.Lifecycle.{manual_redispatch, handle_no_match}
use tasker_api.Dispatch.Ping.{handle_ping_response, pending_of, accepted_by_other}
use tasker_api.Dispatch.Ping.Acceptance.{
  accepted, answered, is_open, at_most_one_row, redispatch-blocks, acceptance-assigns,
}
use tasker_api.Dispatch.Ping.Winner.{OneWinner, handle_ping_response-OneWinner}
use tasker_api.Dispatch.Retries.{
  retried, retry_jobs, auto_retry_lem, auto_retry_each, auto_retry_each_exhausts, IsExhausted,
}
use tasker_api.Dispatch.Redispatch.{
  unmatched, ended, handle_no_match_lem, Redispatched, manual_redispatch_lem,
}
use tasker_api.Dispatch.Due.{process_due_dispatches}
use tasker_api.Dispatch.Due.Rounds.{Processed, process_due_dispatches-Processed}

abbrev pub test_env : Env
test_env = record { now = 1000; uniform = λ b. b; fresh = λ i. 90; pin = λ i. "0000" }

abbrev pub task_in : TaskStatus → Option ℕ → Task
task_in status retries = record {
  customer_id = some 8;
  service_id = none;
  category_id = none;
  title = text "Fix the tap";
  description = [];
  customer_total_price = none;
  platform_fee = none;
  provider_payout = none;
  assigned_provider_id = none;
  status = status;
  dispatch_status = none;
  next_dispatch_at = none;
  dispatch_claimed_at = none;
  auto_dispatch_count = retries;
  manual_dispatch_count = none;
  dispatch_started_at = none;
  scheduled_start_at = none;
  start_pin = some "1111";
  completion_pin = some "2222";
  cancellation_reason = none;
  cancelled_by = none;
  payment_mode = none;
  payment_status = none;
  payment_url = none;
  expires_at = none;
  updated_at = 0;
}

abbrev ping : ℕ → DispatchAttemptStatus → TaskDispatchAttempt
ping provider_id status = record {
  dispatch_session_id = some 4;
  task_id = 6;
  provider_id = provider_id;
  sequence_order = some 1;
  match_score = none;
  offered_payout = none;
  pinged_at = some 10;
  expires_at = some 550;
  responded_at = none;
  status = some status;
}

abbrev pub test_session : DispatchSession
test_session = record {
  task_id = 6;
  trigger = DispatchSessionTrigger.initial;
  status = DispatchSessionStatus.running;
  sequence = 1;
  started_at = 10;
  completed_at = none;
  reason = none;
  batch_size = 5;
  lock_version = 1;
  search_radius = some 1000;
  excluded_provider_ids = [];
  updated_at = 10;
}

-- Task 6, with pings 31 to provider 7 and 32 to provider 9.
abbrev db_with : Task → DispatchAttemptStatus → DispatchAttemptStatus → Db
db_with t first second = record empty_db {
  tasks = (6, t) ∷ [];
  sessions = (4, test_session) ∷ [];
  attempts = (31, ping 7 first) ∷ (32, ping 9 second) ∷ [];
}

abbrev pending : DispatchAttemptStatus
pending = DispatchAttemptStatus.pending

abbrev searching : Db
searching = db_with (task_in TaskStatus.searching none) pending pending

-- Task 6 was cancelled while both pings were out.
abbrev cancelled_task : Task
cancelled_task = task_in TaskStatus.cancelled none

abbrev cancelled : Db
cancelled = db_with cancelled_task pending pending

-- Provider 9 had accepted the task before it was redispatched.
abbrev taken : Db
taken = db_with (task_in TaskStatus.assigned none) pending accepted

task_there :
    (t : Task) (first second : DispatchAttemptStatus)
    → get 6 (db_with t first second).tasks ≡ some t
unfolding get
task_there t first second = refl

session_there :
    (t : Task) (first second : DispatchAttemptStatus)
    → get 4 (db_with t first second).sessions ≡ some test_session
unfolding get
session_there t first second = refl

won_by_other : find? (accepted_by_other 6 7) taken.attempts ≡ some (32, ping 9 accepted)
unfolding find?
won_by_other = refl

redispatch-blocks_example :
    let db' = (manual_redispatch test_env 6 8 none false taken).1 in
    (handle_ping_response test_env 6 7 accepted db').1 ≡ db'
redispatch-blocks_example =
    redispatch-blocks test_env 6 7 taken test_env 8 none false (32, ping 9 accepted) won_by_other

one_pending : leb (count_where (pending_of 6 7) cancelled.attempts) 1 ≡ true
unfolding count_where
one_pending = refl

ping_found : find? (pending_of 6 7) cancelled.attempts ≡ some (31, ping 7 pending)
unfolding find?
ping_found = refl

nobody_accepted : find? (accepted_by_other 6 7) cancelled.attempts ≡ none
unfolding find?
nobody_accepted = refl

rows_unique : at_most_one_row 6 7 cancelled ≡ true
unfolding count_where
rows_unique = refl

-- The task was CANCELLED, and the acceptance gives it to the provider all the same.
acceptance-assigns_example :
    let (r, db') = handle_ping_response test_env 6 7 accepted cancelled in
    (r ≡ ok tt)
    × (get 6 db'.tasks
        ≡ some (record cancelled_task {
          status = TaskStatus.assigned;
          dispatch_status = some TaskDispatchStatus.matched;
          assigned_provider_id = some 7;
        }))
    × (get 31 db'.attempts ≡ some (answered test_env accepted (ping 7 pending)))
    × ((i : ℕ) → is_open 6 (get i db'.attempts) ≡ false)
acceptance-assigns_example =
    acceptance-assigns test_env 6 7 31 (ping 7 pending) cancelled_task cancelled one_pending
      ping_found (task_there _ pending pending) refl nobody_accepted rows_unique

nobody_won : OneWinner searching.attempts
nobody_won task_id = (7, (ground arith, (ground arith, tt)))

handle_ping_response-OneWinner_example :
    OneWinner (handle_ping_response test_env 6 7 accepted searching).1.attempts
handle_ping_response-OneWinner_example =
    handle_ping_response-OneWinner test_env 6 7 accepted searching nobody_won

auto_retry_lem_example :
    let t = task_in TaskStatus.no_match (some 2) in
    let db = db_with t pending pending in
    let db' = (auto_retry test_env 6 db).1 in
    (get 6 db'.tasks ≡ some (retried test_env t)) × (db'.jobs ≡ retry_jobs test_env t db.jobs)
auto_retry_lem_example =
    auto_retry_lem test_env 6 (task_in TaskStatus.no_match (some 2))
      (db_with (task_in TaskStatus.no_match (some 2)) pending pending)
      (task_there _ pending pending)

auto_retry_each_exhausts_example :
    let db = db_with (task_in TaskStatus.searching (some 4)) pending pending in
    IsExhausted (get 6 (auto_retry_each 6 (test_env ∷ test_env ∷ []) db).tasks)
auto_retry_each_exhausts_example =
    auto_retry_each_exhausts 6 (test_env ∷ test_env ∷ []) (task_in TaskStatus.searching (some 4))
      (db_with (task_in TaskStatus.searching (some 4)) pending pending)
      (task_there _ pending pending) refl (omega arith) (omega arith)

handle_no_match_lem_example :
    let t = task_in TaskStatus.searching none in
    let (r, db') = handle_no_match test_env 6 4 none searching in
    (r ≡ ok tt)
    × (get 6 db'.tasks ≡ some (unmatched test_env t))
    × (get 4 db'.sessions ≡ some (ended test_env t none test_session))
    × (db'.jobs ≡ searching.jobs)
handle_no_match_lem_example =
    handle_no_match_lem test_env 6 4 none (task_in TaskStatus.searching none) test_session searching
      (task_there (task_in TaskStatus.searching none) pending pending)
      (session_there (task_in TaskStatus.searching none) pending pending)

manual_redispatch_lem_example :
    Redispatched true test_env 6
      (task_in TaskStatus.assigned none)
      taken
      (manual_redispatch test_env 6 8 none false taken)
manual_redispatch_lem_example =
    manual_redispatch_lem test_env 6 8 none (task_in TaskStatus.assigned none) taken
      (task_there _ pending accepted) false

abbrev due_task : Task
due_task = record (task_in TaskStatus.searching (some 1)) {
  dispatch_status = some TaskDispatchStatus.retry_scheduled;
  next_dispatch_at = some 900;
}

abbrev db_due : Db
db_due = record empty_db { tasks = (6, due_task) ∷ [] }

process_due_dispatches-Processed_example :
    Processed 1000 500 20 db_due (process_due_dispatches 1000 500 20 db_due)
process_due_dispatches-Processed_example =
    process_due_dispatches-Processed 1000 500 20 db_due (omega arith)
