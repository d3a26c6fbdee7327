-- ===== src/Tasks/Tests.antt =====
-- Runs of the cancellation on a small database, at which the theorems apply.
use tasker_api.Prelude.{◌≡◌, refl, true, false, none, some, [], ◌∷◌, leb}
use tasker_api.Models.{
  text, is_blank, TaskStatus, TaskDispatchStatus, Task, DispatchAttemptStatus, TaskDispatchAttempt,
  TaskAssignmentStatus, TaskAssignment,
}
use tasker_api.Table.{get, put, find?, update, count_where}
use tasker_api.Db.{Db, Env, empty_db}
use tasker_api.Dispatch.Lifecycle.{assignment_of}
use tasker_api.Dispatch.Ping.{handle_ping_response, pending_of, accepted_by_other}
use tasker_api.Dispatch.Ping.Acceptance.{accepted, at_most_one_row}
use tasker_api.Tasks.{cancel_task}
use tasker_api.Tasks.Cancellation.{
  Cancelled, cancelled_by_call, cancel_task_lem, cancelled_task-accepted,
}
use tasker_api.Prelude.{ℕ, pos, ◌+ℤ◌, ◌-ℤ◌, ◌≤ℤ◌, Bool, arith}
use tasker_api.Models.{PaymentStatus, PriceAdjustmentStatus, TaskPriceAdjustment}
use tasker_api.Db.Exec.{ok}
use tasker_api.Dispatch.Redispatch.{is_err}
use tasker_api.Payments.Compare.{same_text}
use tasker_api.Payments.Charges.{Charge, ChargeKind, handle_charge_success}
use tasker_api.Payments.Charges.Locks.{OnlyLocks}
use tasker_api.Tasks.Adjustments.{respond_to_price_adjustment}
use tasker_api.Tasks.Adjustments.Prices.{fee_part, rate_in_force, approval-reprices}
use tasker_api.Tasks.Adjustments.Late.{late_approval-refuses}

abbrev pub test_env : Env
test_env = record { now = 1000; uniform = λ b. b; fresh = λ i. 90; pin = λ i. "0000" }

abbrev pub task_in : TaskStatus → Task
task_in status = record {
  customer_id = some 8;
  service_id = none;
  category_id = none;
  title = text "Fix the tap";
  description = [];
  customer_total_price = none;
  platform_fee = none;
  provider_payout = none;
  assigned_provider_id = none;
  status = status;
  dispatch_status = none;
  next_dispatch_at = none;
  dispatch_claimed_at = none;
  auto_dispatch_count = none;
  manual_dispatch_count = none;
  dispatch_started_at = none;
  scheduled_start_at = none;
  start_pin = some "1111";
  completion_pin = some "2222";
  cancellation_reason = none;
  cancelled_by = none;
  payment_mode = none;
  payment_status = none;
  payment_url = none;
  expires_at = none;
  updated_at = 0;
}

abbrev ping : TaskDispatchAttempt
ping = record {
  dispatch_session_id = some 4;
  task_id = 6;
  provider_id = 7;
  sequence_order = some 1;
  match_score = none;
  offered_payout = none;
  pinged_at = some 10;
  expires_at = some 550;
  responded_at = none;
  status = some DispatchAttemptStatus.pending;
}

abbrev pub test_assignment : TaskAssignment
test_assignment = record {
  task_id = 6;
  provider_id = 7;
  assigned_at = 20;
  started_at = none;
  completed_at = none;
  identity_pin = some "1234";
  cancellation_pin = some "4321";
  status = TaskAssignmentStatus.assigned;
  updated_at = 20;
}

abbrev searching : Db
searching = record empty_db {
  tasks = (6, task_in TaskStatus.searching) ∷ [];
  attempts = (31, ping) ∷ [];
}

abbrev working : Db
working = record empty_db {
  tasks = (6, task_in TaskStatus.in_progress) ∷ [];
  assignments = (3, test_assignment) ∷ [];
}

abbrev drafted : Db
drafted = record empty_db { tasks = (6, task_in TaskStatus.draft) ∷ [] }

search_there : get 6 searching.tasks ≡ some (task_in TaskStatus.searching)
unfolding get
search_there = refl

work_there : get 6 working.tasks ≡ some (task_in TaskStatus.in_progress)
unfolding get
work_there = refl

draft_there : get 6 drafted.tasks ≡ some (task_in TaskStatus.draft)
unfolding get
draft_there = refl

assignment_there : find? (assignment_of 6) working.assignments ≡ some (3, test_assignment)
unfolding find?
assignment_there = refl

-- A wrong PIN is refused.
refuses_wrong_pin : (cancel_task test_env 6 8 none (some "9999") false working).1 ≡ working
unfolding cancel_task get find? is_blank
refuses_wrong_pin = refl

cancel_task_lem_example :
    Cancelled true test_env 6
      (find? (assignment_of 6) working.assignments)
      (cancelled_by_call test_env none false (task_in TaskStatus.in_progress))
      working
      (cancel_task test_env 6 8 none (some "4321") false working)
unfolding find? is_blank
cancel_task_lem_example =
    cancel_task_lem test_env 6 8 none (some "4321") false (task_in TaskStatus.in_progress) working
      work_there

one_pending : leb (count_where (pending_of 6 7) searching.attempts) 1 ≡ true
unfolding count_where
one_pending = refl

ping_found : find? (pending_of 6 7) searching.attempts ≡ some (31, ping)
unfolding find?
ping_found = refl

nobody_accepted : find? (accepted_by_other 6 7) searching.attempts ≡ none
unfolding find?
nobody_accepted = refl

abbrev after_cancel : Db
after_cancel = (cancel_task test_env 6 8 none none false searching).1

rows_unique : at_most_one_row 6 7 after_cancel ≡ true
unfolding cancel_task get find? update put count_where
rows_unique = refl

cancelled_task-accepted_example :
    let t' = cancelled_by_call test_env none false (task_in TaskStatus.searching) in
    let db' = (handle_ping_response test_env 6 7 accepted after_cancel).1 in
    (get 6 after_cancel.tasks ≡ some t')
    × (get 6 db'.tasks
        ≡ some (record t' {
          status = TaskStatus.assigned;
          dispatch_status = some TaskDispatchStatus.matched;
          assigned_provider_id = some 7;
        }))
cancelled_task-accepted_example =
    cancelled_task-accepted test_env 6 8 none none false (task_in TaskStatus.searching) searching
      search_there refl test_env 7 31 ping one_pending ping_found nobody_accepted rows_unique

-- The task is completed and its customer was asked to pay 6000; the provider's request is still
-- open.
abbrev asked_to_pay : Task
asked_to_pay = record (task_in TaskStatus.completed) {
  customer_total_price = some (pos 600000);
  payment_status = some PaymentStatus.payment_requested;
}

abbrev extra : TaskPriceAdjustment
extra = record {
  task_id = 6;
  description = some (text "A new valve");
  amount = some (pos 750000);
  requested_by = some 7;
  status = some PriceAdjustmentStatus.pending;
}

abbrev db_asked : Db
db_asked = record empty_db { tasks = (6, asked_to_pay) ∷ []; adjustments = (3, extra) ∷ [] }

asked_there : get 6 db_asked.tasks ≡ some asked_to_pay
unfolding get
asked_there = refl

extra_there : get 3 db_asked.adjustments ≡ some extra
unfolding get
extra_there = refl

approval-reprices_example :
    let (r, db') = respond_to_price_adjustment 6 3 8 true db_asked in
    let approved_extra = record extra { status = some PriceAdjustmentStatus.approved } in
    let fee = fee_part (rate_in_force asked_to_pay db_asked) (pos 750000) in
    (r ≡ ok approved_extra)
    × (get 3 db'.adjustments ≡ some approved_extra)
    × (get 6 db'.tasks
        ≡ some (record asked_to_pay {
          customer_total_price = some (pos 750000);
          platform_fee = some fee;
          provider_payout = some (pos 750000 -ℤ fee);
        }))
    × (fee +ℤ (pos 750000 -ℤ fee) ≡ pos 750000)
    × (pos 0 ≤ℤ fee)
    × (pos 0 ≤ℤ pos 750000 -ℤ fee)
    × ((approved : Bool) (customer_id' : ℕ)
        → let (r', again) = respond_to_price_adjustment 6 3 customer_id' approved db' in
          (is_err r' ≡ true) × (again ≡ db'))
approval-reprices_example =
    approval-reprices 6 3 8 asked_to_pay extra db_asked asked_there refl extra_there refl refl
      (omega arith)

-- The payment of the old price.
abbrev old_price : Charge
old_price = record {
  reference = text "ref_3";
  amount = pos 600000;
  user_id = some 8;
  task_id = some 6;
  kind = ChargeKind.task_payment;
  provider_id = none;
}

late_approval-refuses_example :
    let db' = (respond_to_price_adjustment 6 3 8 true db_asked).1 in
    OnlyLocks db' (handle_charge_success test_env same_text old_price db').1
late_approval-refuses_example =
    late_approval-refuses test_env same_text old_price 6 3 8 asked_to_pay extra db_asked asked_there
      refl extra_there refl refl refl refl refl refl
