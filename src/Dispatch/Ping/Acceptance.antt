-- ===== src/Dispatch/Ping/Acceptance.antt =====
-- Acceptances of pings: what one does, and when it is ignored.
use tasker_api.Prelude.{
  ℕ, ◌≡◌, refl, ⊤, Bool, true, false, ◌&&◌, Option, none, some, ◌==◌, arith, leb, Bool-cases,
  Option-cases, inl, inr,
}
use tasker_api.Models.{
  Text, TaskStatus, TaskDispatchStatus, Task, DispatchAttemptStatus, TaskDispatchAttempt,
}
use tasker_api.Table.{Table, get, put, find?, update_where, count_where}
use tasker_api.Table.Laws.{get-put, get-put_self, get-update_where}
use tasker_api.Table.Counts.{count_where-none}
use tasker_api.Db.{Db, Env}
use tasker_api.Db.Exec.{Result, ok}
use tasker_api.Dispatch.Lifecycle.{is_assigned, manual_redispatch, assignment_of, profile_of}
use tasker_api.Dispatch.Ping.{
  handle_ping_response, record_response, process_acceptance, pending_of, accepted_by_other,
  cancelled_by_acceptance,
}

abbrev pub accepted : DispatchAttemptStatus
accepted = DispatchAttemptStatus.accepted

module _ (env : Env) (task_id provider_id : ℕ) (db : Db) where
  -- The acceptance of a task that is already ASSIGNED writes nothing.
  pub late_acceptance-ignored :
      (t : Task)
      → get task_id db.tasks ≡ some t
      → is_assigned t.status ≡ true
      → (handle_ping_response env task_id provider_id accepted db).1 ≡ db
  unfolding handle_ping_response
  late_acceptance-ignored t there taken =
      elim (Bool-cases (leb (count_where (pending_of task_id provider_id) db.attempts) 1)) [
        | inl one ↦ elim (Option-cases (find? (pending_of task_id provider_id) db.attempts)) [
          | inl e ↦ ground arith
          | inr (a, e) ↦ ground arith
        ]
        | inr many ↦ ground arith
      ]

  -- An acceptance writes nothing while an attempt of another provider for the task is ACCEPTED,
  -- whatever the status of the task.
  pub second_acceptance-ignored :
      (winner : ℕ × TaskDispatchAttempt)
      → find? (accepted_by_other task_id provider_id) db.attempts ≡ some winner
      → (handle_ping_response env task_id provider_id accepted db).1 ≡ db
  unfolding handle_ping_response
  second_acceptance-ignored winner e =
      elim (Bool-cases (leb (count_where (pending_of task_id provider_id) db.attempts) 1)) [
        | inl one ↦ elim (Option-cases (find? (pending_of task_id provider_id) db.attempts)) [
          | inl f ↦ ground arith
          | inr (a, f) ↦
              elim (Bool-cases
                (leb (count_where (accepted_by_other task_id provider_id) db.attempts) 1)) [
                  | inl one' ↦ ground arith
                  | inr many' ↦ ground arith
                ]
        ]
        | inr many ↦ ground arith
      ]

-- A redispatch leaves every attempt as it was.
manual_redispatch-attempts :
    (env : Env) (task_id user_id : ℕ) (feedback : Option Text) (is_admin : Bool) (db : Db)
    → (manual_redispatch env task_id user_id feedback is_admin db).1.attempts ≡ db.attempts
unfolding manual_redispatch
manual_redispatch-attempts env task_id user_id feedback is_admin db = ground arith

module _ (env : Env) (task_id provider_id : ℕ) (db : Db) where
  -- After a redispatch no provider can take the task but the one that had accepted it before: the
  -- redispatch leaves that attempt ACCEPTED, and so the acceptance of any other provider writes
  -- nothing.
  pub redispatch-blocks :
      (env' : Env) (user_id : ℕ) (feedback : Option Text) (is_admin : Bool)
      (winner : ℕ × TaskDispatchAttempt)
      → find? (accepted_by_other task_id provider_id) db.attempts ≡ some winner
      → let db' = (manual_redispatch env' task_id user_id feedback is_admin db).1 in
        (handle_ping_response env task_id provider_id accepted db').1 ≡ db'
  redispatch-blocks env' user_id feedback is_admin winner e =
      second_acceptance-ignored env task_id provider_id
        (manual_redispatch env' task_id user_id feedback is_admin db).1 winner
        (rw (manual_redispatch-attempts env' task_id user_id feedback is_admin db) e)

-- The attempts after `process_acceptance`: the other pending ones of the task CANCELLED, unless the
-- rows of the task's assignment or the provider's profile are not unique.
abbrev pub cancel_others : Env → ℕ → ℕ → Table TaskDispatchAttempt → Table TaskDispatchAttempt
cancel_others env task_id attempt_id =
    update_where (cancelled_by_acceptance task_id attempt_id)
      (λ a. record a { status = some DispatchAttemptStatus.cancelled; responded_at = some env.now })

abbrev pub answered : Env → DispatchAttemptStatus → TaskDispatchAttempt → TaskDispatchAttempt
answered env status a = record a { status = some status; responded_at = some env.now }

abbrev pub still_pending : Option DispatchAttemptStatus → Bool
still_pending (some DispatchAttemptStatus.pending) = true
still_pending _ = false

-- A status of an attempt of the task that is still open to an answer.
abbrev pub is_open : ℕ → Option TaskDispatchAttempt → Bool
is_open task_id none = false
is_open task_id (some a) = (a.task_id == task_id) && still_pending a.status

abbrev pub at_most_one_row : ℕ → ℕ → Db → Bool
at_most_one_row task_id provider_id db =
    leb (count_where (assignment_of task_id) db.assignments) 1
    && leb (count_where (profile_of provider_id) db.profiles) 1

module _ (env : Env) (task_id provider_id attempt_id : ℕ) (t : Task) (db : Db)
    (there : get task_id db.tasks ≡ some t)
    (unique : at_most_one_row task_id provider_id db ≡ true) where
  process_acceptance_lem :
      let (r, db') = process_acceptance env task_id provider_id attempt_id db in
      (r ≡ ok tt)
      × (db'.attempts ≡ cancel_others env task_id attempt_id db.attempts)
      × (db'.tasks
          ≡ put task_id
              (record t {
                status = TaskStatus.assigned;
                dispatch_status = some TaskDispatchStatus.matched;
                assigned_provider_id = some provider_id;
              })
              db.tasks)
  unfolding process_acceptance
  process_acceptance_lem = ground arith

cancel_others-closes :
    (env : Env) (task_id attempt_id i : ℕ) (a : TaskDispatchAttempt)
    (rows : Table TaskDispatchAttempt)
    → is_open task_id (
        get i
          (cancel_others env task_id attempt_id (put attempt_id (answered env accepted a) rows)))
      ≡ false
cancel_others-closes env task_id attempt_id i a rows =
    let kept = get-put attempt_id i (answered env accepted a) rows in
    let changed =
      get-update_where (cancelled_by_acceptance task_id attempt_id)
        (answered env DispatchAttemptStatus.cancelled) i
        (put attempt_id (answered env accepted a) rows) in
    elim (Bool-cases (attempt_id == i)) [
      | inl own ↦ ground arith
      | inr other ↦ elim (Option-cases (get i rows)) [
        | inl missing ↦ ground arith
        | inr (b, at) ↦ elim (Bool-cases (is_open task_id (some b))) [
          | inl open_row ↦ ground arith
          | inr closed ↦ ground arith
        ]
      ]
    ]

cancel_others-keeps :
    (env : Env) (task_id attempt_id : ℕ) (a : TaskDispatchAttempt)
    (rows : Table TaskDispatchAttempt)
    → get attempt_id
        (cancel_others env task_id attempt_id (put attempt_id (answered env accepted a) rows))
      ≡ some (answered env accepted a)
cancel_others-keeps env task_id attempt_id a rows =
    let kept = get-put_self attempt_id (answered env accepted a) rows in
    let changed =
      get-update_where (cancelled_by_acceptance task_id attempt_id)
        (answered env DispatchAttemptStatus.cancelled) attempt_id
        (put attempt_id (answered env accepted a) rows) in
    ground arith

module _ (env : Env) (task_id provider_id attempt_id : ℕ) (a : TaskDispatchAttempt) (t : Task)
    (db : Db) where
  handle-records :
      leb (count_where (pending_of task_id provider_id) db.attempts) 1 ≡ true
      → find? (pending_of task_id provider_id) db.attempts ≡ some (attempt_id, a)
      → get task_id db.tasks ≡ some t
      → is_assigned t.status ≡ false
      → find? (accepted_by_other task_id provider_id) db.attempts ≡ none
      → handle_ping_response env task_id provider_id accepted db
        ≡ record_response env task_id provider_id attempt_id a accepted db
  unfolding handle_ping_response
  handle-records one pending there free none_yet =
      let none_counted =
        count_where-none (accepted_by_other task_id provider_id) db.attempts none_yet in
      ground arith

module _ (env : Env) (task_id provider_id attempt_id : ℕ) (a : TaskDispatchAttempt) (t : Task)
    (db : Db) where
  abbrev pub after_acceptance : Result ⊤ × Db
  after_acceptance = handle_ping_response env task_id provider_id accepted db

  -- The acceptance of the one pending ping of a task that is not ASSIGNED and that no other provider
  -- has accepted (with unique rows for the assignment and the profile) returns; it leaves the task
  -- ASSIGNED to the provider, the ping ACCEPTED and, at the end of the request, with its log entries
  -- flushed, no ping of the task PENDING.
  pub acceptance-assigns :
      leb (count_where (pending_of task_id provider_id) db.attempts) 1 ≡ true
      → find? (pending_of task_id provider_id) db.attempts ≡ some (attempt_id, a)
      → get task_id db.tasks ≡ some t
      → is_assigned t.status ≡ false
      → find? (accepted_by_other task_id provider_id) db.attempts ≡ none
      → at_most_one_row task_id provider_id db ≡ true
      → let (r, db') = after_acceptance in
        (r ≡ ok tt)
        × (get task_id db'.tasks
            ≡ some (record t {
              status = TaskStatus.assigned;
              dispatch_status = some TaskDispatchStatus.matched;
              assigned_provider_id = some provider_id;
            }))
        × (get attempt_id db'.attempts ≡ some (answered env accepted a))
        × ((i : ℕ) → is_open task_id (get i db'.attempts) ≡ false)
  unfolding record_response
  acceptance-assigns one pending there free none_yet unique =
      let recorded = record db {
        attempts = put attempt_id (answered env accepted a) db.attempts;
      } in
      let (returned, attempts, tasks) =
        process_acceptance_lem env task_id provider_id attempt_id t recorded there unique in
      rw
        (
          handle-records env task_id provider_id attempt_id a t db one pending there free none_yet,
          returned,
          attempts,
          tasks,
        )
        (
          refl,
          get-put_self task_id _ db.tasks,
          cancel_others-keeps env task_id attempt_id a db.attempts,
          λ i. cancel_others-closes env task_id attempt_id i a db.attempts,
        )
