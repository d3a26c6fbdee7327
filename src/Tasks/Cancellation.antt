-- ===== src/Tasks/Cancellation.antt =====
-- Who may confirm and cancel a task, what a cancellation leaves behind, and what it does not stop.
use tasker_api.Prelude.{
  ℕ, ◌≡◌, refl, Bool, true, false, ◌&&◌, ◌||◌, not, Option, none, some, String, is_id, arith, leb,
  Bool-cases, Option-cases, inl, inr,
}
use tasker_api.Models.{
  Text, TaskStatus, TaskDispatchStatus, Task, TaskAssignmentStatus, TaskAssignment,
  TaskDispatchAttempt,
}
use tasker_api.Table.{Table, get, find?, update, count_where}
use tasker_api.Table.Laws.{get-update_self}
use tasker_api.Db.{Db, Env}
use tasker_api.Db.Exec.{Result, ok}
use tasker_api.Dispatch.Lifecycle.{assignment_of, is_over}
use tasker_api.Dispatch.Redispatch.{is_err}
use tasker_api.Dispatch.Ping.{handle_ping_response, pending_of, accepted_by_other}
use tasker_api.Dispatch.Ping.Acceptance.{accepted, acceptance-assigns, at_most_one_row}
use tasker_api.Tasks.{
  confirm_draft, cancel_task, carry_out, is_draft, pin_checked, pin_matches, stored_reason,
  canceller,
}

abbrev pub cancelled_by_call : Env → Option Text → Bool → Task → Task
cancelled_by_call env reason is_admin t = record t {
  status = TaskStatus.cancelled;
  cancellation_reason = stored_reason reason is_admin;
  cancelled_by = some (canceller is_admin);
  updated_at = env.now;
}

-- Who may cancel: an administrator or the customer, before the end, and not with a wrong PIN.
abbrev pub may_cancel : Task → Option (ℕ × TaskAssignment) → ℕ → Option String → Bool → Bool
may_cancel t assignment user_id pin is_admin =
    (is_admin || is_id t.customer_id user_id)
    && not (is_over t.status)
    && not (pin_checked t assignment pin is_admin && not (pin_matches assignment pin))

abbrev pub assignments_after :
    Env → Option (ℕ × TaskAssignment) → Table TaskAssignment → Table TaskAssignment
assignments_after env none rows = rows
assignments_after env (some (id, a)) rows =
    update id (λ x. record x { status = TaskAssignmentStatus.cancelled; updated_at = env.now }) rows

-- The outcome of a cancellation that is allowed, and of one that is not.
abbrev pub Cancelled :
    Bool → Env → ℕ → Option (ℕ × TaskAssignment) → Task → Db → Result (Option Task) × Db → Type 0
Cancelled true env task_id assignment t' db (r, db') =
    (r ≡ ok (some t'))
    × (get task_id db'.tasks ≡ some t')
    × (db'.assignments ≡ assignments_after env assignment db.assignments)
    × (db'.attempts ≡ db.attempts)
    × (db'.transfers ≡ db.transfers)
    × (db'.payouts ≡ db.payouts)
Cancelled false env task_id assignment t' db (r, db') = (is_err r ≡ true) × (db' ≡ db)

and_parts :
    (a d b c : Bool)
    → ((a || d) && not b && not c) ≡ true
    → ((not a && not d) ≡ false) × (b ≡ false) × (c ≡ false)
and_parts a d b c h = ground arith

module _ (env : Env) (task_id user_id : ℕ) (reason : Option Text) (pin : Option String)
    (is_admin : Bool) (t : Task) (db : Db) (there : get task_id db.tasks ≡ some t) where
  abbrev pub assignment : Option (ℕ × TaskAssignment)
  assignment = find? (assignment_of task_id) db.assignments

  cancel_refused :
      may_cancel t assignment user_id pin is_admin ≡ false
      → Cancelled false env task_id assignment
          (cancelled_by_call env reason is_admin t)
          db
          (cancel_task env task_id user_id reason pin is_admin db)
  unfolding cancel_task
  cancel_refused refused = ground arith

  allowed_parts :
      may_cancel t assignment user_id pin is_admin ≡ true
      → ((not is_admin && not (is_id t.customer_id user_id)) ≡ false)
        × (is_over t.status ≡ false)
        × ((pin_checked t assignment pin is_admin && not (pin_matches assignment pin)) ≡ false)
  allowed_parts allowed =
      and_parts is_admin (is_id t.customer_id user_id) (is_over t.status)
        (pin_checked t assignment pin is_admin && not (pin_matches assignment pin)) allowed

  cancel-eq-carry_out :
      may_cancel t assignment user_id pin is_admin ≡ true
      → cancel_task env task_id user_id reason pin is_admin db
        ≡ carry_out env task_id user_id reason pin is_admin t assignment db
  unfolding cancel_task
  cancel-eq-carry_out allowed =
      let (mine, going, pin_fits) = allowed_parts allowed in
      rw (there, mine, going) (rw pin_fits refl)

  carry_out-none :
      Cancelled true env task_id none
        (cancelled_by_call env reason is_admin t)
        db
        (carry_out env task_id user_id reason pin is_admin t none db)
  unfolding carry_out
  carry_out-none =
      let changed =
        get-update_self task_id (cancelled_by_call env reason is_admin) t db.tasks there in
      ground arith

  carry_out-some :
      (i : ℕ) (a : TaskAssignment)
      → Cancelled true env task_id
          (some (i, a))
          (cancelled_by_call env reason is_admin t)
          db
          (carry_out env task_id user_id reason pin is_admin t (some (i, a)) db)
  unfolding carry_out
  carry_out-some i a =
      let changed =
        get-update_self task_id (cancelled_by_call env reason is_admin) t db.tasks there in
      elim (Bool-cases is_admin) [
        | inl admin ↦ elim (Option-cases (get a.provider_id db.users)) [
          | inl e ↦ ground arith
          | inr (u, e) ↦ ground arith
        ]
        | inr not_admin ↦ elim (Option-cases (get a.provider_id db.users)) [
          | inl e ↦ ground arith
          | inr (u, e) ↦ ground arith
        ]
      ]

  cancel_allowed :
      may_cancel t assignment user_id pin is_admin ≡ true
      → Cancelled true env task_id assignment
          (cancelled_by_call env reason is_admin t)
          db
          (cancel_task env task_id user_id reason pin is_admin db)
  cancel_allowed allowed = elim (Option-cases (find? (assignment_of task_id) db.assignments)) [
    | inl e ↦ rw (cancel-eq-carry_out allowed, e) carry_out-none
    | inr ((i, a), e) ↦ rw (cancel-eq-carry_out allowed, e) (carry_out-some i a)
  ]

  -- An administrator, or the task's customer, may cancel a task that is not COMPLETED or CANCELLED,
  -- but the customer not with a wrong PIN for an assigned task in progress. The task and its
  -- assignment are then CANCELLED, and the pings, payouts and transfers stay as they are. Any other
  -- call raises and writes nothing.
  pub cancel_task_lem :
      Cancelled
        (may_cancel t assignment user_id pin is_admin)
        env
        task_id
        assignment
        (cancelled_by_call env reason is_admin t)
        db
        (cancel_task env task_id user_id reason pin is_admin db)
  cancel_task_lem = elim (Bool-cases (may_cancel t assignment user_id pin is_admin)) [
    | inl allowed ↦ rw allowed (cancel_allowed allowed)
    | inr refused ↦ rw refused (cancel_refused refused)
  ]

module _ (env : Env) (task_id user_id : ℕ) (reason : Option Text) (pin : Option String)
    (is_admin : Bool) (t : Task) (db : Db) (there : get task_id db.tasks ≡ some t)
    (allowed : may_cancel t (find? (assignment_of task_id) db.assignments) user_id pin is_admin
      ≡ true) where
  abbrev pub cancelled_db : Db
  cancelled_db = (cancel_task env task_id user_id reason pin is_admin db).1

  -- A provider with one ping that was PENDING when its task was cancelled, where no other provider has
  -- an ACCEPTED ping of the task (with unique rows for the task's assignment and the provider's
  -- profile), gets the cancelled task by accepting the ping: the task goes from CANCELLED to ASSIGNED.
  pub cancelled_task-accepted :
      (env' : Env) (provider_id attempt_id : ℕ) (a : TaskDispatchAttempt)
      → leb (count_where (pending_of task_id provider_id) db.attempts) 1 ≡ true
      → find? (pending_of task_id provider_id) db.attempts ≡ some (attempt_id, a)
      → find? (accepted_by_other task_id provider_id) db.attempts ≡ none
      → at_most_one_row task_id provider_id cancelled_db ≡ true
      → let t' = cancelled_by_call env reason is_admin t in
        let db' = (handle_ping_response env' task_id provider_id accepted cancelled_db).1 in
        (get task_id cancelled_db.tasks ≡ some t')
        × (get task_id db'.tasks
            ≡ some (record t' {
              status = TaskStatus.assigned;
              dispatch_status = some TaskDispatchStatus.matched;
              assigned_provider_id = some provider_id;
            }))
  cancelled_task-accepted env' provider_id attempt_id a one pending alone unique =
      let (_, stored, _, attempts, _, _) =
        cancel_allowed env task_id user_id reason pin is_admin t db there allowed in
      let (_, assigned, _, _) =
        acceptance-assigns env' task_id provider_id attempt_id a
          (cancelled_by_call env reason is_admin t) cancelled_db (rw attempts one)
          (rw attempts pending) stored refl (rw attempts alone) unique in
      (stored, assigned)

-- The outcome of a confirmation that is allowed, and of one that is not.
abbrev pub Confirmed : Bool → ℕ → Task → Db → Result (Option Task) × Db → Type 0
Confirmed true task_id t' db (r, db') =
    (r ≡ ok (some t')) × (get task_id db'.tasks ≡ some t') × (db'.jobs ≡ db.jobs)
Confirmed false task_id t' db (r, db') = (is_err r ≡ true) × (db' ≡ db)

module _ (env : Env) (task_id user_id : ℕ) (t : Task) (db : Db)
    (there : get task_id db.tasks ≡ some t) where
  confirm_allowed :
      (is_id t.customer_id user_id && is_draft t.status) ≡ true
      → Confirmed true task_id
          (record t { status = TaskStatus.opened; updated_at = env.now })
          db
          (confirm_draft env task_id user_id db)
  unfolding confirm_draft
  confirm_allowed allowed =
      let changed =
        get-update_self task_id
          (λ (x : Task). record x { status = TaskStatus.opened; updated_at = env.now }) t db.tasks
          there in
      ground arith

  confirm_refused :
      (is_id t.customer_id user_id && is_draft t.status) ≡ false
      → Confirmed false task_id
          (record t { status = TaskStatus.opened; updated_at = env.now })
          db
          (confirm_draft env task_id user_id db)
  unfolding confirm_draft
  confirm_refused refused = ground arith

  -- The customer of a draft opens it by confirming it; any other call raises and writes nothing.
  pub confirm_draft_lem :
      Confirmed
        (is_id t.customer_id user_id && is_draft t.status)
        task_id
        (record t { status = TaskStatus.opened; updated_at = env.now })
        db
        (confirm_draft env task_id user_id db)
  confirm_draft_lem = elim (Bool-cases (is_id t.customer_id user_id && is_draft t.status)) [
    | inl allowed ↦ rw allowed (confirm_allowed allowed)
    | inr refused ↦ rw refused (confirm_refused refused)
  ]
