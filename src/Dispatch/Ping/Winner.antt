-- ===== src/Dispatch/Ping/Winner.antt =====
-- The invariant of the answers to pings: which providers have accepted a task.
use tasker_api.Prelude.{
  ℕ, ◌≡◌, ◌⊎◌, refl, Bool, true, false, none, some, [], ◌∷◌, ◌==◌, subst, ==_sound, arith, leb,
  if◌then◌else◌, Bool-cases, Option-cases, inl, inr,
}
use tasker_api.Models.{DispatchAttemptStatus, TaskDispatchAttempt}
use tasker_api.Table.{Table, get, put, find?, count_where}
use tasker_api.Table.Counts.{count_where-none}
use tasker_api.Table.Laws.{find?_sound}
use tasker_api.Table.Rows.{AllRows, AllRows-put, AllRows-update_where}
use tasker_api.Db.{Db, Env}
use tasker_api.Dispatch.Lifecycle.{handle_no_match, assignment_of, profile_of}
use tasker_api.Dispatch.Ping.{
  handle_ping_response, record_response, process_acceptance, process_decline_or_timeout, pending_of,
  accepted_by_other, is_accepted, responded_status, is_assigned_task,
}
use tasker_api.Dispatch.Ping.Acceptance.{accepted, answered, cancel_others}

-- Every ACCEPTED attempt of the task is the provider's.
abbrev pub WonBy : ℕ → ℕ → Table TaskDispatchAttempt → Type 0
WonBy task_id provider_id = AllRows (λ i a. accepted_by_other task_id provider_id i a ≡ false)

WonBy-none :
    (task_id provider_id : ℕ) (rows : Table TaskDispatchAttempt)
    → find? (accepted_by_other task_id provider_id) rows ≡ none
    → WonBy task_id provider_id rows
unfolding find?
WonBy-none task_id provider_id [] e = tt
WonBy-none task_id provider_id ((i, a) ∷ rows) e =
    (ground arith, WonBy-none task_id provider_id rows (ground arith))

-- Somebody is the only one that may have accepted the task.
abbrev pub OneWinner : Table TaskDispatchAttempt → Type 0
OneWinner rows = (task_id : ℕ) → (w : ℕ) × WonBy task_id w rows

-- The attempts after an answer: as they were; one of them closed without an acceptance; or one of
-- them ACCEPTED, where no other provider's was, and perhaps others cancelled.
data Answered (env : Env) (task_id provider_id : ℕ) (rows rows' : Table TaskDispatchAttempt)
    : Type 0 where
  kept : rows' ≡ rows → Answered env task_id provider_id rows rows'
  closed :
      (id : ℕ) (a : TaskDispatchAttempt) (status : DispatchAttemptStatus)
      → is_accepted (some status) ≡ false
      → rows' ≡ put id (answered env status a) rows
      → Answered env task_id provider_id rows rows'
  won :
      (id : ℕ) (a : TaskDispatchAttempt) (cancels : Bool)
      → a.task_id ≡ task_id
      → a.provider_id ≡ provider_id
      → find? (accepted_by_other task_id provider_id) rows ≡ none
      → rows' ≡ (
          if cancels
          then cancel_others env task_id id (put id (answered env accepted a) rows)
          else put id (answered env accepted a) rows)
      → Answered env task_id provider_id rows rows'

module _ (env : Env) (task_id w : ℕ) where
  cancel_others-WonBy :
      (k id : ℕ) (rows : Table TaskDispatchAttempt)
      → WonBy k w rows
      → WonBy k w (cancel_others env task_id id rows)
  cancel_others-WonBy k id rows h =
      AllRows-update_where (λ i a. accepted_by_other k w i a ≡ false) _ _ rows
        (λ i a fits was. ground arith) h

accept-WonBy :
    (env : Env) (task_id w k id : ℕ) (cancels : Bool) (a : TaskDispatchAttempt)
    (rows : Table TaskDispatchAttempt)
    → WonBy k w rows
    → accepted_by_other k w id (answered env accepted a) ≡ false
    → WonBy k w (
        if cancels
        then cancel_others env task_id id (put id (answered env accepted a) rows)
        else put id (answered env accepted a) rows)
accept-WonBy env task_id w k id true a rows h own =
    cancel_others-WonBy env task_id w k id (put id (answered env accepted a) rows) (
      AllRows-put (λ i a. accepted_by_other k w i a ≡ false) id (answered env accepted a) rows h
        own)
accept-WonBy env task_id w k id false a rows h own =
    AllRows-put (λ i a. accepted_by_other k w i a ≡ false) id (answered env accepted a) rows h own

Answered-OneWinner :
    {env : Env} {task_id provider_id : ℕ} {rows rows' : Table TaskDispatchAttempt}
    → Answered env task_id provider_id rows rows'
    → OneWinner rows
    → OneWinner rows'
Answered-OneWinner (kept e) h = λ k. rw e (h k)
Answered-OneWinner {env} {task_id} {provider_id} {rows} (closed id a status refused e) h = λ k. (
  (h k).0,
  rw e (
      AllRows-put (λ i a. accepted_by_other k (h k).0 i a ≡ false) id _ rows (h k).1
        (ground arith)),
)
Answered-OneWinner {env} {task_id} {provider_id} {rows} (won id a cancels task provider alone e) h =
    λ k. elim (Bool-cases (task_id == k)) [
      | inl own ↦ (
        provider_id,
        rw e (
            accept-WonBy env task_id provider_id k id cancels a rows
              (subst (λ j. WonBy j provider_id rows) (==_sound task_id k own)
                (WonBy-none task_id provider_id rows alone))
              (ground arith)),
      )
      | inr other ↦ (
        (h k).0,
        rw e (accept-WonBy env task_id (h k).0 k id cancels a rows (h k).1 (ground arith)),
      )
    ]

module _ (env : Env) (task_id provider_id : ℕ) (db : Db) where
  decline-attempts :
      (a : TaskDispatchAttempt)
      → (process_decline_or_timeout env task_id provider_id a db).1.attempts ≡ db.attempts
  unfolding process_decline_or_timeout handle_no_match
  decline-attempts a = ground arith

  acceptance-attempts :
      (id : ℕ)
      → (cancels : Bool) × ((process_acceptance env task_id provider_id id db).1.attempts
          ≡ (if cancels then cancel_others env task_id id db.attempts else db.attempts))
  unfolding process_acceptance
  acceptance-attempts id =
      elim (Bool-cases (leb (count_where (assignment_of task_id) db.assignments) 1)) [
        | inl one ↦ elim (Bool-cases (leb (count_where (profile_of provider_id) db.profiles) 1)) [
          | inl one' ↦ (true, ground arith)
          | inr many' ↦ (false, ground arith)
        ]
        | inr many ↦ (false, ground arith)
      ]

module _ (env : Env) (task_id provider_id : ℕ) (db : Db) where
  record-attempts :
      (id : ℕ) (a : TaskDispatchAttempt) (status : DispatchAttemptStatus)
      → is_accepted (some status) ≡ false
      → (record_response env task_id provider_id id a status db).1.attempts
        ≡ put id (answered env status a) db.attempts
  unfolding record_response
  record-attempts id a status refused =
      let recorded = record db { attempts = put id (answered env status a) db.attempts } in
      ground (arith, decline-attempts env task_id provider_id recorded (answered env status a))

  accept-Answered :
      (id : ℕ) (a : TaskDispatchAttempt)
      → pending_of task_id provider_id id a ≡ true
      → find? (accepted_by_other task_id provider_id) db.attempts ≡ none
      → Answered env task_id provider_id db.attempts
          (record_response env task_id provider_id id a accepted db).1.attempts
  unfolding record_response
  accept-Answered id a pending alone =
      let recorded = record db { attempts = put id (answered env accepted a) db.attempts } in
      let (cancels, e) = acceptance-attempts env task_id provider_id recorded id in
      won id a cancels (ground arith) (ground arith) alone e

module _ (env : Env) (task_id provider_id id : ℕ) (a : TaskDispatchAttempt) (db : Db)
    (one : leb (count_where (pending_of task_id provider_id) db.attempts) 1 ≡ true)
    (pending : find? (pending_of task_id provider_id) db.attempts ≡ some (id, a)) where
  refused-records :
      (response : DispatchAttemptStatus)
      → is_accepted (some (responded_status response)) ≡ false
      → handle_ping_response env task_id provider_id response db
        ≡ record_response env task_id provider_id id a (responded_status response) db
  unfolding handle_ping_response
  refused-records response refused = ground arith

  -- An acceptance is recorded or ignored.
  accepted-records :
      (response : DispatchAttemptStatus)
      → is_accepted (some (responded_status response)) ≡ true
      → ((handle_ping_response env task_id provider_id response db).1 ≡ db)
        ⊎ ((find? (accepted_by_other task_id provider_id) db.attempts ≡ none)
            × (handle_ping_response env task_id provider_id response db
                ≡ record_response env task_id provider_id id a accepted db))
  unfolding handle_ping_response
  accepted-records response taken = elim (Bool-cases (is_assigned_task (get task_id db.tasks))) [
    | inl late ↦ inl (ground arith)
    | inr free ↦
        elim (Bool-cases
          (leb (count_where (accepted_by_other task_id provider_id) db.attempts) 1)) [
            | inr many ↦ inl (ground arith)
            | inl few ↦
                elim (Option-cases (find? (accepted_by_other task_id provider_id) db.attempts)) [
                  | inl alone ↦ inr (alone, ground arith)
                  | inr (other, found) ↦ inl (ground arith)
                ]
          ]
  ]

  pending-Answered :
      (response : DispatchAttemptStatus)
      → Answered env task_id provider_id db.attempts
          (handle_ping_response env task_id provider_id response db).1.attempts
  pending-Answered response = elim (Bool-cases (is_accepted (some (responded_status response)))) [
    | inr refused ↦ rw (refused-records response refused) (
        closed id a (responded_status response) refused
          (record-attempts env task_id provider_id db id a (responded_status response) refused))
    | inl taken ↦ elim (accepted-records response taken) [
      | inl ignored ↦ kept (rw ignored refl)
      | inr (alone, recorded) ↦ rw recorded (
          accept-Answered env task_id provider_id db id a
            (find?_sound (pending_of task_id provider_id) db.attempts id a pending) alone)
    ]
  ]

module _ (env : Env) (task_id provider_id : ℕ) (db : Db) where
  unpinged-keeps :
      (response : DispatchAttemptStatus)
      → find? (pending_of task_id provider_id) db.attempts ≡ none
      → (handle_ping_response env task_id provider_id response db).1 ≡ db
  unfolding handle_ping_response
  unpinged-keeps response missing =
      let none_counted = count_where-none (pending_of task_id provider_id) db.attempts missing in
      ground arith

  ambiguous-keeps :
      (response : DispatchAttemptStatus)
      → leb (count_where (pending_of task_id provider_id) db.attempts) 1 ≡ false
      → (handle_ping_response env task_id provider_id response db).1 ≡ db
  unfolding handle_ping_response
  ambiguous-keeps response many = ground arith

  response-Answered :
      (response : DispatchAttemptStatus)
      → Answered env task_id provider_id db.attempts
          (handle_ping_response env task_id provider_id response db).1.attempts
  response-Answered response =
      elim (Bool-cases (leb (count_where (pending_of task_id provider_id) db.attempts) 1)) [
        | inr many ↦ kept (rw (ambiguous-keeps response many) refl)
        | inl one ↦ elim (Option-cases (find? (pending_of task_id provider_id) db.attempts)) [
          | inl missing ↦ kept (rw (unpinged-keeps response missing) refl)
          | inr ((id, a), pending) ↦
              pending-Answered env task_id provider_id id a db one pending response
        ]
      ]

-- If one provider at most has accepted each task, that holds after any answer to a ping too: by
-- whomever, for whatever task, also after a call that raises.
pub handle_ping_response-OneWinner :
    (env : Env) (task_id provider_id : ℕ) (response : DispatchAttemptStatus) (db : Db)
    → OneWinner db.attempts
    → OneWinner (handle_ping_response env task_id provider_id response db).1.attempts
handle_ping_response-OneWinner env task_id provider_id response db =
    Answered-OneWinner (response-Answered env task_id provider_id db response)
