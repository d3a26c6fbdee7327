-- ===== src/Transfers/Celery/Workers.antt =====
-- The Celery tasks around the transfers: the retries that they schedule, and the loop of the
-- reconciliation.
use tasker_api.Prelude.{
  ℕ, zero, suc, ◌+◌, ◌-◌, ◌*◌, ◌/◌, ◌≤◌, ◌<◌, ◌≡◌, ◌≢◌, ◌⊎◌, refl, ⊤, Bool, true, Option, none,
  some, [], ◌∷◌, ◌++◌, take, arith, Bool-cases, Option-cases, sym, ◌∙◌, ap, inl, inr,
}
use tasker_api.Models.{Text, TransferStatus, Transfer}
use tasker_api.Table.{Table, get, select_where}
use tasker_api.Db.{Db, Env, retry_transfer_task, TransferRequest}
use tasker_api.Db.Exec.{Result, ok, >>=-ok}
use tasker_api.Transfers.{
  reconcile_transfer, is_processable, is_processing, resolve_destination, lookup_key, resolve,
}
use tasker_api.Transfers.Gateway.{TransferOutcome, LookupOutcome, unreachable, found, succeeded}
use tasker_api.Transfers.Delay.{calculate_retry_delay, backoff, backoff_bounds}
use tasker_api.Transfers.Outcome.{as_claimed, attempted, settled, resolve_lem, resolved}
use tasker_api.Transfers.Process.{
  process_transfer_lem, reconcile_transfer_lem, processed, is_processing_sound,
}
use tasker_api.Transfers.History.{Reach-Progress, here, next, reconciled}
use tasker_api.Transfers.Effects.{jobs-process_transfer}
use tasker_api.Transfers.Celery.{
  process_transfer_job, reconcile_each, second, is_stale, reconcile_processing_transfers,
}

-- The delay lies between 30 seconds and 2 hours, and a fifth more.
delay_bounds :
    (uniform : ℕ → ℕ) (n : ℕ)
    → ((b : ℕ) → uniform b ≤ b)
    → 0 < n
    → (30 * second ≤ calculate_retry_delay uniform n)
      × (calculate_retry_delay uniform n ≤ 8640 * second)
unfolding calculate_retry_delay
delay_bounds uniform n fair pos = omega (arith, backoff_bounds n pos, fair (backoff n / 5))

settled_retry_at :
    (env : Env) (t : Transfer) (o : TransferOutcome)
    → (settled env t o).status ≡ TransferStatus.retrying
    → (settled env t o).next_retry_at
      ≡ some (env.now + calculate_retry_delay env.uniform t.attempt_count)
settled_retry_at env t (succeeded reference) h = cc
settled_retry_at env t o h = ground arith

attempted_retry_at :
    (env : Env) (provider : TransferRequest → TransferOutcome) (id : ℕ) (t : Transfer)
    (destination : Option Text)
    → (attempted env provider id t destination).status ≡ TransferStatus.retrying
    → (attempted env provider id t destination).next_retry_at
      ≡ some (env.now + calculate_retry_delay env.uniform t.attempt_count)
attempted_retry_at env provider id t none h = cc
attempted_retry_at env provider id t (some destination) h = settled_retry_at env t _ h

-- A retry of `id` after `c` seconds, as the last job.
abbrev pub Retries : ℕ → Db → Db → Type 0
Retries id db db' =
    (c : ℕ) × (db'.jobs ≡ db.jobs ++ retry_transfer_task id c ∷ []) × (30 ≤ c) × (c ≤ 8640)

-- What the task enqueues for a transfer that it left in a status.
abbrev pub Scheduled : TransferStatus → ℕ → Db → Db → Type 0
Scheduled TransferStatus.retrying id db db' = Retries id db db'
Scheduled _ id db db' = db'.jobs ≡ db.jobs

Scheduled-none :
    (s : TransferStatus) (id : ℕ) (db db' : Db)
    → s ≢ TransferStatus.retrying
    → db'.jobs ≡ db.jobs
    → Scheduled s id db db'
Scheduled-none TransferStatus.retrying id db db' h e = absurd (h refl)
Scheduled-none _ id db db' h e = e

is_retrying-cases :
    (s : TransferStatus) → (s ≡ TransferStatus.retrying) ⊎ (s ≢ TransferStatus.retrying)
is_retrying-cases TransferStatus.retrying = inl refl
is_retrying-cases s = inr (ground arith)

module _ (env : Env) (provider : TransferRequest → TransferOutcome) (id : ℕ) (t : Transfer)
    (db : Db) (there : get id db.transfers ≡ some t) where
  abbrev after : Db
  after = (process_transfer_job env provider id db).1

  abbrev left : Transfer
  left = processed env provider id t (resolve_destination t.user_id db)

  job_retries :
      (at : ℕ)
      → left.status ≡ TransferStatus.retrying
      → left.next_retry_at ≡ some at
      → after.jobs ≡ db.jobs ++ retry_transfer_task id ((at - env.now) / second) ∷ []
  unfolding process_transfer_job
  job_retries at retrying timed = ground (
    arith,
    process_transfer_lem env provider id t db there,
    jobs-process_transfer env provider id t db there,
  )

  job_ends : left.status ≢ TransferStatus.retrying → after.jobs ≡ db.jobs
  unfolding process_transfer_job
  job_ends final = ground (
    arith,
    process_transfer_lem env provider id t db there,
    jobs-process_transfer env provider id t db there,
  )

  processed_retry_at :
      is_processable t.status ≡ true
      → left.status ≡ TransferStatus.retrying
      → left.next_retry_at
        ≡ some (env.now + calculate_retry_delay env.uniform (t.attempt_count + 1))
  processed_retry_at can h =
      rw can (attempted_retry_at env provider id (as_claimed env t) _ (rw can at h))

  schedules_retry :
      ((b : ℕ) → env.uniform b ≤ b)
      → is_processable t.status ≡ true
      → left.status ≡ TransferStatus.retrying
      → Retries id db after
  schedules_retry fair can retrying =
      let delay = calculate_retry_delay env.uniform (t.attempt_count + 1) in
      let (least, most) = delay_bounds env.uniform (t.attempt_count + 1) fair (omega arith) in
      (
        (env.now + delay - env.now) / second,
        job_retries (env.now + delay) retrying (processed_retry_at can retrying),
        omega arith,
        omega arith,
      )

  -- A call of the task for a transfer that can be processed enqueues one retry, in 30 to 8640
  -- seconds, if the attempt left the transfer RETRYING, and no job otherwise, provided that
  -- `random.uniform` keeps to its bound.
  pub process_transfer_job_schedules :
      ((b : ℕ) → env.uniform b ≤ b)
      → is_processable t.status ≡ true
      → Scheduled left.status id db after
  process_transfer_job_schedules fair can = elim (is_retrying-cases left.status) [
    | inl retrying ↦ rw retrying (schedules_retry fair can retrying)
    | inr final ↦ Scheduled-none left.status id db after final (job_ends final)
  ]

-- The rows of `rows` are rows of the table.
abbrev pub Present : Db → Table Transfer → Type 0
Present db [] = ⊤
Present db ((id, _) ∷ rest) = (get id db.transfers ≢ none) × Present db rest

some_ne_none : {t : Transfer} → some t ≢ none
some_ne_none e = cc

reconcile-keeps :
    (env : Env) (lookup : Text → LookupOutcome) (id j : ℕ) (t : Transfer) (db : Db)
    → get id db.transfers ≡ some t
    → get j db.transfers ≢ none
    → get j (reconcile_transfer env lookup id db).1.transfers ≢ none
reconcile-keeps env lookup id j t db there known = elim (Option-cases (get j db.transfers)) [
  | inl missing ↦ absurd (known missing)
  | inr (u, at) ↦ λ lost.
      let (v, after, _) = Reach-Progress j at (next here (reconciled env lookup id t there)) in
      some_ne_none (sym after ∙ lost)
]

Present-reconcile :
    (env : Env) (lookup : Text → LookupOutcome) (id : ℕ) (t : Transfer) (db : Db)
    (rows : Table Transfer)
    → get id db.transfers ≡ some t
    → Present db rows
    → Present (reconcile_transfer env lookup id db).1 rows
Present-reconcile env lookup id t db [] there h = tt
Present-reconcile env lookup id t db ((j, _) ∷ rest) there h = (
  reconcile-keeps env lookup id j t db there h.0,
  Present-reconcile env lookup id t db rest there h.1,
)

reconcile_returns :
    (env : Env) (lookup : Text → LookupOutcome) (id : ℕ) (t : Transfer) (db : Db)
    → get id db.transfers ≡ some t
    → (t' : Transfer) × ((reconcile_transfer env lookup id db).0 ≡ ok t')
reconcile_returns env lookup id t db there = elim (Bool-cases (is_processing t.status)) [
  | inl busy ↦
      rw (reconcile_transfer_lem env id t db there lookup, busy)
        (resolve_returns (lookup (lookup_key t)) (is_processing_sound t.status busy))
  | inr idle ↦ rw (reconcile_transfer_lem env id t db there lookup, idle) (t, refl)
]
  where
    resolve_returns :
        (answer : LookupOutcome)
        → t.status ≡ TransferStatus.processing
        → (t' : Transfer) × ((resolve env id t answer db).0 ≡ ok t')
    resolve_returns unreachable busy = (t, unfold resolve in refl)
    resolve_returns (found status reference) busy = (
      resolved env t (found status reference),
      (resolve_lem env id t db busy (found status reference) (λ e. cc)).0,
    )

-- The reconciliation gets through its whole list: it raises for no row that is in the table,
-- whatever the provider answers.
reconcile_each_returns :
    (env : Env) (lookup : Text → LookupOutcome) (rows : Table Transfer) (db : Db)
    → Present db rows
    → (reconcile_each env lookup rows db).0 ≡ ok tt
unfolding reconcile_each
reconcile_each_returns env lookup [] db h = refl
reconcile_each_returns env lookup ((id, _) ∷ rest) db h =
    elim (Option-cases (get id db.transfers)) [
      | inl missing ↦ absurd (h.0 missing)
      | inr (t, there) ↦
          let (t', returned) = reconcile_returns env lookup id t db there in
          ap (λ (r : Result ⊤ × Db). r.0)
            (>>=-ok (reconcile_transfer env lookup id) (λ _. reconcile_each env lookup rest) db
              returned)
          ∙ (reconcile_each_returns env lookup rest (reconcile_transfer env lookup id db).1
              (Present-reconcile env lookup id t db rest there h.1))
    ]

Known : Table Transfer → Table Transfer → Type 0
Known t [] = ⊤
Known t ((id, _) ∷ rest) = (get id t ≢ none) × Known t rest

Known-cons :
    (j : ℕ) (a : Transfer) (t rows : Table Transfer) → Known t rows → Known ((j, a) ∷ t) rows
unfolding Known get
Known-cons j a t [] h = tt
Known-cons j a t ((id, _) ∷ rest) h = (ground (arith, h.0), Known-cons j a t rest h.1)

Known-select : (p : ℕ → Transfer → Bool) (t : Table Transfer) → Known t (select_where p t)
unfolding Known get select_where
Known-select p [] = tt
Known-select p ((j, a) ∷ t) = elim (Bool-cases (p j a)) [
  | inl fits ↦ rw fits (ground arith, Known-cons j a t _ (Known-select p t))
  | inr not_fits ↦ rw not_fits (Known-cons j a t _ (Known-select p t))
]

Present-take :
    (db : Db) (n : ℕ) (rows : Table Transfer) → Known db.transfers rows → Present db (take n rows)
unfolding Known
Present-take db zero rows h = tt
Present-take db (suc n) [] h = tt
Present-take db (suc n) ((id, _) ∷ rest) h = (h.0, Present-take db n rest h.1)

-- The reconciliation task never raises, whatever the provider answers: it gets through its list.
pub reconcile_processing_transfers_returns :
    (env : Env) (lookup : Text → LookupOutcome) (db : Db)
    → (reconcile_processing_transfers env lookup db).0 ≡ ok tt
unfolding reconcile_processing_transfers
reconcile_processing_transfers_returns env lookup db =
    reconcile_each_returns env lookup (take 50 (select_where (is_stale env) db.transfers)) db
      (Present-take db 50 _ (Known-select (is_stale env) db.transfers))
