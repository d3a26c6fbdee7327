-- ===== src/Transfers/History.antt =====
-- Every history of the transfers: whatever calls, crashes and reconciliations happen, in any order,
-- one after the other.
use tasker_api.Prelude.{
  ℕ, ℤ, ◌≡◌, refl, true, none, some, arith, inl, inr, Bool-cases, Option-cases, ◌==◌, ==_sound,
  subst, Bool,
}
use tasker_api.Models.{Text, TransferStatus, Transfer}
use tasker_api.Table.{get, put, find?}
use tasker_api.Table.Laws.{get-put}
use tasker_api.Table.Rows.{AllRows, AllRows-put, AllRows-get}
use tasker_api.Db.{Db, Env, TransferRequest}
use tasker_api.Transfers.{
  is_processable, is_processing, for_payout, lookup_key, process_transfer, begin_attempt,
  reconcile_transfer, resolve, create_transfer, resolve_destination,
}
use tasker_api.Transfers.Gateway.{TransferOutcome, LookupOutcome, found, unreachable}
use tasker_api.Transfers.Outcome.{as_claimed, as_completed, attempted, resolved, resolve_lem}
use tasker_api.Transfers.Process.{
  process-stores, process-skip, reconcile_transfer_lem, begin_attempt_lem, is_processing_sound,
}
use tasker_api.Transfers.Create.{new_transfer, create_transfer-new, create_transfer-existing}
use tasker_api.Transfers.Rows.{
  IsSound, as_completed-IsSound, as_failed-IsSound, as_claimed-IsSound, attempted-IsSound,
  resolved-IsSound,
}
use tasker_api.Transfers.Progress.{
  Progress, Progress-refl, Progress-trans, as_claimed-Progress, attempted-Progress,
  resolved-Progress, as_completed-Progress, as_failed-Progress,
}
use tasker_api.Payments.Confirmations.{
  TransferEvent, transfer_of_event, handle_transfer_success, handle_transfer_failed,
}
use tasker_api.Payments.Confirmations.Writes.{Written, failed_by, success-Written, failure-Written}

-- The transfer that a webhook's event finds is the one under its id, as a primary key is unique.
abbrev pub FoundById : (Text → Text → Bool) → TransferEvent → Db → Type 0
FoundById same e db =
    (id : ℕ) (t : Transfer)
    → find? (transfer_of_event same e) db.transfers ≡ some (id, t)
    → get id db.transfers ≡ some t

-- One step. A worker may die after it has claimed a transfer (`claimed`); `confirmed` and `refused` are
-- the provider's webhook. `other` is a call that leaves the table alone: no code but
-- `TransferService` and the webhook writes it.
pub data Step (db : Db) : Db → Type 0 where
  processed :
      (env : Env) (provider : TransferRequest → TransferOutcome) (id : ℕ) (t : Transfer)
      → get id db.transfers ≡ some t
      → Step db (process_transfer env provider id db).1
  claimed :
      (env : Env) (id : ℕ) (t : Transfer)
      → get id db.transfers ≡ some t
      → is_processable t.status ≡ true
      → Step db (begin_attempt env id t db).1
  reconciled :
      (env : Env) (lookup : Text → LookupOutcome) (id : ℕ) (t : Transfer)
      → get id db.transfers ≡ some t
      → Step db (reconcile_transfer env lookup id db).1
  created :
      (env : Env) (payout_id task_id user_id : ℕ) (amount : ℤ) (currency : Text)
      → get (env.fresh 0) db.transfers ≡ none
      → Step db (create_transfer env payout_id task_id user_id amount currency db).1
  confirmed :
      (env : Env) (same : Text → Text → Bool) (e : TransferEvent)
      → FoundById same e db
      → Step db (handle_transfer_success env same e db).1
  refused :
      (env : Env) (same : Text → Text → Bool) (e : TransferEvent)
      → FoundById same e db
      → Step db (handle_transfer_failed env same e db).1
  other : (db' : Db) → db'.transfers ≡ db.transfers → Step db db'

pub data Reach (start : Db) : Db → Type 0 where
  here : Reach start start
  next : {db db' : Db} → Reach start db → Step db db' → Reach start db'

-- What a step makes of the table.
data Change (db db' : Db) : Type 0 where
  same : db'.transfers ≡ db.transfers → Change db db'
  moved :
      (id : ℕ) (t t' : Transfer)
      → get id db.transfers ≡ some t
      → db'.transfers ≡ put id t' db.transfers
      → (IsSound id t → IsSound id t')
      → Progress t t'
      → Change db db'
  added :
      (id : ℕ) (t' : Transfer)
      → get id db.transfers ≡ none
      → db'.transfers ≡ put id t' db.transfers
      → IsSound id t'
      → Change db db'

module _ (db : Db) where
  process-Change :
      (env : Env) (provider : TransferRequest → TransferOutcome) (id : ℕ) (t : Transfer)
      → get id db.transfers ≡ some t
      → Change db (process_transfer env provider id db).1
  process-Change env provider id t there = elim (Bool-cases (is_processable t.status)) [
    | inl can ↦
        let d = resolve_destination t.user_id db in
        let c = as_claimed env t in
        moved id t (attempted env provider id c d) there
          (process-stores env provider id t db there can)
          (λ s. attempted-IsSound env id c (as_claimed-IsSound env id t s can) provider d)
          (Progress-trans (as_claimed-Progress env t can)
            (attempted-Progress env c refl provider id d))
    | inr cannot ↦ rw (process-skip env id t db there provider cannot) (same refl)
  ]

  resolve-Change :
      (env : Env) (id : ℕ) (t : Transfer) (answer : LookupOutcome)
      → get id db.transfers ≡ some t
      → t.status ≡ TransferStatus.processing
      → Change db (resolve env id t answer db).1
  unfolding resolve
  resolve-Change env id t unreachable there busy = same refl
  resolve-Change env id t (found status reference) there busy =
      let answer = found status reference in
      moved id t (resolved env t answer) there (resolve_lem env id t db busy answer (λ e. cc)).1
        (λ s. resolved-IsSound env id t s answer) (resolved-Progress env t busy answer)

  reconcile-Change :
      (env : Env) (lookup : Text → LookupOutcome) (id : ℕ) (t : Transfer)
      → get id db.transfers ≡ some t
      → Change db (reconcile_transfer env lookup id db).1
  reconcile-Change env lookup id t there = elim (Bool-cases (is_processing t.status)) [
    | inl busy ↦
        rw (reconcile_transfer_lem env id t db there lookup, busy)
          (resolve-Change env id t (lookup (lookup_key t)) there
            (is_processing_sound t.status busy))
    | inr idle ↦ rw (reconcile_transfer_lem env id t db there lookup, idle) (same refl)
  ]

  new_transfer-IsSound :
      (env : Env) (payout_id task_id user_id : ℕ) (amount : ℤ) (currency : Text)
      → IsSound (env.fresh 0) (new_transfer env payout_id task_id user_id amount currency)
  new_transfer-IsSound env payout_id task_id user_id amount currency = ground arith

  create-Change :
      (env : Env) (payout_id task_id user_id : ℕ) (amount : ℤ) (currency : Text)
      → get (env.fresh 0) db.transfers ≡ none
      → Change db (create_transfer env payout_id task_id user_id amount currency db).1
  create-Change env payout_id task_id user_id amount currency unused =
      elim (Option-cases (find? (for_payout payout_id) db.transfers)) [
        | inl e ↦ rw (create_transfer-new env payout_id task_id user_id amount currency db e) (
            added (env.fresh 0) _ unused refl
              (new_transfer-IsSound env payout_id task_id user_id amount currency))
        | inr ((id, t), e) ↦
            rw (create_transfer-existing env payout_id task_id user_id amount currency db id t e)
              (same refl)
      ]

-- What an event writes is a step of the state machine.
event-Change :
    (same : Text → Text → Bool) (e : TransferEvent) (after : Transfer → Transfer) (db db' : Db)
    → FoundById same e db
    → ((id : ℕ) (t : Transfer) → IsSound id t → IsSound id (after t))
    → ((t : Transfer) → t.status ≡ TransferStatus.processing → Progress t (after t))
    → Written same e after db db'
    → Change db db'
event-Change same_text e after db db' unique keep step (inl unchanged) = Change.same unchanged
event-Change same_text e after db db' unique keep step (inr (id, t, at, claimed_by, row)) =
    moved id t (after t) (unique id t at) row (keep id t) (step t claimed_by)

Step-Change : {db db' : Db} → Step db db' → Change db db'
Step-Change {db} (processed env provider id t there) = process-Change db env provider id t there
Step-Change {db} (claimed env id t there can) = rw (begin_attempt_lem env id t db can) (
    moved id t (as_claimed env t) there refl (λ s. as_claimed-IsSound env id t s can)
      (as_claimed-Progress env t can))
Step-Change {db} (reconciled env lookup id t there) = reconcile-Change db env lookup id t there
Step-Change {db} (created env payout_id task_id user_id amount currency unused) =
    create-Change db env payout_id task_id user_id amount currency unused
Step-Change {db} (confirmed env same_text e unique) =
    event-Change same_text e (λ t. as_completed env t (some e.reference)) db
      (handle_transfer_success env same_text e db).1 unique
      (λ id t s. as_completed-IsSound env id t s (some e.reference))
      (λ t h. as_completed-Progress env t h (some e.reference)) (success-Written env same_text e db)
Step-Change {db} (refused env same_text e unique) =
    event-Change same_text e (failed_by env e) db (handle_transfer_failed env same_text e db).1
      unique (λ id t s. as_failed-IsSound env id t s _ _) (λ t h. as_failed-Progress env t h _ _)
      (failure-Written env same_text e db)
Step-Change (other db' e) = same e

Change-IsSound :
    {db db' : Db} → Change db db' → AllRows IsSound db.transfers → AllRows IsSound db'.transfers
Change-IsSound (same e) h = rw e h
Change-IsSound {db} (moved id t t' there e keep p) h = rw e (
    AllRows-put IsSound id t' db.transfers h (keep (AllRows-get IsSound id db.transfers t h there)))
Change-IsSound {db} (added id t' new e s) h = rw e (AllRows-put IsSound id t' db.transfers h s)

-- In every history of workers, reconciliations and the provider's webhooks that starts with sound rows,
-- every row stays sound.
pub Reach-IsSound :
    {start db : Db}
    → AllRows IsSound start.transfers
    → Reach start db
    → AllRows IsSound db.transfers
Reach-IsSound h here = h
Reach-IsSound h (next r step) = Change-IsSound (Step-Change step) (Reach-IsSound h r)

abbrev pub Later : ℕ → Transfer → Db → Type 0
Later id t db = (t' : Transfer) × (get id db.transfers ≡ some t') × Progress t t'

Change-Later :
    (id : ℕ) {t : Transfer} {db db' : Db}
    → Change db db'
    → get id db.transfers ≡ some t
    → Later id t db'
Change-Later id {t} (same e) there = (t, rw e there, Progress-refl t)
Change-Later id {t} {db} (moved j u u' at e keep p) there = elim (Bool-cases (j == id)) [
  | inl own ↦
      let same_row : u ≡ t = cc (==_sound j id own) in
      (
        u',
        rw e (ground (arith, get-put j id u' db.transfers)),
        subst (λ x. Progress x u') same_row p,
      )
  | inr else_row ↦ (t, rw e (ground (arith, get-put j id u' db.transfers)), Progress-refl t)
]
Change-Later id {t} {db} (added j u' new e s) there = elim (Bool-cases (j == id)) [
  | inl own ↦ absurd (cc (==_sound j id own))
  | inr else_row ↦ (t, rw e (ground (arith, get-put j id u' db.transfers)), Progress-refl t)
]

-- In every history of workers, reconciliations and the provider's webhooks a transfer is never lost,
-- and its row is a later state of what it was.
pub Reach-Progress :
    (id : ℕ) {t : Transfer} {start db : Db}
    → get id start.transfers ≡ some t
    → Reach start db
    → Later id t db
Reach-Progress id {t} there here = (t, there, Progress-refl t)
Reach-Progress id there (next r step) =
    let (u, at, p) = Reach-Progress id there r in
    let (v, after, q) = Change-Later id (Step-Change step) at in (v, after, Progress-trans p q)
