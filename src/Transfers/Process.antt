-- ===== src/Transfers/Process.antt =====
-- `process_transfer` and `reconcile_transfer` against their specification in Outcome, on every
-- branch.
use tasker_api.Prelude.{
  ℕ, ◌≡◌, ◌∙◌, refl, true, false, Option, some, arith, if◌then◌else◌, Bool-cases, inl, inr,
}
use tasker_api.Models.{Text, TransferStatus, Transfer}
use tasker_api.Table.{get, put}
use tasker_api.Table.Laws.{get-put_self, put-put}
use tasker_api.Db.{Db, Env, TransferRequest}
use tasker_api.Db.Exec.{ok}
use tasker_api.Transfers.{
  process_transfer, reconcile_transfer, begin_attempt, run_attempt, resolve, resolve_destination,
  is_processable, is_processing, lookup_key,
}
use tasker_api.Transfers.Gateway.{TransferOutcome, LookupOutcome, found, unreachable}
use tasker_api.Transfers.Outcome.{as_claimed, attempted, resolved, run_attempt_lem, resolve_lem}

-- The transfer after `process_transfer`.
abbrev pub processed :
    Env → (TransferRequest → TransferOutcome) → ℕ → Transfer → Option Text → Transfer
processed env provider id t destination =
    if is_processable t.status then attempted env provider id (as_claimed env t) destination else t

pub is_processing_sound :
    (s : TransferStatus) → is_processing s ≡ true → s ≡ TransferStatus.processing
is_processing_sound s h = ground arith

module _ (env : Env) (id : ℕ) (t : Transfer) (db : Db) where
  abbrev pub claimed_db : Db
  claimed_db = record db { transfers = put id (as_claimed env t) db.transfers }

  resolve_destination-claimed :
      (user_id : Option ℕ) → resolve_destination user_id claimed_db ≡ resolve_destination user_id db
  unfolding resolve_destination
  resolve_destination-claimed user_id = ground arith

  pub begin_attempt_lem :
      is_processable t.status ≡ true
      → begin_attempt env id t db ≡ (ok (as_claimed env t), claimed_db)
  unfolding begin_attempt
  begin_attempt_lem h = ground arith

  module _ (there : get id db.transfers ≡ some t) where
    pub reconcile_transfer_lem :
        (lookup : Text → LookupOutcome)
        → reconcile_transfer env lookup id db ≡ (
            if is_processing t.status
            then resolve env id t (lookup (lookup_key t)) db
            else (ok t, db))
    unfolding reconcile_transfer
    reconcile_transfer_lem lookup = ground arith

    module _ (provider : TransferRequest → TransferOutcome) where
      pub process-eq-run_attempt :
          is_processable t.status ≡ true
          → process_transfer env provider id db
            ≡ run_attempt env provider id
                (as_claimed env t)
                (resolve_destination t.user_id db)
                claimed_db
      unfolding process_transfer
      process-eq-run_attempt h =
          ground (arith, begin_attempt_lem, resolve_destination-claimed t.user_id)

      pub process-skip :
          is_processable t.status ≡ false → process_transfer env provider id db ≡ (ok t, db)
      unfolding process_transfer
      process-skip h = ground arith

module _ (env : Env) (provider : TransferRequest → TransferOutcome) (id : ℕ) (t : Transfer)
    (db : Db) (there : get id db.transfers ≡ some t) where
  abbrev destination : Option Text
  destination = resolve_destination t.user_id db

  -- A transfer that can be processed ends as the attempt with its recipient and the provider's
  -- answer says, one that cannot be stays as it is; the call returns the row that it stores.
  pub process_transfer_lem :
      let t' = processed env provider id t destination in
      let (r, db') = process_transfer env provider id db in
      (r ≡ ok t') × (get id db'.transfers ≡ some t')
  process_transfer_lem = elim (Bool-cases (is_processable t.status)) [
    | inl can ↦
        rw (process-eq-run_attempt env id t db there provider can, can)
          (let (returned, stored) =
              run_attempt_lem env id (as_claimed env t) (claimed_db env id t db) refl provider
                destination in
            (returned, rw stored (get-put_self id _ _)))
    | inr cannot ↦ rw (process-skip env id t db there provider cannot, cannot) (refl, there)
  ]

  -- The table after an attempt: the one row is replaced.
  pub process-stores :
      is_processable t.status ≡ true
      → (process_transfer env provider id db).1.transfers
        ≡ put id (attempted env provider id (as_claimed env t) destination) db.transfers
  process-stores can = rw (process-eq-run_attempt env id t db there provider can) (
      (run_attempt_lem env id (as_claimed env t) (claimed_db env id t db) refl provider
        destination).1
      ∙ put-put id _ _ db.transfers)

-- The transfer after `reconcile_transfer`.
abbrev pub reconciled_to : Env → Transfer → (Text → LookupOutcome) → Transfer
reconciled_to env t lookup =
    if is_processing t.status then resolved env t (lookup (lookup_key t)) else t

module _ (env : Env) (id : ℕ) (t : Transfer) (db : Db) (there : get id db.transfers ≡ some t) where
  resolve_ends :
      (answer : LookupOutcome)
      → t.status ≡ TransferStatus.processing
      → let (r, db') = resolve env id t answer db in
        (r ≡ ok (resolved env t answer)) × (get id db'.transfers ≡ some (resolved env t answer))
  resolve_ends unreachable busy = unfold resolve in (refl, there)
  resolve_ends (found status reference) busy =
      let (returned, stored) = resolve_lem env id t db busy (found status reference) (λ e. cc) in
      (returned, rw stored (get-put_self id _ _))

  -- A transfer in PROCESSING ends as the provider's record says (COMPLETED, FAILED, or RETRYING
  -- while attempts are left) and stays as it is if the provider cannot be reached; one in any other
  -- status stays as it is. The call returns the row that it stores.
  pub reconcile_transfer_ends :
      (lookup : Text → LookupOutcome)
      → let t' = reconciled_to env t lookup in
        let (r, db') = reconcile_transfer env lookup id db in
        (r ≡ ok t') × (get id db'.transfers ≡ some t')
  reconcile_transfer_ends lookup = elim (Bool-cases (is_processing t.status)) [
    | inl busy ↦
        rw (reconcile_transfer_lem env id t db there lookup, busy)
          (resolve_ends (lookup (lookup_key t)) (is_processing_sound t.status busy))
    | inr idle ↦ rw (reconcile_transfer_lem env id t db there lookup, idle) (refl, there)
  ]
