-- ===== src/Transfers/Outcome.antt =====
-- What one attempt makes of a claimed transfer, as a function of the provider's answer, and that
-- `settle`, `run_attempt` and `resolve` do that in the database.
use tasker_api.Prelude.{
  ℕ, ◌+◌, ◌≡◌, ◌≢◌, refl, Option, none, some, ◌∷◌, [], leb, arith, if◌then◌else◌,
}
use tasker_api.Models.{Text, lit, shown, text, or_text, TransferStatus, Transfer}
use tasker_api.Table.{put}
use tasker_api.Db.{Db, Env, TransferRequest}
use tasker_api.Db.Exec.{Result, ok}
use tasker_api.Transfers.{
  settle, run_attempt, resolve, shown_or_none, request_for, mark_completed, mark_failed, mark_retry,
}
use tasker_api.Transfers.Delay.{calculate_retry_delay}
use tasker_api.Transfers.Gateway.{
  TransferOutcome, succeeded, temporary, permanent, LookupOutcome, found, unreachable, LookupStatus,
}

abbrev pub as_claimed : Env → Transfer → Transfer
as_claimed env t = record t {
  status = TransferStatus.processing;
  attempt_count = t.attempt_count + 1;
  last_attempt_at = some env.now;
  version = t.version + 1;
  updated_at = env.now;
}

abbrev pub as_completed : Env → Transfer → Option Text → Transfer
as_completed env t reference = record t {
  status = TransferStatus.completed;
  provider_transfer_id = reference;
  next_retry_at = none;
  completed_at = some env.now;
  version = t.version + 1;
  updated_at = env.now;
}

abbrev pub as_failed : Env → Transfer → Option Text → Option Text → Transfer
as_failed env t code reason = record t {
  status = TransferStatus.failed;
  next_retry_at = none;
  failed_at = some env.now;
  failure_code = code;
  failure_reason = reason;
  version = t.version + 1;
  updated_at = env.now;
}

abbrev pub as_retrying : Env → Transfer → Option Text → Option Text → Transfer
as_retrying env t code reason = record t {
  status = TransferStatus.retrying;
  next_retry_at = some (env.now + calculate_retry_delay env.uniform t.attempt_count);
  failure_code = code;
  failure_reason = reason;
  version = t.version + 1;
  updated_at = env.now;
}

abbrev pub as_failed_or_retrying : Env → Transfer → Option Text → Option Text → Transfer
as_failed_or_retrying env t code reason =
    if leb t.max_attempts t.attempt_count
    then as_failed env t (some (or_text code (text "MAX_ATTEMPTS_EXCEEDED"))) (
        some (
          or_text reason (lit "Exceeded maximum attempts (" ∷ shown t.max_attempts ∷ lit ")" ∷ [])))
    else as_retrying env t code reason

abbrev pub settled : Env → Transfer → TransferOutcome → Transfer
settled env t (succeeded reference) = as_completed env t reference
settled env t (temporary code message) = as_failed_or_retrying env t code (some message)
settled env t (permanent code message) = as_failed env t code (some message)

abbrev pub no_account_code : Text
no_account_code = text "NO_PAYMENT_ACCOUNT"

abbrev pub no_account_reason : Transfer → Text
no_account_reason t =
    lit "No active payment account found for provider " ∷ shown_or_none t.user_id ∷ []

-- The claimed transfer after the attempt: without a recipient it fails and nobody is called.
abbrev pub attempted :
    Env → (TransferRequest → TransferOutcome) → ℕ → Transfer → Option Text → Transfer
attempted env provider id t none =
    as_failed env t (some no_account_code) (some (no_account_reason t))
attempted env provider id t (some destination) =
    settled env t (provider (request_for id t destination))

-- The stuck transfer after the provider's answer to the reconciliation.
abbrev pub resolved : Env → Transfer → LookupOutcome → Transfer
resolved env t (found LookupStatus.success reference) = as_completed env t reference
resolved env t (found LookupStatus.failed reference) =
    as_failed env t (some (text "RECONCILED_FAILED"))
      (some (text "Provider confirmed transfer failed during reconciliation"))
resolved env t (found LookupStatus.other_status reference) =
    as_failed_or_retrying env t (some (text "RECONCILED_UNKNOWN"))
      (some (text "Provider returned unknown status during reconciliation"))
resolved env t unreachable = t

-- What an operation on a transfer returns, and the row it leaves.
abbrev pub Leaves : ℕ → Transfer → Db → Result Transfer × Db → Type 0
Leaves id t' db (r, db') = (r ≡ ok t') × (db'.transfers ≡ put id t' db.transfers)

module _ (env : Env) (id : ℕ) (t : Transfer) (db : Db)
    (claimed : t.status ≡ TransferStatus.processing) where
  pub mark_completed_lem :
      (reference : Option Text)
      → Leaves id (as_completed env t reference) db (mark_completed env id t reference db)
  unfolding mark_completed
  mark_completed_lem reference = ground arith

  pub mark_failed_lem :
      (code reason : Option Text)
      → Leaves id (as_failed env t code reason) db (mark_failed env id t code reason db)
  unfolding mark_failed
  mark_failed_lem code reason = ground arith

  pub mark_retry_lem :
      (code reason : Option Text)
      → Leaves id (as_failed_or_retrying env t code reason) db (mark_retry env id t code reason db)
  unfolding mark_retry
  mark_retry_lem code reason = ground arith

  pub settle_lem : (o : TransferOutcome) → Leaves id (settled env t o) db (settle env id t o db)
  unfolding settle
  settle_lem (succeeded reference) = ground arith
  settle_lem o = ground arith

  pub run_attempt_lem :
      (provider : TransferRequest → TransferOutcome) (destination : Option Text)
      → Leaves id
          (attempted env provider id t destination)
          db
          (run_attempt env provider id t destination db)
  unfolding run_attempt
  run_attempt_lem provider none =
      ground (arith, mark_failed_lem (some no_account_code) (some (no_account_reason t)))
  run_attempt_lem provider (some destination) = ground arith

  pub resolve_lem :
      (answer : LookupOutcome)
      → answer ≢ unreachable
      → Leaves id (resolved env t answer) db (resolve env id t answer db)
  unfolding resolve
  resolve_lem (found LookupStatus.success reference) h = mark_completed_lem reference
  resolve_lem unreachable h = absurd (h refl)
  resolve_lem (found _ reference) h = ground arith
