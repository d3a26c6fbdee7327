-- ===== src/Transfers/Rows.antt =====
-- The invariant of a transfer's row, under every operation on transfers.
use tasker_api.Prelude.{
  ℕ, ◌≤◌, ◌<◌, ◌≡◌, ◌≢◌, true, Option, none, some, ◌∷◌, [], arith, leb, inl, inr, Bool-cases,
}
use tasker_api.Models.{Text, lit, text, shown, TransferStatus, Transfer}
use tasker_api.Db.{Env, TransferRequest}
use tasker_api.Transfers.{is_processable}
use tasker_api.Transfers.Gateway.{
  TransferOutcome, succeeded, temporary, permanent, LookupOutcome, LookupStatus, found, unreachable,
}
use tasker_api.Transfers.Outcome.{
  as_claimed, as_completed, as_failed, as_failed_or_retrying, settled, attempted, resolved,
}

-- Attempts never pass their limit, and a transfer that waits has one left; the stamps and the retry
-- time go with the status; the idempotency key names the transfer.
pub record IsSound (id : ℕ) (t : Transfer) : Type 0 where
  pub attempts_capped : t.attempt_count ≤ t.max_attempts
  pub attempt_left : is_processable t.status ≡ true → t.attempt_count < t.max_attempts
  pub attempt_made : t.status ≡ TransferStatus.processing → 0 < t.attempt_count
  pub retry_timed : t.status ≡ TransferStatus.retrying → t.next_retry_at ≢ none
  pub completed_stamped : t.status ≡ TransferStatus.completed → t.completed_at ≢ none
  pub failed_stamped : t.status ≡ TransferStatus.failed → t.failed_at ≢ none
  pub key_own : t.idempotency_key ≡ lit "transfer:" ∷ shown id ∷ []

module _ (env : Env) (id : ℕ) (t : Transfer) (sound : IsSound id t) where
  pub as_claimed-IsSound : is_processable t.status ≡ true → IsSound id (as_claimed env t)
  as_claimed-IsSound can = ground (arith, sound.attempt_left can)

  pub as_failed-IsSound : (code reason : Option Text) → IsSound id (as_failed env t code reason)
  as_failed-IsSound code reason = ground arith

  pub as_completed-IsSound : (reference : Option Text) → IsSound id (as_completed env t reference)
  as_completed-IsSound reference = ground arith

  as_failed_or_retrying-IsSound :
      (code reason : Option Text) → IsSound id (as_failed_or_retrying env t code reason)
  as_failed_or_retrying-IsSound code reason =
      elim (Bool-cases (leb t.max_attempts t.attempt_count)) [
        | inl spent ↦ rw spent (as_failed-IsSound _ _)
        | inr left ↦ rw left (ground arith)
      ]

  settled-IsSound : (o : TransferOutcome) → IsSound id (settled env t o)
  settled-IsSound (succeeded reference) = as_completed-IsSound reference
  settled-IsSound (temporary code message) = as_failed_or_retrying-IsSound code (some message)
  settled-IsSound (permanent code message) = as_failed-IsSound _ _

  pub attempted-IsSound :
      (provider : TransferRequest → TransferOutcome) (destination : Option Text)
      → IsSound id (attempted env provider id t destination)
  attempted-IsSound provider none = as_failed-IsSound _ _
  attempted-IsSound provider (some destination) = settled-IsSound _

  pub resolved-IsSound : (answer : LookupOutcome) → IsSound id (resolved env t answer)
  resolved-IsSound (found LookupStatus.success reference) = as_completed-IsSound _
  resolved-IsSound (found LookupStatus.failed reference) = as_failed-IsSound _ _
  resolved-IsSound (found LookupStatus.other_status reference) =
      as_failed_or_retrying-IsSound (some (text "RECONCILED_UNKNOWN"))
        (some (text "Provider returned unknown status during reconciliation"))
  resolved-IsSound unreachable = sound
