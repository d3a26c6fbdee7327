-- ===== src/Transfers/Progress.antt =====
-- How a row of `transfers` may change: the order of rows under the transitions of the state machine,
-- and that each outcome of an attempt is a step of it.
use tasker_api.Prelude.{
  ℕ, ◌+◌, ◌≤◌, ◌≡◌, ◌≢◌, refl, ◌∙◌, Bool, true, false, Option, none, some, arith, leb, inl, inr,
  Bool-cases,
}
use tasker_api.Models.{Text, text, TransferStatus, can_transition, Transfer}
use tasker_api.Db.{Env, TransferRequest}
use tasker_api.Transfers.{is_processable}
use tasker_api.Transfers.Gateway.{
  TransferOutcome, succeeded, temporary, permanent, LookupOutcome, LookupStatus, found, unreachable,
}
use tasker_api.Transfers.Outcome.{
  as_claimed, as_completed, as_failed, as_retrying, as_failed_or_retrying, settled, attempted,
  resolved,
}

infix 40 ◌⟶*◌
-- A chain of transitions that the table of the state machine allows.
pub data ◌⟶*◌ : TransferStatus → TransferStatus → Type 0 where
  here : {s : TransferStatus} → s ⟶* s
  next : {s t u : TransferStatus} → can_transition s t ≡ true → t ⟶* u → s ⟶* u

⟶*-trans : {s t u : TransferStatus} → s ⟶* t → t ⟶* u → s ⟶* u
⟶*-trans here q = q
⟶*-trans (next e p) q = next e (⟶*-trans p q)

abbrev pub is_final : TransferStatus → Bool
is_final TransferStatus.completed = true
is_final TransferStatus.failed = true
is_final TransferStatus.cancelled = true
is_final _ = false

-- What a transfer is for, and the key under which the provider knows it.
pub record SameIntent (t t' : Transfer) : Type 0 where
  pub amount_kept : t'.amount ≡ t.amount
  pub currency_kept : t'.currency ≡ t.currency
  pub payout_kept : t'.payout_id ≡ t.payout_id
  pub user_kept : t'.user_id ≡ t.user_id
  pub key_kept : t'.idempotency_key ≡ t.idempotency_key
  pub limit_kept : t'.max_attempts ≡ t.max_attempts

SameIntent-trans : {t u v : Transfer} → SameIntent t u → SameIntent u v → SameIntent t v
SameIntent-trans p q = record {
  amount_kept = q.amount_kept ∙ p.amount_kept;
  currency_kept = q.currency_kept ∙ p.currency_kept;
  payout_kept = q.payout_kept ∙ p.payout_kept;
  user_kept = q.user_kept ∙ p.user_kept;
  key_kept = q.key_kept ∙ p.key_kept;
  limit_kept = q.limit_kept ∙ p.limit_kept;
}

-- How a row may have changed: the intent to pay stays, the counters grow, the status follows the
-- state machine, and a final row is never written again.
pub record Progress (t t' : Transfer) : Type 0 where
  pub intent : SameIntent t t'
  pub open intent use *
  pub attempts_grow : t.attempt_count ≤ t'.attempt_count
  pub version_grows : t.version ≤ t'.version
  pub path : t.status ⟶* t'.status
  pub final_kept : is_final t.status ≡ true → t' ≡ t

pub Progress-refl : (t : Transfer) → Progress t t
Progress-refl t = record {
  intent = ground arith;
  attempts_grow = omega arith;
  version_grows = omega arith;
  path = here;
  final_kept = λ _. refl;
}

pub Progress-trans : {t u v : Transfer} → Progress t u → Progress u v → Progress t v
Progress-trans {t} {u} {v} p q = record {
  intent = SameIntent-trans p.intent q.intent;
  attempts_grow = omega arith;
  version_grows = omega arith;
  path = ⟶*-trans p.path q.path;
  final_kept = λ h. q.final_kept (rw (p.final_kept h) h) ∙ p.final_kept h;
}

not_final : (s u : TransferStatus) → can_transition s u ≡ true → is_final s ≢ true
unfolding can_transition
not_final s u e f = ground arith

-- One transition of the state machine.
module _ (t t' : Transfer) (intent : SameIntent t t')
    (attempts : t.attempt_count ≤ t'.attempt_count) (version : t'.version ≡ t.version + 1) where
  transition-Progress : can_transition t.status t'.status ≡ true → Progress t t'
  transition-Progress allowed = record {
    intent = intent;
    attempts_grow = attempts;
    version_grows = omega arith;
    path = next allowed here;
    final_kept = λ h. absurd (not_final t.status t'.status allowed h);
  }

module _ (env : Env) (t : Transfer) where
  pub as_claimed-Progress : is_processable t.status ≡ true → Progress t (as_claimed env t)
  unfolding can_transition
  as_claimed-Progress can =
      transition-Progress t (as_claimed env t) (ground arith) (omega arith) refl (ground arith)

  module _ (claimed : t.status ≡ TransferStatus.processing) where
    pub as_completed-Progress :
        (reference : Option Text) → Progress t (as_completed env t reference)
    unfolding can_transition
    as_completed-Progress reference =
        transition-Progress t (as_completed env t reference) (ground arith) (omega arith) refl
          (ground arith)

    pub as_failed-Progress : (code reason : Option Text) → Progress t (as_failed env t code reason)
    unfolding can_transition
    as_failed-Progress code reason =
        transition-Progress t (as_failed env t code reason) (ground arith) (omega arith) refl
          (ground arith)

    as_retrying-Progress : (code reason : Option Text) → Progress t (as_retrying env t code reason)
    unfolding can_transition
    as_retrying-Progress code reason =
        transition-Progress t (as_retrying env t code reason) (ground arith) (omega arith) refl
          (ground arith)

    as_failed_or_retrying-Progress :
        (code reason : Option Text) → Progress t (as_failed_or_retrying env t code reason)
    as_failed_or_retrying-Progress code reason =
        elim (Bool-cases (leb t.max_attempts t.attempt_count)) [
          | inl spent ↦ rw spent (as_failed-Progress _ _)
          | inr left ↦ rw left (as_retrying-Progress code reason)
        ]

    settled-Progress : (o : TransferOutcome) → Progress t (settled env t o)
    settled-Progress (succeeded reference) = as_completed-Progress reference
    settled-Progress (temporary code message) = as_failed_or_retrying-Progress code (some message)
    settled-Progress (permanent code message) = as_failed-Progress _ _

    pub attempted-Progress :
        (provider : TransferRequest → TransferOutcome) (id : ℕ) (destination : Option Text)
        → Progress t (attempted env provider id t destination)
    attempted-Progress provider id none = as_failed-Progress _ _
    attempted-Progress provider id (some destination) = settled-Progress _

    pub resolved-Progress : (answer : LookupOutcome) → Progress t (resolved env t answer)
    resolved-Progress (found LookupStatus.success reference) = as_completed-Progress _
    resolved-Progress (found LookupStatus.failed reference) = as_failed-Progress _ _
    resolved-Progress (found LookupStatus.other_status reference) =
        as_failed_or_retrying-Progress (some (text "RECONCILED_UNKNOWN"))
          (some (text "Provider returned unknown status during reconciliation"))
    resolved-Progress unreachable = Progress-refl t
