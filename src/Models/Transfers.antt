-- ===== src/Models/Transfers.antt =====
-- app/core/models/transfers.py
use tasker_api.Prelude.{ℕ, ℤ, Bool, true, false, Option}
use tasker_api.Models.Pieces.{Text}

-- `TransferStatus`
pub data TransferStatus : Type 0 where
  pending processing retrying completed failed cancelled : TransferStatus

-- `VALID_TRANSFER_TRANSITIONS`, as the test `new_status in allowed`.
unfoldable pub can_transition : TransferStatus → TransferStatus → Bool
can_transition TransferStatus.pending TransferStatus.processing = true
can_transition TransferStatus.pending TransferStatus.cancelled = true
can_transition TransferStatus.processing TransferStatus.completed = true
can_transition TransferStatus.processing TransferStatus.retrying = true
can_transition TransferStatus.processing TransferStatus.failed = true
can_transition TransferStatus.retrying TransferStatus.processing = true
can_transition TransferStatus.retrying TransferStatus.cancelled = true
can_transition _ _ = false

-- `Transfer`, without `created_at`. Times are in microseconds.
pub record Transfer : Type 0 where
  pub task_id : Option ℕ
  pub payout_id : Option ℕ
  pub user_id : Option ℕ
  pub amount : ℤ
  pub currency : Text
  pub status : TransferStatus
  pub attempt_count : ℕ
  pub max_attempts : ℕ
  pub provider_transfer_id : Option Text
  pub idempotency_key : Text
  pub next_retry_at : Option ℕ
  pub last_attempt_at : Option ℕ
  pub completed_at : Option ℕ
  pub failed_at : Option ℕ
  pub failure_code : Option Text
  pub failure_reason : Option Text
  pub version : ℕ
  pub updated_at : ℕ

-- `TransferAttempt`, without `request_id`, which nothing sets.
pub record TransferAttempt : Type 0 where
  pub transfer_id : ℕ
  pub attempt_number : ℕ
  pub status : Text
  pub provider_transfer_id : Option Text
  pub error_code : Option Text
  pub error_message : Option Text
  pub started_at : ℕ
  pub completed_at : Option ℕ
