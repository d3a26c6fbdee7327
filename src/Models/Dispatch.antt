-- ===== src/Models/Dispatch.antt =====
-- app/core/models/tasks.py: dispatch sessions and the pings of candidate providers.
use tasker_api.Prelude.{ℕ, ℤ, Option, List}
use tasker_api.Models.Pieces.{Text}

-- `DispatchSessionTrigger`
pub data DispatchSessionTrigger : Type 0 where
  initial auto_retry manual : DispatchSessionTrigger

-- `DispatchSessionStatus`
pub data DispatchSessionStatus : Type 0 where
  running assigned failed expired exhausted cancelled : DispatchSessionStatus

-- `DispatchAttemptStatus`
pub data DispatchAttemptStatus : Type 0 where
  pending accepted declined timeout cancelled : DispatchAttemptStatus

-- `DispatchSession`, without its JSON metadata; the radius is in hundredths of a kilometre.
pub record DispatchSession : Type 0 where
  pub task_id : ℕ
  pub trigger : DispatchSessionTrigger
  pub status : DispatchSessionStatus
  pub sequence : ℕ
  pub started_at : ℕ
  pub completed_at : Option ℕ
  pub reason : Option Text
  pub batch_size : ℕ
  pub lock_version : ℕ
  pub search_radius : Option ℕ
  pub excluded_provider_ids : List ℕ
  pub updated_at : ℕ

-- `TaskDispatchAttempt`; the score is in hundredths.
pub record TaskDispatchAttempt : Type 0 where
  pub dispatch_session_id : Option ℕ
  pub task_id : ℕ
  pub provider_id : ℕ
  pub sequence_order : Option ℕ
  pub match_score : Option ℤ
  pub offered_payout : Option ℤ
  pub pinged_at : Option ℕ
  pub expires_at : Option ℕ
  pub responded_at : Option ℕ
  pub status : Option DispatchAttemptStatus
