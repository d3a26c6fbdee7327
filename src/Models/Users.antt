-- ===== src/Models/Users.antt =====
-- app/core/models/users.py and credibility.py, with the columns that the modelled
-- services read or write.
use tasker_api.Prelude.{ℕ, ℤ, pos, negsuc, Bool, Option, String}
use tasker_api.Models.Pieces.{Text}

-- `DutyStatus`
pub data DutyStatus : Type 0 where
  offline online_available on_dispatch on_task : DutyStatus

-- `User`
pub record User : Type 0 where
  pub email : Text
  pub region_id : Option ℕ

-- `ProviderProfile`
pub record ProviderProfile : Type 0 where
  pub user_id : ℕ
  pub first_name : Option String
  pub duty_status : Option DutyStatus

-- `UserStats`, with its count of completed tasks.
pub record UserStats : Type 0 where
  pub user_id : ℕ
  pub total_tasks_completed : ℕ

-- `PaymentAccount`
pub record PaymentAccount : Type 0 where
  pub user_id : ℕ
  pub external_account_id : Option Text
  pub is_active : Bool

-- `CredibilityReason`
pub data CredibilityReason : Type 0 where
  task_completed five_star_review four_star_review account_verified : CredibilityReason
  profile_completed three_star_review two_star_review one_star_review : CredibilityReason
  task_declined task_timeout three_consecutive_declines : CredibilityReason
  task_cancelled_by_provider task_cancelled_by_customer : CredibilityReason

-- `CREDIBILITY_DELTAS`, in tenths of a point.
unfoldable pub credibility_delta : CredibilityReason → ℤ
credibility_delta CredibilityReason.task_completed = pos 30
credibility_delta CredibilityReason.five_star_review = pos 50
credibility_delta CredibilityReason.four_star_review = pos 20
credibility_delta CredibilityReason.three_star_review = pos 0
credibility_delta CredibilityReason.two_star_review = negsuc 19
credibility_delta CredibilityReason.one_star_review = negsuc 49
credibility_delta CredibilityReason.account_verified = pos 50
credibility_delta CredibilityReason.profile_completed = pos 20
credibility_delta CredibilityReason.task_declined = negsuc 9
credibility_delta CredibilityReason.task_timeout = negsuc 14
credibility_delta CredibilityReason.three_consecutive_declines = negsuc 49
credibility_delta CredibilityReason.task_cancelled_by_provider = negsuc 29
credibility_delta CredibilityReason.task_cancelled_by_customer = negsuc 9

-- `CredibilityLedgerEntry`, without its JSON metadata.
pub record CredibilityLedgerEntry : Type 0 where
  pub user_id : ℕ
  pub delta : ℤ
  pub reason : CredibilityReason
  pub task_id : Option ℕ
