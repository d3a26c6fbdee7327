-- ===== src/Models/Tasks.antt =====
-- app/core/models/tasks.py: the task and what belongs to it.
use tasker_api.Prelude.{ℕ, ℤ, Option, String, List}
use tasker_api.Models.Pieces.{Text}

-- `TaskStatus`; `opened` is OPEN, whose name is a reserved word.
pub data TaskStatus : Type 0 where
  draft under_review opened searching assigned in_progress completed cancelled no_match : TaskStatus

-- `TaskDispatchStatus`
pub data TaskDispatchStatus : Type 0 where
  ready dispatching retry_scheduled matched auto_exhausted cancelled : TaskDispatchStatus

-- `PaymentMode`
pub data PaymentMode : Type 0 where
  cash online : PaymentMode

-- `PaymentStatus`
pub data PaymentStatus : Type 0 where
  pending payment_requested customer_paid transfer_initiated paid cash_paid failed : PaymentStatus

-- `CancelledBy`
pub data CancelledBy : Type 0 where
  platform customer : CancelledBy

-- `Task`, with the columns that the modelled services read or write.
pub record Task : Type 0 where
  pub customer_id : Option ℕ
  pub service_id : Option ℕ
  pub category_id : Option ℕ
  pub title : Text
  pub description : Text
  pub customer_total_price : Option ℤ
  pub platform_fee : Option ℤ
  pub provider_payout : Option ℤ
  pub assigned_provider_id : Option ℕ
  pub status : TaskStatus
  pub dispatch_status : Option TaskDispatchStatus
  pub next_dispatch_at : Option ℕ
  pub dispatch_claimed_at : Option ℕ
  pub auto_dispatch_count : Option ℕ
  pub manual_dispatch_count : Option ℕ
  pub dispatch_started_at : Option ℕ
  pub scheduled_start_at : Option ℕ
  pub cancellation_reason : Option Text
  pub cancelled_by : Option CancelledBy
  pub payment_mode : Option PaymentMode
  pub payment_status : Option PaymentStatus
  pub payment_url : Option Text
  pub expires_at : Option ℕ
  pub start_pin : Option String
  pub completion_pin : Option String
  pub updated_at : ℕ

-- `PriceAdjustmentStatus`
pub data PriceAdjustmentStatus : Type 0 where
  pending approved rejected : PriceAdjustmentStatus

-- `TaskPriceAdjustment`
pub record TaskPriceAdjustment : Type 0 where
  pub task_id : ℕ
  pub description : Option Text
  pub amount : Option ℤ
  pub requested_by : Option ℕ
  pub status : Option PriceAdjustmentStatus

-- `TaskAssignmentStatus`
pub data TaskAssignmentStatus : Type 0 where
  assigned in_progress completed cancelled : TaskAssignmentStatus

-- `TaskAssignment`
pub record TaskAssignment : Type 0 where
  pub task_id : ℕ
  pub provider_id : ℕ
  pub assigned_at : ℕ
  pub started_at : Option ℕ
  pub completed_at : Option ℕ
  pub identity_pin : Option String
  pub cancellation_pin : Option String
  pub status : TaskAssignmentStatus
  pub updated_at : ℕ

-- `TaskEventHistory`; `payload` is its column `data`.
pub record TaskEventHistory : Type 0 where
  pub task_id : ℕ
  pub event : String
  pub reason : Option Text
  pub payload : List (String × Text)

-- The values of the enumeration, which event payloads hold.
abbrev pub task_status_value : TaskStatus → String
task_status_value TaskStatus.draft = "DRAFT"
task_status_value TaskStatus.under_review = "UNDER_REVIEW"
task_status_value TaskStatus.opened = "OPEN"
task_status_value TaskStatus.searching = "SEARCHING"
task_status_value TaskStatus.assigned = "ASSIGNED"
task_status_value TaskStatus.in_progress = "IN_PROGRESS"
task_status_value TaskStatus.completed = "COMPLETED"
task_status_value TaskStatus.cancelled = "CANCELLED"
task_status_value TaskStatus.no_match = "NO_MATCH"

abbrev pub cancelled_by_value : CancelledBy → String
cancelled_by_value CancelledBy.platform = "PLATFORM"
cancelled_by_value CancelledBy.customer = "CUSTOMER"
