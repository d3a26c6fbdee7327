-- ===== src/Db.antt =====
-- The state that the services share: the tables of the database, and what was handed to the
-- outside (notifications, Celery jobs, calls of the payment provider), in order.
pub mod Exec
use tasker_api.Prelude.{ℕ, ℤ, Bool, Option, String, List, [], ◌∷◌, ◌++◌}
use tasker_api.Models.{
  Text, Transfer, TransferAttempt, ProviderDebt, PayoutQueue, Transaction, Task,
  TaskPriceAdjustment, TaskAssignment, TaskEventHistory, DispatchSession, TaskDispatchAttempt, User,
  PaymentMode, ProviderProfile, UserStats, PaymentAccount, Service, ServiceCategory, PricingRule,
  CredibilityLedgerEntry,
}
use tasker_api.Table.{Table}

-- What `NotificationService.notify` is given; its type is SYSTEM_ALERT, or the type that its payload
-- names, and none expires.
pub record Notification : Type 0 where
  pub recepients : List ℕ
  pub title : Text
  pub body : Text
  pub channels : List String
  pub payload : List (String × Text)

-- The arguments of `execute_batch_ping`; the durations are in seconds.
pub record BatchPing : Type 0 where
  pub session_id : ℕ
  pub task_id : ℕ
  pub candidate_ids : List ℕ
  pub batch_index : ℕ
  pub is_last_batch : Bool
  pub seq_start : ℕ
  pub ping_duration : ℕ
  pub countdown : ℕ

-- A Celery task that was enqueued by `delay` or `apply_async`.
pub data Job : Type 0 where
  process_transfer_task : ℕ → Job
  retry_transfer_task : ℕ → ℕ → Job
  execute_matching_engine : ℕ → Job
  sync_user_credibility_score : ℕ → Job
  process_auto_retry : ℕ → Job
  complete_task_assignment : ℕ → ℕ → PaymentMode → Job
  process_task_payment_job : ℕ → ℕ → PaymentMode → Job
  sync_provider_metrics : ℕ → Job
  sync_service_metrics : ℕ → ℕ → Job
  execute_batch_ping : BatchPing → Job
  check_session_exhaustion : ℕ → ℕ → ℕ → Job

-- The arguments of `PaymentGateway.transfer`.
pub record TransferRequest : Type 0 where
  pub amount : ℤ
  pub currency : Text
  pub destination : Text
  pub idempotency_key : Text
  pub reference : Text
  pub user_id : Option ℕ
  pub task_id : Option ℕ
  pub payout_id : Option ℕ

pub record Db : Type 0 where
  pub transfers : Table Transfer
  pub payouts : Table PayoutQueue
  pub tasks : Table Task
  pub users : Table User
  pub accounts : Table PaymentAccount
  pub profiles : Table ProviderProfile
  pub stats : Table UserStats
  pub services : Table Service
  pub categories : Table ServiceCategory
  pub pricing_rules : Table PricingRule
  pub sessions : Table DispatchSession
  pub attempts : Table TaskDispatchAttempt
  pub assignments : Table TaskAssignment
  pub adjustments : Table TaskPriceAdjustment
  pub debts : List ProviderDebt
  pub transactions : List Transaction
  pub transfer_attempts : List TransferAttempt
  pub history : List TaskEventHistory
  pub ledger : List CredibilityLedgerEntry
  pub notifications : List Notification
  pub jobs : List Job
  pub transfer_calls : List TransferRequest

-- What a call takes from outside: the clock, random numbers and new ids. `uniform b` is
-- `random.uniform(0, b)`, `fresh i` the i-th uuid4 of the call and `pin i` its i-th random 4-digit PIN.
pub record Env : Type 0 where
  pub now : ℕ
  pub uniform : ℕ → ℕ
  pub fresh : ℕ → ℕ
  pub pin : ℕ → String

abbrev pub empty_db : Db
empty_db = record {
  transfers = [];
  payouts = [];
  tasks = [];
  users = [];
  accounts = [];
  profiles = [];
  stats = [];
  services = [];
  categories = [];
  pricing_rules = [];
  sessions = [];
  attempts = [];
  assignments = [];
  adjustments = [];
  debts = [];
  transactions = [];
  transfer_attempts = [];
  history = [];
  ledger = [];
  notifications = [];
  jobs = [];
  transfer_calls = [];
}

-- Rows of the append-only tables and of the outboxes go to the end.
module _ {ℓ} {A : Type ℓ} where
  abbrev pub append : List A → A → List A
  append xs x = xs ++ x ∷ []
