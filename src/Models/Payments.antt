-- ===== src/Models/Payments.antt =====
-- app/core/models/payments.py and app/core/models/transactions.py. An amount is in kobo.
use tasker_api.Prelude.{ℕ, ℤ, Option}
use tasker_api.Models.Pieces.{Text}

-- `DebtReason`
pub data DebtReason : Type 0 where
  cash_task_commission debt_payment payout_offset waiver adjustment : DebtReason

-- `ProviderDebt`, a row of an append-only ledger: positive for a debt, negative for a payment.
pub record ProviderDebt : Type 0 where
  pub provider_id : ℕ
  pub task_id : Option ℕ
  pub amount : ℤ
  pub reason : DebtReason

-- `PayoutStatus`
pub data PayoutStatus : Type 0 where
  pending customer_paid transfer_initiated completed cancelled failed : PayoutStatus

-- `PayoutQueue`, without its description and its JSON metadata.
pub record PayoutQueue : Type 0 where
  pub provider_id : Option ℕ
  pub customer_id : Option ℕ
  pub task_id : Option ℕ
  pub payout_amount : ℤ
  pub customer_payment_amount : ℤ
  pub status : PayoutStatus
  pub payment_url : Option Text
  pub url_generated_at : Option ℕ
  pub reference : Option Text
  pub lock_version : ℕ

-- `TransactionType`
pub data TransactionType : Type 0 where
  task_payment provider_payout cash_commission_debt : TransactionType
  debt_settlement refund dispute_settlement : TransactionType

-- `TransactionStatus`
pub data TransactionStatus : Type 0 where
  pending success failed : TransactionStatus

-- `Transaction`, without its JSON metadata.
pub record Transaction : Type 0 where
  pub amount : ℤ
  pub transaction_type : TransactionType
  pub status : TransactionStatus
  pub user_id : Option ℕ
  pub task_id : Option ℕ
  pub reference : Option Text
