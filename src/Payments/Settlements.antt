-- ===== src/Payments/Settlements.antt =====
-- The debts, payouts and checkouts that users ask for: the other operations of
-- app/features/payments/payment_service.py.
pub mod Books
use tasker_api.Prelude.{
  ℕ, ◌+◌, ℤ, pos, ◌+ℤ◌, ltb_ℤ, leb_ℤ, max_ℤ, Bool, true, false, ◌&&◌, not, Option, none, some,
  String, List, [], ◌∷◌, ◌==◌, is_id, get_or, if◌then◌else◌,
}
use tasker_api.Models.{Text, lit, naira, text, ProviderDebt, PayoutStatus, PayoutQueue, Task}
use tasker_api.Table.{Table, get, put, update, count_where, sum_where}
use tasker_api.Db.{Db, Env}
use tasker_api.Db.Exec.{
  Error, http, ok, err, Exec, pure, raise, gets, or_raise, ◌>>=◌, ◌>>◌, modify, raise_if,
}
use tasker_api.Payments.{ChargeRequest, Checkout, total_debt, add_payout}

-- `enqueue_payout`, without its JSON data and description.
unfoldable pub enqueue_payout : Env → ℕ → ℤ → Option ℕ → Option ℕ → ℤ → Exec (ℕ × PayoutQueue)
enqueue_payout env provider_id payout_amount customer_id task_id customer_payment_amount = do
  raise_if (leb_ℤ payout_amount (pos 0))
      (http 400 (text "Payout amount must be greater than zero."))
  let new_payout : PayoutQueue = record {
    provider_id = some provider_id;
    customer_id = customer_id;
    task_id = task_id;
    payout_amount = payout_amount;
    customer_payment_amount = customer_payment_amount;
    status = PayoutStatus.pending;
    payment_url = none;
    url_generated_at = none;
    reference = none;
    lock_version = 1;
  }
  add_payout (env.fresh 0) new_payout
  pure (env.fresh 0, new_payout)

-- `ProviderDebtSummaryResponse`
pub record ProviderDebtSummaryResponse : Type 0 where
  pub total_debt_owed : ℤ
  pub pending_debts_count : ℕ

abbrev pub count_debts : ℕ → List ProviderDebt → ℕ
count_debts provider_id [] = 0
count_debts provider_id (d ∷ debts) =
    (if d.provider_id == provider_id then 1 else 0) + count_debts provider_id debts

-- `get_provider_debt_summary`; `round(..., 2)` keeps a sum of whole kobo.
unfoldable pub get_provider_debt_summary : ℕ → Db → ProviderDebtSummaryResponse
get_provider_debt_summary provider_id db = record {
  total_debt_owed = max_ℤ (pos 0) (total_debt provider_id db.debts);
  pending_debts_count = count_debts provider_id db.debts;
}

-- `SettleDebtResponse`
pub record SettleDebtResponse : Type 0 where
  pub payment_url : Option Text
  pub reference : Option Text
  pub total_debt_owed : ℤ
  pub amount_to_pay : ℤ

-- The amount of a settlement: the whole debt, or a part that was asked for.
abbrev pub settlement_amount : ℤ → Option ℤ → Exec ℤ
settlement_amount total_owed none = pure total_owed
settlement_amount total_owed (some amount) = do
  raise_if (leb_ℤ amount (pos 0)) (http 400 (text "Settlement amount must be greater than zero."))
  raise_if (ltb_ℤ total_owed amount) (
      http 400 (
        lit "Settlement amount ("
        ∷ naira amount
        ∷ lit ") cannot exceed total debt owed ("
        ∷ naira total_owed
        ∷ lit ")."
        ∷ []))
  pure amount

-- `initialize_debt_settlement`
unfoldable pub initialize_debt_settlement :
    (ChargeRequest → Checkout) → ℕ → Option ℤ → Exec SettleDebtResponse
unfolding get_provider_debt_summary
initialize_debt_settlement gateway provider_id request_amount = do
  summary ← gets (get_provider_debt_summary provider_id)
  let total_owed = summary.total_debt_owed
  raise_if (leb_ℤ total_owed (pos 0))
      (http 400 (text "You have no outstanding commission debts to pay."))
  amount_to_pay ← settlement_amount total_owed request_amount
  provider ←
      or_raise (← gets (λ db. get provider_id db.users))
        (http 404 (text "Provider user account not found."))
  let checkout =
      gateway
        (record { email = provider.email; amount = amount_to_pay; user_id = some provider_id })
  pure (record {
    payment_url = checkout.checkout_url;
    reference = checkout.reference;
    total_debt_owed = total_owed;
    amount_to_pay = amount_to_pay;
  })

abbrev payout_not_found : Error
payout_not_found = http 404 (text "Payout queue item not found.")

-- `get_provider_payout`
unfoldable pub get_provider_payout : ℕ → ℕ → Exec PayoutQueue
get_provider_payout payout_id provider_id = do
  payout ← or_raise (← gets (λ db. get payout_id db.payouts)) payout_not_found
  raise_if (not (is_id payout.provider_id provider_id)) payout_not_found
  pure payout

-- `CustomerPayoutStatsResponse`
pub record CustomerPayoutStatsResponse : Type 0 where
  pub total_payouts : ℕ
  pub total_pending : ℕ
  pub total_amount_pending : ℤ
  pub total_completed : ℕ
  pub total_amount_completed : ℤ

abbrev is_pending_payout : PayoutStatus → Bool
is_pending_payout PayoutStatus.pending = true
is_pending_payout _ = false

abbrev is_completed_payout : PayoutStatus → Bool
is_completed_payout PayoutStatus.completed = true
is_completed_payout PayoutStatus.customer_paid = true
is_completed_payout _ = false

abbrev of_customer : ℕ → (PayoutStatus → Bool) → ℕ → PayoutQueue → Bool
of_customer customer_id fits _ p = is_id p.customer_id customer_id && fits p.status

-- `get_customer_payout_stats`; the groups by status are added up at once.
unfoldable pub get_customer_payout_stats : ℕ → Db → CustomerPayoutStatsResponse
get_customer_payout_stats customer_id db = record {
  total_payouts = count_where (of_customer customer_id (λ _. true)) db.payouts;
  total_pending = count_where (of_customer customer_id is_pending_payout) db.payouts;
  total_amount_pending =
      sum_where (of_customer customer_id is_pending_payout) (λ p. p.customer_payment_amount)
        db.payouts;
  total_completed = count_where (of_customer customer_id is_completed_payout) db.payouts;
  total_amount_completed =
      sum_where (of_customer customer_id is_completed_payout) (λ p. p.customer_payment_amount)
        db.payouts;
}

abbrev task_of : Option ℕ → Db → Option Task
task_of none db = none
task_of (some id) db = get id db.tasks

abbrev price_to_pay : Task → Option ℤ
price_to_pay t = elim t.customer_total_price [
  | none ↦ none
  | some price ↦ if ltb_ℤ (pos 0) price then some price else none
]

abbrev payout_status_value : PayoutStatus → String
payout_status_value PayoutStatus.pending = "PENDING"
payout_status_value PayoutStatus.customer_paid = "CUSTOMER_PAID"
payout_status_value PayoutStatus.transfer_initiated = "TRANSFER_INITIATED"
payout_status_value PayoutStatus.completed = "COMPLETED"
payout_status_value PayoutStatus.cancelled = "CANCELLED"
payout_status_value PayoutStatus.failed = "FAILED"

-- `reinitiate_payout`
unfoldable pub reinitiate_payout :
    Env → (ChargeRequest → Checkout) → ℕ → ℕ → Exec (Option PayoutQueue)
reinitiate_payout env gateway payout_id customer_id = do
  payout ← or_raise (← gets (λ db. get payout_id db.payouts)) payout_not_found
  raise_if (not (is_id payout.customer_id customer_id)) payout_not_found
  raise_if (not (is_pending_payout payout.status)) (
      http 400 (
        lit "Payout is currently "
        ∷ lit (payout_status_value payout.status)
        ∷ lit ", cannot reinitiate."
        ∷ []))
  task ← or_raise (← gets (task_of payout.task_id)) (http 404 (text "Associated task not found."))
  customer ←
      or_raise (← gets (λ db. get customer_id db.users)) (http 404 (text "Customer not found."))
  amount_to_pay ← or_raise (price_to_pay task) (http 400 (text "Task total price is invalid."))
  let checkout =
      gateway
        (record { email = customer.email; amount = amount_to_pay; user_id = some customer_id })
  modify (λ db. record db {
    payouts =
        update payout_id
          (λ p. record p {
            payment_url = checkout.checkout_url;
            reference = checkout.reference;
            url_generated_at = some env.now;
          })
          db.payouts;
  })
  gets (λ db. get payout_id db.payouts)
