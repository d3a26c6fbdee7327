-- ===== src/Payments/Tests.antt =====
-- Runs of the payments on a small database, at which the theorems apply.
use tasker_api.Prelude.{ℤ, pos, ◌+ℤ◌, ◌-ℤ◌, max_ℤ, ◌≡◌, refl, none, some, [], ◌∷◌, get_or}
use tasker_api.Models.{
  text, TaskStatus, Task, PaymentMode, PaymentStatus, PayoutStatus, PayoutQueue, DebtReason,
  ProviderDebt,
}
use tasker_api.Table.{get, find?}
use tasker_api.Db.{Db, Env, empty_db}
use tasker_api.Db.Exec.{ok}
use tasker_api.Transfers.{for_payout}
use tasker_api.Payments.{
  receive_payment, process_task_payment, process_provider_payout, payout_for, total_debt,
}
use tasker_api.Payments.Payout.{
  payout_gross, payout_offset, payout_remaining, payout_jobs, payout_transfers, initiated,
  provider_payout-conserves, process_provider_payout_twice,
}
use tasker_api.Payments.Settlement.{
  platform_share, cash_share, charge_of, queued, with_payout, cash_payment_books,
  online_payment_requests,
}

abbrev pub test_env : Env
test_env = record { now = 1000; uniform = λ b. b; fresh = λ i. 90; pin = λ i. "0000" }

abbrev pub finished : Task
finished = record {
  customer_id = some 8;
  service_id = none;
  category_id = none;
  title = text "Fix the tap";
  description = [];
  customer_total_price = some (pos 6000);
  platform_fee = some (pos 1000);
  provider_payout = some (pos 5000);
  assigned_provider_id = some 7;
  status = TaskStatus.completed;
  dispatch_status = none;
  next_dispatch_at = none;
  dispatch_claimed_at = none;
  auto_dispatch_count = none;
  manual_dispatch_count = none;
  dispatch_started_at = none;
  scheduled_start_at = none;
  start_pin = some "1111";
  completion_pin = some "2222";
  cancellation_reason = none;
  cancelled_by = none;
  payment_mode = none;
  payment_status = none;
  payment_url = none;
  expires_at = none;
  updated_at = 0;
}

abbrev pub paid : PayoutQueue
paid = record {
  provider_id = some 7;
  customer_id = some 8;
  task_id = some 6;
  payout_amount = pos 5000;
  customer_payment_amount = pos 6000;
  status = PayoutStatus.customer_paid;
  payment_url = none;
  url_generated_at = none;
  reference = none;
  lock_version = 1;
}

-- Provider 7 owes the fee of an earlier cash task.
abbrev pub owed : ℤ → ProviderDebt
owed amount = record {
  provider_id = 7;
  task_id = some 2;
  amount = amount;
  reason = DebtReason.cash_task_commission;
}

abbrev db_owing : ℤ → Db
db_owing amount = record empty_db {
  tasks = (6, finished) ∷ [];
  payouts = (5, paid) ∷ [];
  debts = owed amount ∷ [];
}

task_there : (amount : ℤ) → get 6 (db_owing amount).tasks ≡ some finished
unfolding get
task_there amount = refl

payout_there : (amount : ℤ) → get 5 (db_owing amount).payouts ≡ some paid
unfolding get
payout_there amount = refl

payout_found : (amount : ℤ) → find? (payout_for 6 7) (db_owing amount).payouts ≡ some (5, paid)
unfolding find?
payout_found amount = refl

no_transfer : (amount : ℤ) → find? (for_payout 5) (db_owing amount).transfers ≡ none
unfolding find?
no_transfer amount = refl

-- A debt above the gross amount keeps everything back.
keeps_all_back : payout_remaining 6 7 paid (db_owing (pos 9000)) ≡ pos 0
unfolding total_debt get ◌+ℤ◌ ◌-ℤ◌
keeps_all_back = refl

provider_payout-conserves_example :
    let db = db_owing (pos 2000) in
    let (r, db') = process_provider_payout test_env 6 7 db in
    let rest = payout_remaining 6 7 paid db in
    let back = payout_offset 6 7 paid db in
    let all = payout_gross 6 paid db in
    (r ≡ ok tt)
    × (rest +ℤ back ≡ all)
    × (total_debt 7 db'.debts +ℤ back ≡ total_debt 7 db.debts)
    × (db'.jobs ≡ payout_jobs test_env rest db.jobs)
    × (db'.transfers ≡ payout_transfers test_env 5 6 7 rest db.transfers)
    × (get 5 db'.payouts ≡ some (initiated all paid))
provider_payout-conserves_example =
    provider_payout-conserves test_env 6 7 5 paid (db_owing (pos 2000)) (payout_found (pos 2000))
      refl (payout_there (pos 2000)) (no_transfer (pos 2000))

process_provider_payout_twice_example :
    let db' = (process_provider_payout test_env 6 7 (db_owing (pos 2000))).1 in
    process_provider_payout test_env 6 7 db' ≡ (ok tt, db')
process_provider_payout_twice_example =
    process_provider_payout_twice test_env 6 7 5 paid (db_owing (pos 2000))
      (payout_found (pos 2000)) refl (payout_there (pos 2000)) (no_transfer (pos 2000)) test_env

abbrev nothing_queued : Db
nothing_queued = record (db_owing (pos 2000)) { payouts = [] }

cash_payment_books_example :
    let db = nothing_queued in
    let (r, db') = process_task_payment test_env receive_payment 6 7 PaymentMode.cash db in
    (r ≡ ok tt)
    × (get 6 db'.tasks
        ≡ some (record finished {
          payment_mode = some PaymentMode.cash;
          payment_status = some PaymentStatus.cash_paid;
        }))
    × (total_debt 7 db'.debts ≡ total_debt 7 db.debts +ℤ max_ℤ (pos 0) (platform_share finished))
    × (db'.payouts
        ≡ with_payout test_env
            (queued test_env 6 7 finished (cash_share finished) PayoutStatus.completed none)
            db.payouts)
    × (db'.transfers ≡ db.transfers)
    × (db'.jobs ≡ db.jobs)
unfolding find?
cash_payment_books_example =
    cash_payment_books test_env receive_payment 6 7 finished nothing_queued (task_there (pos 2000))
      refl

online_payment_requests_example :
    let db = nothing_queued in
    let checkout = receive_payment (charge_of finished db) in
    let (r, db') = process_task_payment test_env receive_payment 6 7 PaymentMode.online db in
    (r ≡ ok tt)
    × (get 6 db'.tasks
        ≡ some (record finished {
          payment_mode = some PaymentMode.online;
          payment_url = checkout.checkout_url;
          payment_status = some PaymentStatus.payment_requested;
        }))
    × (db'.payouts
        ≡ with_payout test_env
            (queued test_env 6 7 finished
              (get_or finished.provider_payout (pos 0))
              PayoutStatus.pending
              (some checkout))
            db.payouts)
    × (db'.debts ≡ db.debts)
    × (db'.transfers ≡ db.transfers)
    × (db'.jobs ≡ db.jobs)
unfolding find?
online_payment_requests_example =
    online_payment_requests test_env receive_payment 6 7 finished nothing_queued
      (task_there (pos 2000)) refl
