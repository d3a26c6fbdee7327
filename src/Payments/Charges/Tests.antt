-- ===== src/Payments/Charges/Tests.antt =====
-- Deliveries of charges on a small database, at which the theorems apply.
use tasker_api.Prelude.{pos, leb_ℤ, ◌+ℤ◌, ◌≡◌, ◌≢◌, refl, true, false, none, some, [], ◌∷◌, ℕ}
use tasker_api.Models.{text, User, Task, PaymentStatus, PayoutStatus, PayoutQueue}
use tasker_api.Models.{is_blank, is_space}
use tasker_api.Table.{get, find?}
use tasker_api.Db.{Db, empty_db}
use tasker_api.Db.Exec.{ok}
use tasker_api.Transfers.{for_payout}
use tasker_api.Payments.{total_debt, receive_payment}
use tasker_api.Payments.Payout.{
  payout_gross, payout_offset, payout_remaining, payout_jobs, payout_transfers, initiated,
}
use tasker_api.Payments.Compare.{same_text, same_text_refl}
use tasker_api.Payments.Tests.{test_env, finished, paid, owed}
use tasker_api.Payments.Charges.{Charge, ChargeKind, of_payout_task, handle_charge_success}
use tasker_api.Payments.Charges.Locks.{OnlyLocks}
use tasker_api.Payments.Charges.Repeats.{is_refused, charge_twice}
use tasker_api.Payments.Charges.Settling.{task_payment_pays_provider}
use tasker_api.Payments.Settlements.{initialize_debt_settlement}
use tasker_api.Payments.Settlements.Books.{settlement_books, settle_response}

abbrev payment : Charge
payment = record {
  reference = text "ref_1";
  amount = pos 6000;
  user_id = some 8;
  task_id = some 6;
  kind = ChargeKind.task_payment;
  provider_id = none;
}

abbrev settlement : Charge
settlement = record {
  reference = text "ref_2";
  amount = pos 500;
  user_id = none;
  task_id = none;
  kind = ChargeKind.debt_settlement;
  provider_id = some 7;
}

abbrev requested : Task
requested = record finished { payment_status = some PaymentStatus.payment_requested }

abbrev pending_payout : PayoutQueue
pending_payout = record paid { status = PayoutStatus.pending }

-- The task of the charge waits for its customer, and its provider owes a fee.
abbrev db_waiting : Db
db_waiting = record empty_db {
  tasks = (6, requested) ∷ [];
  payouts = (5, pending_payout) ∷ [];
  debts = owed (pos 2000) ∷ [];
}

task_waits : get 6 db_waiting.tasks ≡ some requested
unfolding get
task_waits = refl

payout_first : find? (of_payout_task 6) db_waiting.payouts ≡ some (5, pending_payout)
unfolding find?
payout_first = refl

payout_waits : get 5 db_waiting.payouts ≡ some pending_payout
unfolding get
payout_waits = refl

payment_fits : is_refused test_env same_text payment db_waiting ≡ false
unfolding get is_blank is_space
payment_fits = refl

settlement_fits : is_refused test_env same_text settlement db_waiting ≡ false
unfolding is_blank is_space
settlement_fits = refl

no_transfer_yet : find? (for_payout 5) db_waiting.transfers ≡ none
unfolding find?
no_transfer_yet = refl

abbrev underpayment : Charge
underpayment = record payment { amount = pos 5999 }

underpayment_refused : is_refused test_env same_text underpayment db_waiting ≡ true
unfolding get is_blank is_space
underpayment_refused = refl

abbrev once : Db
once = (handle_charge_success test_env same_text payment db_waiting).1

charge_twice_example : OnlyLocks once (handle_charge_success test_env same_text payment once).1
charge_twice_example = charge_twice test_env test_env same_text same_text_refl payment db_waiting

abbrev provider : User
provider = record { email = text "tunde@example.com"; region_id = none }

abbrev db_owing : Db
db_owing = record db_waiting { users = (7, provider) ∷ [] }

owing_there : get 7 db_owing.users ≡ some provider
unfolding get
owing_there = refl

-- A part of the debt has been kept back of a payout in between.
abbrev owing_later : Db
owing_later = record db_owing { debts = owed (pos 800) ∷ [] }

owing_fits : is_refused test_env same_text settlement owing_later ≡ false
unfolding is_blank is_space
owing_fits = refl

settlement_books_example :
    let (r, db') = handle_charge_success test_env same_text settlement owing_later in
    (initialize_debt_settlement receive_payment 7 (some (pos 500)) db_owing
      ≡ (ok (settle_response receive_payment 7 (some (pos 500)) provider db_owing), db_owing))
    × (r ≡ ok tt)
    × (total_debt 7 db'.debts +ℤ pos 500 ≡ total_debt 7 owing_later.debts)
    × (leb_ℤ (pos 0) (total_debt 7 db'.debts) ≡ true)
    × ((other : ℕ) → other ≢ 7 → total_debt other db'.debts ≡ total_debt other owing_later.debts)
unfolding total_debt ◌+ℤ◌
settlement_books_example =
    settlement_books receive_payment 7 (some (pos 500)) provider db_owing test_env same_text
      settlement owing_later owing_there refl refl refl refl refl refl owing_fits

task_payment_pays_provider_example :
    let (r, db') = handle_charge_success test_env same_text payment db_waiting in
    let rest = payout_remaining 6 7 pending_payout db_waiting in
    let back = payout_offset 6 7 pending_payout db_waiting in
    let all = payout_gross 6 pending_payout db_waiting in
    (r ≡ ok tt)
    × (rest +ℤ back ≡ all)
    × (total_debt 7 db'.debts +ℤ back ≡ total_debt 7 db_waiting.debts)
    × (db'.jobs ≡ payout_jobs test_env rest db_waiting.jobs)
    × (db'.transfers ≡ payout_transfers test_env 5 6 7 rest db_waiting.transfers)
    × (get 5 db'.payouts ≡ some (initiated all (record pending_payout { lock_version = 2 })))
task_payment_pays_provider_example =
    task_payment_pays_provider test_env same_text payment 6 7 5 requested pending_payout db_waiting
      refl refl task_waits refl refl payment_fits payout_first payout_waits refl refl
      no_transfer_yet
