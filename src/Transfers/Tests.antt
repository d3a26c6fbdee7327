-- ===== src/Transfers/Tests.antt =====
-- Runs of the transfers on a small database, at which the theorems apply.
use mathlib.Core.Option
use tasker_api.Prelude.{ℕ, ◌≤◌, ◌≡◌, ◌≢◌, refl, true, Option, none, some, [], ◌∷◌, arith, pos}
use tasker_api.Models.{
  Text, lit, shown, text, TransferStatus, Transfer, PaymentAccount, PayoutStatus, PayoutQueue,
}
use tasker_api.Table.{get, put, find?, update, count_where}
use tasker_api.Table.Rows.{AllRows}
use tasker_api.Db.{Db, Env, TransferRequest, empty_db}
use tasker_api.Db.Exec.{ok}
use tasker_api.Transfers.{
  process_transfer, reconcile_transfer, create_transfer, settle, resolve_destination, for_payout,
  is_processable,
}
use tasker_api.Transfers.Gateway.{
  TransferOutcome, succeeded, temporary, LookupOutcome, LookupStatus, found,
}
use tasker_api.Transfers.Outcome.{as_claimed, attempted, resolved}
use tasker_api.Transfers.Process.{
  processed as processed_row, process_transfer_lem, reconcile_transfer_ends,
}
use tasker_api.Transfers.Effects.{
  recipient, InStep, calls_after, process_transfer-InStep, process_transfer-calls,
}
use tasker_api.Transfers.Create.{create_transfer_twice, create_transfer_unique}
use tasker_api.Transfers.Rows.{IsSound}
use tasker_api.Transfers.History.{
  Reach, here, next, processed, Later, Reach-IsSound, Reach-Progress,
}
use tasker_api.Transfers.Liveness.{process_all, EndsFinal, process_all_final}
use tasker_api.Transfers.Stale.{settle-reopens}
use tasker_api.Transfers.Celery.{reconcile_processing_transfers}
use tasker_api.Transfers.Celery.Workers.{reconcile_processing_transfers_returns}

abbrev test_env : Env
test_env = record { now = 1000; uniform = λ b. b; fresh = λ i. 90; pin = λ i. "0000" }

-- A transfer of 5000 kobo for payout 5 to user 7, in a status and after some attempts.
abbrev test_transfer : TransferStatus → ℕ → Option ℕ → Transfer
test_transfer status attempts next_retry_at = record {
  task_id = some 6;
  payout_id = some 5;
  user_id = some 7;
  amount = pos 5000;
  currency = text "NGN";
  status = status;
  attempt_count = attempts;
  max_attempts = 2;
  provider_transfer_id = none;
  idempotency_key = lit "transfer:" ∷ shown 3 ∷ [];
  next_retry_at = next_retry_at;
  last_attempt_at = none;
  completed_at = none;
  failed_at = none;
  failure_code = none;
  failure_reason = none;
  version = 0;
  updated_at = 0;
}

abbrev waiting : Transfer
waiting = test_transfer TransferStatus.pending 0 none

abbrev busy : Transfer
busy = test_transfer TransferStatus.processing 1 none

abbrev finished : Transfer
finished = record busy { status = TransferStatus.completed; completed_at = some 900 }

abbrev test_account : PaymentAccount
test_account = record { user_id = 7; external_account_id = some (text "RCP_1"); is_active = true }

abbrev test_payout : PayoutQueue
test_payout = record {
  provider_id = some 7;
  customer_id = some 8;
  task_id = some 6;
  payout_amount = pos 5000;
  customer_payment_amount = pos 6000;
  status = PayoutStatus.pending;
  payment_url = none;
  url_generated_at = none;
  reference = none;
  lock_version = 1;
}

abbrev db_with : Transfer → Db
db_with t = record empty_db {
  transfers = (3, t) ∷ [];
  payouts = (5, test_payout) ∷ [];
  accounts = (1, test_account) ∷ [];
}

abbrev accepts : TransferRequest → TransferOutcome
accepts request = succeeded (some (text "TRF_1"))

abbrev down : TransferRequest → TransferOutcome
down request = temporary (some (text "TIMEOUT")) (text "no answer")

abbrev gone_through : Text → LookupOutcome
gone_through key = found LookupStatus.success (some key)

there : (t : Transfer) → get 3 (db_with t).transfers ≡ some t
unfolding get
there t = refl

-- The provider accepts: the transfer and its payout end COMPLETED.
completes :
    let db' = (process_transfer test_env accepts 3 (db_with waiting)).1 in
    (Option.map (λ (t : Transfer). t.status) (get 3 db'.transfers) ≡ some TransferStatus.completed)
    × (Option.map (λ (p : PayoutQueue). p.status) (get 5 db'.payouts) ≡ some PayoutStatus.completed)
unfolding process_transfer resolve_destination get put update find?
completes = (refl, refl)

process_transfer_lem_example :
    let t' =
      processed_row test_env accepts 3 waiting (resolve_destination (some 7) (db_with waiting)) in
    let (r, db') = process_transfer test_env accepts 3 (db_with waiting) in
    (r ≡ ok t') × (get 3 db'.transfers ≡ some t')
process_transfer_lem_example =
    process_transfer_lem test_env accepts 3 waiting (db_with waiting) (there waiting)

process_transfer-InStep_example :
    InStep
      (attempted test_env accepts 3
        (as_claimed test_env waiting)
        (resolve_destination (some 7) (db_with waiting)))
      (db_with waiting)
      (process_transfer test_env accepts 3 (db_with waiting)).1
process_transfer-InStep_example =
    process_transfer-InStep test_env accepts 3 waiting (db_with waiting) (there waiting) refl

process_transfer-calls_example :
    (process_transfer test_env accepts 3 (db_with waiting)).1.transfer_calls
    ≡ calls_after 3
        (as_claimed test_env waiting)
        (recipient (some 7) (db_with waiting))
        (db_with waiting)
process_transfer-calls_example =
    process_transfer-calls test_env accepts 3 waiting (db_with waiting) (there waiting) refl

reconcile_transfer_ends_example :
    let t' = resolved test_env busy (gone_through busy.idempotency_key) in
    let (r, db') = reconcile_transfer test_env gone_through 3 (db_with busy) in
    (r ≡ ok t') × (get 3 db'.transfers ≡ some t')
reconcile_transfer_ends_example =
    reconcile_transfer_ends test_env 3 busy (db_with busy) (there busy) gone_through

at_most_one : (p : ℕ) → count_where (for_payout p) (db_with waiting).transfers ≤ 1
unfolding count_where
at_most_one p = ground arith

unused_id : get 90 (db_with waiting).transfers ≡ none
unfolding get
unused_id = refl

create_transfer_twice_example :
    let (r, db') = create_transfer test_env 15 6 7 (pos 100) (text "NGN") (db_with waiting) in
    create_transfer test_env 15 9 9 (pos 200) (text "USD") db' ≡ (r, db')
create_transfer_twice_example =
    create_transfer_twice test_env 15 6 7 (pos 100) (text "NGN") (db_with waiting) test_env 9 9
      (pos 200) (text "USD") unused_id

create_transfer_unique_example :
    count_where
      (for_payout 15)
      (create_transfer test_env 15 6 7 (pos 100) (text "NGN") (db_with waiting)).1.transfers
    ≤ 1
create_transfer_unique_example =
    create_transfer_unique test_env 15 6 7 (pos 100) (text "NGN") (db_with waiting) unused_id
      at_most_one 15

waiting-IsSound : IsSound 3 waiting
waiting-IsSound = ground arith

all-IsSound : AllRows IsSound (db_with waiting).transfers
all-IsSound = (waiting-IsSound, tt)

-- A worker attempts the transfer while the provider is down.
one_attempt : Reach (db_with waiting) (process_transfer test_env down 3 (db_with waiting)).1
one_attempt = next here (processed test_env down 3 waiting (there waiting))

Reach-IsSound_example :
    AllRows IsSound (process_transfer test_env down 3 (db_with waiting)).1.transfers
Reach-IsSound_example = Reach-IsSound all-IsSound one_attempt

Reach-Progress_example : Later 3 waiting (process_transfer test_env down 3 (db_with waiting)).1
Reach-Progress_example = Reach-Progress 3 (there waiting) one_attempt

waiting_idle : waiting.status ≢ TransferStatus.processing
waiting_idle = ground arith

process_all_final_example :
    EndsFinal 3 (process_all 3 ((test_env, down) ∷ (test_env, down) ∷ []) (db_with waiting))
process_all_final_example =
    process_all_final 3 ((test_env, down) ∷ (test_env, down) ∷ []) waiting (db_with waiting)
      (there waiting) waiting-IsSound waiting_idle (omega arith)

settle-reopens_example :
    let db' = (settle test_env 3 busy (temporary none (text "timeout")) (db_with finished)).1 in
    (t : Transfer) × (get 3 db'.transfers ≡ some t)
    × (t.status ≡ TransferStatus.retrying)
    × (is_processable t.status ≡ true)
settle-reopens_example =
    settle-reopens test_env 3 busy finished (db_with finished) none (text "timeout") refl
      (omega arith) (there finished) refl

fair : (b : ℕ) → test_env.uniform b ≤ b
fair b = omega arith

reconcile_processing_transfers_returns_example :
    (reconcile_processing_transfers test_env gone_through (db_with busy)).0 ≡ ok tt
reconcile_processing_transfers_returns_example =
    reconcile_processing_transfers_returns test_env gone_through (db_with busy)
