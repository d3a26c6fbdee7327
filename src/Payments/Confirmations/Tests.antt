-- ===== src/Payments/Confirmations/Tests.antt =====
-- Confirmations of transfers on a small database, at which the theorems apply.
use tasker_api.Prelude.{pos, ◌≡◌, refl, true, false, none, some, [], ◌∷◌}
use tasker_api.Models.{text, Transfer, TransferStatus, PayoutQueue, PayoutStatus, can_transition}
use tasker_api.Table.{get, put, find?}
use tasker_api.Db.{Db, empty_db}
use tasker_api.Db.Exec.{ok}
use tasker_api.Transfers.Create.{new_transfer}
use tasker_api.Payments.Tests.{test_env, finished, paid}
use tasker_api.Payments.Charges.{lock_payout, acquire_lock}
use tasker_api.Payments.Compare.{same_text}
use tasker_api.Payments.Confirmations.{
  TransferEvent, payout_of_event, transfer_of_event, handle_transfer_success,
}
use tasker_api.Payments.Confirmations.Settled.{Confirmed, handle_transfer_success-Confirmed}

abbrev confirmed : TransferEvent
confirmed = record {
  reference = text "TRF_1";
  amount = pos 3000;
  user_id = some 7;
  task_id = some 6;
  reason = none;
}

abbrev sent : TransferStatus → Transfer
sent status = record (new_transfer test_env 5 6 7 (pos 3000) (text "NGN")) { status = status }

abbrev waiting : PayoutQueue
waiting = record paid { status = PayoutStatus.transfer_initiated }

abbrev db_sent : TransferStatus → Db
db_sent status = record empty_db {
  tasks = (6, finished) ∷ [];
  payouts = (5, waiting) ∷ [];
  transfers = (9, sent status) ∷ [];
}

abbrev db_locked : TransferStatus → Db
db_locked status = record (db_sent status) {
  payouts = (5, record waiting { lock_version = 2 }) ∷ [];
}

locks :
    (status : TransferStatus)
    → lock_payout (payout_of_event same_text confirmed) (db_sent status)
      ≡ (ok true, db_locked status)
unfolding lock_payout find? acquire_lock get put
locks status = refl

found_sent :
    (status : TransferStatus)
    → find? (transfer_of_event same_text confirmed) (db_locked status).transfers
      ≡ some (9, sent status)
unfolding find?
found_sent status = refl

-- A transfer that is being retried refuses its confirmation.
retrying_refuses : can_transition TransferStatus.retrying TransferStatus.completed ≡ false
unfolding can_transition
retrying_refuses = refl

handle_transfer_success-Confirmed_example :
    Confirmed
      (can_transition TransferStatus.processing TransferStatus.completed)
      test_env
      confirmed
      9
      (sent TransferStatus.processing)
      (db_locked TransferStatus.processing)
      (handle_transfer_success test_env same_text confirmed (db_sent TransferStatus.processing))
handle_transfer_success-Confirmed_example =
    handle_transfer_success-Confirmed test_env same_text confirmed 7 9
      (sent TransferStatus.processing) (db_sent TransferStatus.processing)
      (db_locked TransferStatus.processing) refl refl (locks TransferStatus.processing) refl
      (found_sent TransferStatus.processing) refl
