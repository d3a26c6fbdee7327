-- ===== src/Payments/Confirmations/Settled.antt =====
-- What the provider's confirmation of a transfer settles.
use tasker_api.Prelude.{
  ℕ, pos, negsuc, ◌-ℤ◌, ◌≡◌, refl, ap, ◌∙◌, Bool, true, false, Option, some, arith, any,
}
use tasker_api.Models.{
  Text, truthy, Transfer, TransferStatus, can_transition, TransactionStatus, Transaction,
  TransactionType,
}
use tasker_api.Table.{get, find?}
use tasker_api.Table.Laws.{get-put_self}
use tasker_api.Db.{Db, Env, append}
use tasker_api.Db.Exec.{Result, ok}
use tasker_api.Dispatch.Redispatch.{is_err}
use tasker_api.Transfers.{mark_completed}
use tasker_api.Transfers.Outcome.{as_completed}
use tasker_api.Transfers.Effects.{InStep, mark_completed-InStep}
use tasker_api.Payments.Charges.{is_success, recorded, lock_payout}
use tasker_api.Payments.Confirmations.{
  TransferEvent, payout_of_event, transfer_of_event, is_transfer_completed, payout_transaction,
  handle_transfer_success,
}

-- The entry for a payout that arrived: money that has left.
abbrev pub paid_entry : TransferEvent → Transaction
paid_entry e = record {
  amount = elim e.amount [ pos n ↦ pos 0 -ℤ pos n | negsuc n ↦ negsuc n ];
  transaction_type = TransactionType.provider_payout;
  status = TransactionStatus.success;
  user_id = e.user_id;
  task_id = e.task_id;
  reference = some e.reference;
}

-- The outcome of a confirmation: of a transfer that may become COMPLETED, and of one that may not.
abbrev pub Confirmed : Bool → Env → TransferEvent → ℕ → Transfer → Db → Result Unit × Db → Type 0
Confirmed true env e id t locked (r, db') =
    (r ≡ ok tt)
    × (get id db'.transfers ≡ some (as_completed env t (some e.reference)))
    × InStep (as_completed env t (some e.reference)) locked db'
    × (db'.transactions ≡ append locked.transactions (paid_entry e))
Confirmed false env e id t locked (r, db') = (is_err r ≡ true) × (db' ≡ locked)

pub can_complete :
    (s : TransferStatus)
    → can_transition s TransferStatus.completed ≡ true
    → s ≡ TransferStatus.processing
unfolding can_transition
can_complete TransferStatus.processing h = refl
can_complete TransferStatus.pending h = ground arith
can_complete TransferStatus.retrying h = ground arith
can_complete TransferStatus.completed h = ground arith
can_complete TransferStatus.failed h = ground arith
can_complete TransferStatus.cancelled h = ground arith

module _ (env : Env) (id : ℕ) (t : Transfer) (reference : Option Text) (db : Db) where
  completes :
      can_transition t.status TransferStatus.completed ≡ true
      → let (r, db') = mark_completed env id t reference db in
        (r ≡ ok (as_completed env t reference))
        × (get id db'.transfers ≡ some (as_completed env t reference))
        × (db'.transactions ≡ db.transactions)
  unfolding mark_completed
  completes can = (
    ground arith,
    ground (arith, get-put_self id (as_completed env t reference) db.transfers),
    ground arith,
  )

  refuses :
      can_transition t.status TransferStatus.completed ≡ false
      → let (r, db') = mark_completed env id t reference db in (is_err r ≡ true) × (db' ≡ db)
  unfolding mark_completed
  refuses cannot = ground arith

module _ (env : Env) (same : Text → Text → Bool) (e : TransferEvent) (user_id id : ℕ) (t : Transfer)
    (db locked : Db) (recipient : e.user_id ≡ some user_id) (referred : truthy e.reference ≡ true)
    (lock : lock_payout (payout_of_event same e) db ≡ (ok true, locked))
    (new : any (recorded same is_success e.reference) locked.transactions ≡ false)
    (found : find? (transfer_of_event same e) locked.transfers ≡ some (id, t))
    (waits : is_transfer_completed t.status ≡ false) where
  abbrev marked : Result Transfer × Db
  marked = mark_completed env id t (some e.reference) locked

  confirmation_ends :
      let (r, db') = handle_transfer_success env same e db in
      marked.0 ≡ ok (as_completed env t (some e.reference))
      → (r ≡ ok tt)
        × (db'.transfers ≡ marked.1.transfers)
        × (db'.payouts ≡ marked.1.payouts)
        × (db'.tasks ≡ marked.1.tasks)
        × (db'.transactions
            ≡ append marked.1.transactions (payout_transaction e TransactionStatus.success))
  unfolding handle_transfer_success
  confirmation_ends returned = ground arith

  confirmation_raises :
      let (r, db') = handle_transfer_success env same e db in
      is_err marked.0 ≡ true → (is_err r ≡ true) × (db' ≡ marked.1)
  unfolding handle_transfer_success
  confirmation_raises raised = ground arith

  confirmation_settles :
      (b : Bool)
      → can_transition t.status TransferStatus.completed ≡ b
      → Confirmed b env e id t locked (handle_transfer_success env same e db)
  confirmation_settles true can =
      let (returned, row, kept) = completes env id t (some e.reference) locked can in
      let (returns, transfers, payouts, tasks, transactions) = confirmation_ends returned in
      let (settled_payouts, settled_tasks) =
        mark_completed-InStep env id t locked (can_complete t.status can) (some e.reference) in
      (
        returns,
        rw transfers row,
        rw (payouts, tasks) (settled_payouts, settled_tasks),
        transactions ∙ ap (λ xs. append xs (payout_transaction e TransactionStatus.success)) kept,
      )
  confirmation_settles false cannot =
      let (raised, unchanged) = refuses env id t (some e.reference) locked cannot in
      let (raises, same_db) = confirmation_raises raised in (raises, same_db ∙ unchanged)

  -- A transfer.success event with a recipient and a reference that no SUCCESS transaction has, once
  -- it has the payout's lock, about a transfer that is not COMPLETED. If the transfer is PROCESSING,
  -- it becomes COMPLETED with its payout and its task in step, and one SUCCESS transaction of minus
  -- the amount is added. In any other status, RETRYING and FAILED among them, the handler raises and
  -- writes nothing but the lock, which the flush of the request's log entries commits, so that the
  -- provider's confirmation is lost.
  pub handle_transfer_success-Confirmed :
      Confirmed
        (can_transition t.status TransferStatus.completed)
        env
        e
        id
        t
        locked
        (handle_transfer_success env same e db)
  handle_transfer_success-Confirmed =
      confirmation_settles (can_transition t.status TransferStatus.completed) refl
