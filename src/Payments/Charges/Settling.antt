-- ===== src/Payments/Charges/Settling.antt =====
-- What an accepted charge settles: the debt of a provider, or a task whose provider is then paid.
use tasker_api.Prelude.{
  ℕ, ℤ, pos, ◌+◌, ◌+ℤ◌, ◌-ℤ◌, ltb_ℤ, int_laws, ◌≡◌, ◌≢◌, refl, sym, ap, ◌∙◌, Bool, true, false,
  none, some, arith, if◌then◌else◌, inl, inr, ==_refl, ==_ne, Option-cases,
}
use tasker_api.Models.{
  Text, Task, PaymentStatus, PayoutStatus, PayoutQueue, DebtReason, TransactionType,
  TransactionStatus,
}
use tasker_api.Table.{get, put, find?}
use tasker_api.Table.Laws.{find?-put_found}
use tasker_api.Db.{Db, Env, append}
use tasker_api.Db.Exec.{ok}
use tasker_api.Payments.{process_provider_payout, total_debt, neg}
use tasker_api.Payments.Ledger.{total_debt-append}
use tasker_api.Payments.Charges.{
  Charge, ChargeKind, lock_payout, lock_charge, accept_charge, handle_charge_success,
  transaction_of, debtor,
}
use tasker_api.Payments.Charges.Repeats.{is_refused, accepts, accepted_task}
use tasker_api.Payments.Charges.Records.{marked_paid, with_charge, settle-eq-payout}
use tasker_api.Payments.Charges.{
  of_payout_task, awaits_payment, payable_for, settle_task_payment, acquire_lock,
}
use tasker_api.Payments.{payout_for}
use tasker_api.Dispatch.Lifecycle.{assignment_of}
use tasker_api.Prelude.{subst}
use tasker_api.Transfers.{for_payout}
use tasker_api.Payments.Payout.{
  kept_back, payout_remaining, payout_offset, payout_gross, payout_jobs, payout_transfers,
  initiated, provider_payout-conserves,
}
use tasker_api.Table.Laws.{find?_sound, find?-update_where, get-put_self, get-update_where}

module _ (env : Env) (same : Text → Text → Bool) (c : Charge) (provider_id : ℕ) (db : Db) where
  debt_writes :
      (task : _)
      → c.kind ≡ ChargeKind.debt_settlement
      → debtor c ≡ some provider_id
      → accept_charge env c task db ≡ (
        ok tt,
        record db {
          debts = append db.debts (record {
            provider_id = provider_id;
            task_id = none;
            amount = neg c.amount;
            reason = DebtReason.debt_payment;
          });
          transactions =
              append db.transactions
                (transaction_of c TransactionType.debt_settlement TransactionStatus.success);
        },
      )
  unfolding accept_charge
  debt_writes task kind owes = ground arith

  -- A charge for the settlement of a debt that is not refused (it has a reference, and none that a
  -- SUCCESS transaction has), with a provider or a user to book it on: the debt of that provider falls
  -- by the amount, that of every other is the same, one SUCCESS transaction of the type
  -- DEBT_SETTLEMENT is added, and payouts, tasks and transfers are left alone.
  pub debt_settled :
      c.kind ≡ ChargeKind.debt_settlement
      → debtor c ≡ some provider_id
      → is_refused env same c db ≡ false
      → let (r, db') = handle_charge_success env same c db in
        (r ≡ ok tt)
        × (total_debt provider_id db'.debts ≡ total_debt provider_id db.debts -ℤ c.amount)
        × ((other : ℕ)
            → other ≢ provider_id
            → total_debt other db'.debts ≡ total_debt other db.debts)
        × (db'.transactions
            ≡ append db.transactions
                (transaction_of c TransactionType.debt_settlement TransactionStatus.success))
        × (db'.payouts ≡ db.payouts)
        × (db'.tasks ≡ db.tasks)
        × (db'.transfers ≡ db.transfers)
  debt_settled kind owes accepted =
      let (written, new, task, found) = accepted_task env same c db accepted in
      rw
        (
          accepts env same c db db task (ground arith) refl refl written new found,
          debt_writes task kind owes,
        )
        (
          refl,
          grind (int_laws, total_debt-append, ==_refl),
          λ other h. grind (int_laws, total_debt-append, ==_ne),
          refl,
          refl,
          refl,
          refl,
        )

module _ (env : Env) (same : Text → Text → Bool) (c : Charge) (task_id provider_id payout_id : ℕ)
    (t : Task) (p : PayoutQueue) (db : Db) where
  abbrev taken : PayoutQueue
  taken = record p { lock_version = p.lock_version + 1 }

  abbrev locked : Db
  locked = record db { payouts = put payout_id taken db.payouts }

  abbrev ready : Db
  ready = marked_paid task_id t (with_charge env c locked)

  takes_lock :
      c.kind ≡ ChargeKind.task_payment
      → c.task_id ≡ some task_id
      → find? (of_payout_task task_id) db.payouts ≡ some (payout_id, p)
      → get payout_id db.payouts ≡ some p
      → lock_charge c db ≡ (ok true, locked)
  unfolding lock_payout acquire_lock
  takes_lock kind of_task first there = ground (arith, ==_refl p.lock_version)

  -- The customer's notification is all that comes after the payout.
  starts_payout :
      c.kind ≡ ChargeKind.task_payment
      → let (r, settled) = settle_task_payment env task_id t (with_charge env c locked) in
        let (r', db') = accept_charge env c (some (task_id, t)) locked in
        r ≡ ok tt
        → (r' ≡ ok tt)
          × (db'.debts ≡ settled.debts)
          × (db'.jobs ≡ settled.jobs)
          × (db'.transfers ≡ settled.transfers)
          × (db'.payouts ≡ settled.payouts)
  unfolding accept_charge
  starts_payout kind returned = elim (Option-cases c.user_id) [
    | inl e ↦ ground arith
    | inr (user_id, e) ↦ ground arith
  ]

  payout_found :
      t.assigned_provider_id ≡ some provider_id
      → find? (of_payout_task task_id) db.payouts ≡ some (payout_id, p)
      → p.provider_id ≡ some provider_id
      → p.status ≡ PayoutStatus.pending
      → find? (payout_for task_id provider_id) ready.payouts
        ≡ some (payout_id, record taken { status = PayoutStatus.customer_paid })
  payout_found assigned first mine waits =
      let of_task = find?_sound (λ k q. of_payout_task task_id k q) db.payouts payout_id p first in
      find?-update_where (payout_for task_id provider_id) (of_payout_task task_id)
        (payable_for task_id t.assigned_provider_id)
        (λ p. record p { status = PayoutStatus.customer_paid }) payout_id taken locked.payouts
        (find?-put_found (of_payout_task task_id) payout_id taken p db.payouts first of_task)
        (λ j q h. ground arith) (ground (arith, ==_refl provider_id))
        (ground (arith, ==_refl provider_id))

  payout_there :
      t.assigned_provider_id ≡ some provider_id
      → find? (of_payout_task task_id) db.payouts ≡ some (payout_id, p)
      → p.provider_id ≡ some provider_id
      → p.status ≡ PayoutStatus.pending
      → get payout_id ready.payouts ≡ some (record taken { status = PayoutStatus.customer_paid })
  payout_there assigned first mine waits =
      let of_task = find?_sound (λ k q. of_payout_task task_id k q) db.payouts payout_id p first in
      ground (
        arith,
        ==_refl provider_id,
        get-put_self payout_id taken db.payouts,
        get-update_where (payable_for task_id t.assigned_provider_id)
            (λ p. record p { status = PayoutStatus.customer_paid }) payout_id locked.payouts,
      )

  module _ (kind : c.kind ≡ ChargeKind.task_payment) (of_task : c.task_id ≡ some task_id)
      (there : get task_id db.tasks ≡ some t) (assigned : t.assigned_provider_id ≡ some provider_id)
      (awaits : awaits_payment t.payment_status ≡ true)
      (accepted : is_refused env same c db ≡ false)
      (first : find? (of_payout_task task_id) db.payouts ≡ some (payout_id, p))
      (queued : get payout_id db.payouts ≡ some p) (mine : p.provider_id ≡ some provider_id)
      (waits : p.status ≡ PayoutStatus.pending)
      (fresh : find? (for_payout payout_id) db.transfers ≡ none) where
    abbrev customer_paid : PayoutQueue
    customer_paid = record taken { status = PayoutStatus.customer_paid }

    accepts_task :
        handle_charge_success env same c db ≡ accept_charge env c (some (task_id, t)) locked
    accepts_task =
        let (written, new, task, found) = accepted_task env same c db accepted in
        rw
          (accepts env same c db locked task (takes_lock kind of_task first queued) refl refl
            written new found)
          (ap (λ x. accept_charge env c x locked) (ground arith))

    settles :
        settle_task_payment env task_id t (with_charge env c locked)
        ≡ process_provider_payout env task_id provider_id ready
    settles =
        settle-eq-payout env task_id t (with_charge env c locked) provider_id awaits
          (ground (arith, Option-cases (find? (assignment_of task_id) db.assignments)))

    same_gross : payout_gross task_id customer_paid ready ≡ payout_gross task_id p db
    same_gross =
        rw
          (
            get-put_self task_id (record t { payment_status = some PaymentStatus.customer_paid })
                db.tasks,
            there,
          )
          refl

    -- What is kept back of a payout, and the rest, by its gross amount.
    abbrev back_of : ℤ → ℤ
    back_of gross = kept_back gross (total_debt provider_id db.debts)

    abbrev rest_of : ℤ → ℤ
    rest_of gross =
        if ltb_ℤ (pos 0) (total_debt provider_id db.debts) then gross -ℤ back_of gross else gross

    abbrev Paid : ℤ → Db → Type 0
    Paid gross db' =
        (rest_of gross +ℤ back_of gross ≡ gross)
        × (total_debt provider_id db'.debts +ℤ back_of gross ≡ total_debt provider_id db.debts)
        × (db'.jobs ≡ payout_jobs env (rest_of gross) db.jobs)
        × (db'.transfers
            ≡ payout_transfers env payout_id task_id provider_id (rest_of gross) db.transfers)
        × (get payout_id db'.payouts ≡ some (initiated gross taken))

    payout_books :
        (process_provider_payout env task_id provider_id ready).0 ≡ ok tt
        × Paid (payout_gross task_id p db) (process_provider_payout env task_id provider_id ready).1
    payout_books =
        let (returned, conserved, debts, jobs, transfers, payout) =
          provider_payout-conserves env task_id provider_id payout_id customer_paid ready
            (payout_found assigned first mine waits) refl (payout_there assigned first mine waits)
            fresh in
        (
          returned,
          subst (λ gross. Paid gross (process_provider_payout env task_id provider_id ready).1)
              same_gross (conserved, debts, jobs, transfers, payout),
        )

    -- A charge for a task that is not refused and whose task waits for its customer, with an assigned
    -- provider, a PENDING payout of that provider that is the first of the task, and no transfer of
    -- that payout: in the same call the provider's payout is started. What is kept back for the
    -- provider's debt and what is transferred add up to the gross amount, the debt falls by what is
    -- kept back, one transfer of the rest is created and enqueued if that is positive, and the payout
    -- is TRANSFER_INITIATED with the next lock version.
    pub task_payment_pays_provider :
        let (r, db') = handle_charge_success env same c db in
        let rest = payout_remaining task_id provider_id p db in
        let back = payout_offset task_id provider_id p db in
        let all = payout_gross task_id p db in
        (r ≡ ok tt)
        × (rest +ℤ back ≡ all)
        × (total_debt provider_id db'.debts +ℤ back ≡ total_debt provider_id db.debts)
        × (db'.jobs ≡ payout_jobs env rest db.jobs)
        × (db'.transfers ≡ payout_transfers env payout_id task_id provider_id rest db.transfers)
        × (get payout_id db'.payouts ≡ some (initiated all taken))
    task_payment_pays_provider =
        let (returned, books) = payout_books in
        let settled = settle_task_payment env task_id t (with_charge env c locked) in
        let (returns, same_debts, same_jobs, same_transfers, same_payouts) =
          starts_payout kind (ap (λ x. x.0) settles ∙ returned) in
        let (conserved, debts, jobs, transfers, payout) =
          subst (λ x. Paid (payout_gross task_id p db) x.1) (sym settles) books in
        rw accepts_task (
          returns,
          conserved,
          rw same_debts debts,
          same_jobs ∙ jobs,
          same_transfers ∙ transfers,
          rw same_payouts payout,
        )
