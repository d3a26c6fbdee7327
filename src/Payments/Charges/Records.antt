-- ===== src/Payments/Charges/Records.antt =====
-- A transaction that was recorded stays, and an accepted charge is recorded.
use tasker_api.Prelude.{
  ℕ, ◌≡◌, Bool, true, false, Option, none, some, [], ◌∷◌, arith, any, any-append, Bool-cases,
  Option-cases, inl, inr,
}
use tasker_api.Models.{Text, Task, PayoutStatus, TransactionStatus, Transaction, PaymentStatus}
use tasker_api.Table.{put, find?, update_where}
use tasker_api.Db.{Db, Env, append}
use tasker_api.Db.Exec.{ok}
use tasker_api.Transfers.{create_transfer}
use tasker_api.Dispatch.Lifecycle.{assignment_of}
use tasker_api.Payments.{process_provider_payout}
use tasker_api.Payments.Charges.{
  Charge, is_success, recorded, accept_charge, settle_task_payment, awaits_payment, payable_for,
  provider_of, transaction_of, charge_type,
}

-- The transactions of a table are never lost.
abbrev Keeps : Db → Db → Type 0
Keeps db db' =
    (q : Transaction → Bool) → any q db.transactions ≡ true → any q db'.transactions ≡ true

process_provider_payout-Keeps :
    (env : Env) (task_id provider_id : ℕ) (db : Db)
    → Keeps db (process_provider_payout env task_id provider_id db).1
unfolding process_provider_payout create_transfer
process_provider_payout-Keeps env task_id provider_id db q h = grind (arith, any-append)

-- The database in which the payout of a paid task is started.
abbrev pub marked_paid : ℕ → Task → Db → Db
marked_paid task_id t db = record db {
  tasks = put task_id (record t { payment_status = some PaymentStatus.customer_paid }) db.tasks;
  payouts =
      update_where (payable_for task_id t.assigned_provider_id)
        (λ p. record p { status = PayoutStatus.customer_paid }) db.payouts;
}

module _ (env : Env) (task_id : ℕ) (t : Task) (db : Db) where
  pub settle-eq-payout :
      (provider_id : ℕ)
      → awaits_payment t.payment_status ≡ true
      → provider_of t (find? (assignment_of task_id) db.assignments) ≡ some provider_id
      → settle_task_payment env task_id t db
        ≡ process_provider_payout env task_id provider_id (marked_paid task_id t db)
  unfolding settle_task_payment
  settle-eq-payout provider_id awaits e = ground arith

  settle-none :
      awaits_payment t.payment_status ≡ true
      → provider_of t (find? (assignment_of task_id) db.assignments) ≡ none
      → settle_task_payment env task_id t db ≡ (ok tt, marked_paid task_id t db)
  unfolding settle_task_payment
  settle-none awaits e = ground arith

  settle-paid :
      awaits_payment t.payment_status ≡ false → settle_task_payment env task_id t db ≡ (ok tt, db)
  unfolding settle_task_payment
  settle-paid paid = ground arith

  pub settle_task_payment-Keeps : Keeps db (settle_task_payment env task_id t db).1
  settle_task_payment-Keeps q h = elim (Bool-cases (awaits_payment t.payment_status)) [
    | inr paid ↦ rw (settle-paid paid) h
    | inl awaits ↦
        elim (Option-cases (provider_of t (find? (assignment_of task_id) db.assignments))) [
          | inl e ↦ rw (settle-none awaits e) h
          | inr (provider_id, e) ↦
              rw (settle-eq-payout provider_id awaits e) (
                process_provider_payout-Keeps env task_id provider_id (marked_paid task_id t db) q
                  h)
        ]
  ]

module _ (env : Env) (c : Charge) (db : Db) where
  abbrev pub with_charge : Db
  with_charge = record db {
    transactions =
        append db.transactions (transaction_of c (charge_type c.kind) TransactionStatus.success);
  }

  accept_charge-Keeps :
      (task : Option (ℕ × Task)) → Keeps with_charge (accept_charge env c task db).1
  unfolding accept_charge
  accept_charge-Keeps none q h = ground arith
  accept_charge-Keeps (some (task_id, t)) q h =
      ground (arith, settle_task_payment-Keeps env task_id t with_charge q h)

module _ (env : Env) (same : Text → Text → Bool) (same_refl : (r : Text) → same r r ≡ true)
    (c : Charge) (db : Db) where
  pub accept_charge-records :
      (task : Option (ℕ × Task))
      → any (recorded same is_success c.reference) (accept_charge env c task db).1.transactions
        ≡ true
  accept_charge-records task =
      accept_charge-Keeps env c db task (recorded same is_success c.reference) (
        ground (
          arith,
          same_refl c.reference,
          any-append (recorded same is_success c.reference) db.transactions
              (transaction_of c (charge_type c.kind) TransactionStatus.success ∷ []),
        ))
