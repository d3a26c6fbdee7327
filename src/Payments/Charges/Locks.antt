-- ===== src/Payments/Charges/Locks.antt =====
-- What the optimistic locks of `handle_charge_success` write.
use mathlib.Core.Option
use tasker_api.Prelude.{
  ℕ, ◌+◌, ◌≡◌, refl, ap, Bool, true, false, none, some, [], ◌==◌, arith, Bool-cases, Option-cases,
  inl, inr,
}
use tasker_api.Models.{PayoutQueue}
use tasker_api.Table.{get, find?}
use tasker_api.Table.Laws.{get-put}
use tasker_api.Db.{Db}
use tasker_api.Db.Exec.{Result, ok}
use tasker_api.Payments.Charges.{
  Charge, acquire_lock, lock_payout, lock_charge, is_debt_settlement, of_payout_task,
}

abbrev pub unlocked : PayoutQueue → PayoutQueue
unlocked p = record p { lock_version = 0 }

-- Nothing has changed but the lock versions of payouts.
pub record OnlyLocks (db db' : Db) : Type 0 where
  pub payouts_kept :
      (k : ℕ) → Option.map unlocked (get k db'.payouts) ≡ Option.map unlocked (get k db.payouts)
  pub rest_kept : record db' { payouts = [] } ≡ record db { payouts = [] }

pub OnlyLocks-refl : (db : Db) → OnlyLocks db db
OnlyLocks-refl db = record { payouts_kept = λ k. refl; rest_kept = refl }

-- What a lock comes to: it is taken or not, and only its version changes.
abbrev pub Locked : Db → Result Bool × Db → Type 0
Locked db (r, db') = (b : Bool) × (r ≡ ok b) × OnlyLocks db db' × (b ≡ false → db' ≡ db)

module _ (db : Db) where
  acquire_lock-Locked : (id version : ℕ) → Locked db (acquire_lock id version db)
  unfolding acquire_lock
  acquire_lock-Locked id version = elim (Option-cases (get id db.payouts)) [
    | inl e ↦ rw (acquire_lock, e) (false, refl, OnlyLocks-refl db, λ h. refl)
    | inr (p, e) ↦ elim (Bool-cases (p.lock_version == version)) [
      | inr stale ↦ rw (acquire_lock, e, stale) (false, refl, OnlyLocks-refl db, λ h. refl)
      | inl current ↦
          rw (acquire_lock, e, current)
            (
              true,
              refl,
              record {
                payouts_kept = λ k.
                    ground
                      (arith, get-put id k (record p { lock_version = version + 1 }) db.payouts);
                rest_kept = refl;
              },
              λ h. cc,
            )
    ]
  ]

  lock_payout-none :
      (fits : ℕ → PayoutQueue → Bool)
      → find? fits db.payouts ≡ none
      → lock_payout fits db ≡ (ok true, db)
  unfolding lock_payout
  lock_payout-none fits e = ground arith

  lock_payout-some :
      (fits : ℕ → PayoutQueue → Bool) (id : ℕ) (p : PayoutQueue)
      → find? fits db.payouts ≡ some (id, p)
      → lock_payout fits db ≡ acquire_lock id p.lock_version db
  unfolding lock_payout
  lock_payout-some fits id p e = ground arith

  pub lock_payout-Locked : (fits : ℕ → PayoutQueue → Bool) → Locked db (lock_payout fits db)
  lock_payout-Locked fits = elim (Option-cases (find? fits db.payouts)) [
    | inl e ↦ rw (lock_payout-none fits e) (true, refl, OnlyLocks-refl db, λ h. refl)
    | inr ((id, p), e) ↦ rw (lock_payout-some fits id p e) (acquire_lock-Locked id p.lock_version)
  ]

  pub lock_charge-Locked : (c : Charge) → Locked db (lock_charge c db)
  lock_charge-Locked c = elim (Option-cases c.task_id) [
    | inl e ↦ rw e (true, refl, OnlyLocks-refl db, λ h. refl)
    | inr (id, e) ↦ elim (Bool-cases (is_debt_settlement c.kind)) [
      | inl debt ↦ rw (e, debt) (true, refl, OnlyLocks-refl db, λ h. refl)
      | inr other ↦ rw (e, other) (lock_payout-Locked (λ i p. of_payout_task id i p))
    ]
  ]

pub OnlyLocks-transactions : (db db' : Db) → OnlyLocks db db' → db'.transactions ≡ db.transactions
OnlyLocks-transactions db db' only = ap (λ x. x.transactions) only.rest_kept

pub OnlyLocks-tasks : (db db' : Db) → OnlyLocks db db' → db'.tasks ≡ db.tasks
OnlyLocks-tasks db db' only = ap (λ x. x.tasks) only.rest_kept
