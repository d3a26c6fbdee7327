-- ===== src/Payments/Charges/Repeats.antt =====
-- Charges that change nothing but optimistic locks: repeated deliveries and refused charges.
use tasker_api.Payments.Charges.Locks.{
  OnlyLocks, OnlyLocks-refl, lock_charge-Locked, OnlyLocks-transactions, OnlyLocks-tasks,
}
use tasker_api.Payments.Charges.Records.{accept_charge-records}
use tasker_api.Prelude.{
  ℕ, ◌≡◌, refl, sym, ◌∙◌, ap, Bool, true, false, ◌||◌, not, Option, none, some, arith, any, is_some,
  if◌then◌else◌, Bool-cases, inl, inr, subst,
}
use tasker_api.Models.{Text, is_blank_text, Task}
use tasker_api.Db.{Db, Env}
use tasker_api.Db.Exec.{ok}
use tasker_api.Payments.Charges.{
  Charge, is_success, recorded, lock_charge, charged_task, accept_charge, handle_charge_success,
}

module _ (env : Env) (same : Text → Text → Bool) (c : Charge) (db : Db) where
  -- A charge is refused: it has no reference, or one that was recorded, or a task that is not there or
  -- costs more.
  abbrev pub is_refused : Bool
  is_refused =
      is_blank_text c.reference
      || any (recorded same is_success c.reference) db.transactions
      || not (is_some (charged_task c db))

  unlocked_skips :
      (lock_charge c db).0 ≡ ok false
      → (handle_charge_success env same c db).1
        ≡ (if is_blank_text c.reference then db else (lock_charge c db).1)
  unfolding handle_charge_success
  unlocked_skips e = ground arith

  refused_skips :
      (locked : Db)
      → lock_charge c db ≡ (ok true, locked)
      → locked.transactions ≡ db.transactions
      → locked.tasks ≡ db.tasks
      → is_refused ≡ true
      → handle_charge_success env same c db
        ≡ (ok tt, if is_blank_text c.reference then db else locked)
  unfolding handle_charge_success
  refused_skips locked e kept tasks refused = ground arith

  pub accepts :
      (locked : Db) (task : Option (ℕ × Task))
      → lock_charge c db ≡ (ok true, locked)
      → locked.transactions ≡ db.transactions
      → locked.tasks ≡ db.tasks
      → is_blank_text c.reference ≡ false
      → any (recorded same is_success c.reference) db.transactions ≡ false
      → charged_task c db ≡ some task
      → handle_charge_success env same c db ≡ accept_charge env c task locked
  unfolding handle_charge_success
  accepts locked task e kept tasks written new found = ground arith

module _ (env : Env) (same : Text → Text → Bool) (c : Charge) (db : Db) where
  -- The database after a charge that is not accepted.
  either-OnlyLocks : (b : Bool) (db' : Db) → OnlyLocks db db' → OnlyLocks db (if b then db else db')
  either-OnlyLocks true db' only = OnlyLocks-refl db
  either-OnlyLocks false db' only = only

  lost-OnlyLocks :
      (lock_charge c db).0 ≡ ok false → OnlyLocks db (handle_charge_success env same c db).1
  lost-OnlyLocks e =
      let (taken, e', only, free) = lock_charge-Locked db c in
      rw (unlocked_skips env same c db e)
        (either-OnlyLocks (is_blank_text c.reference) (lock_charge c db).1 only)

  -- A refused charge writes nothing but the lock version of a payout.
  pub charge_refused :
      is_refused env same c db ≡ true → OnlyLocks db (handle_charge_success env same c db).1
  charge_refused refused =
      let (taken, e, only, free) = lock_charge-Locked db c in
      let db' = (lock_charge c db).1 in
      elim (Bool-cases taken) [
        | inr lost ↦ lost-OnlyLocks (e ∙ ap ok lost)
        | inl got ↦
            rw
              (refused_skips env same c db db' (ap (λ r. (r, db')) (e ∙ ap ok got))
                (OnlyLocks-transactions db db' only) (OnlyLocks-tasks db db' only) refused)
              (either-OnlyLocks (is_blank_text c.reference) db' only)
      ]

module _ (env : Env) (same : Text → Text → Bool) (c : Charge) (db : Db) where
  is_some-some : {A : Type 0} (o : Option A) → is_some o ≡ true → (a : A) × (o ≡ some a)
  is_some-some none h = ground arith
  is_some-some (some a) h = (a, refl)

  recorded-is_refused :
      any (recorded same is_success c.reference) db.transactions ≡ true
      → is_refused env same c db ≡ true
  recorded-is_refused h = ground arith

  pub accepted_task :
      is_refused env same c db ≡ false
      → (is_blank_text c.reference ≡ false)
        × (any (recorded same is_success c.reference) db.transactions ≡ false)
        × (task : Option (ℕ × Task)) × (charged_task c db ≡ some task)
  accepted_task accepted =
      let (task, e) = is_some-some (charged_task c db) (ground arith) in
      (ground arith, ground arith, task, e)

  still_refused :
      (db' : Db)
      → OnlyLocks db db'
      → is_refused env same c db ≡ true
      → is_refused env same c db' ≡ true
  still_refused db' only refused =
      ground (arith, OnlyLocks-transactions db db' only, OnlyLocks-tasks db db' only)

module _ (env : Env) (env' : Env) (same : Text → Text → Bool)
    (same_refl : (r : Text) → same r r ≡ true) (c : Charge) (db : Db) where
  abbrev after_first : Db
  after_first = (handle_charge_success env same c db).1

  ok-eq : (a b : Bool) → ok a ≡ ok b → a ≡ b
  ok-eq a b e = cc

  lost-unchanged : (lock_charge c db).0 ≡ ok false → after_first ≡ db
  lost-unchanged e =
      let (taken, e', only, free) = lock_charge-Locked db c in
      rw (unlocked_skips env same c db e) (ground (arith, free (ok-eq taken false (sym e' ∙ e))))

  accepted-is_refused :
      (lock_charge c db).0 ≡ ok true
      → is_refused env same c db ≡ false
      → is_refused env same c after_first ≡ true
  accepted-is_refused e accepted =
      let (taken, e', only, free) = lock_charge-Locked db c in
      let locked = (lock_charge c db).1 in
      let (written, new, task, found) = accepted_task env same c db accepted in
      recorded-is_refused env same c after_first (
        subst (λ r. any (recorded same is_success c.reference) r.1.transactions ≡ true)
          (sym (
            accepts env same c db locked task (ap (λ r. (r, locked)) e)
              (OnlyLocks-transactions db locked only) (OnlyLocks-tasks db locked only) written new
              found))
          (accept_charge-records env same same_refl c locked task))

  -- The same charge delivered twice, where the comparison of references is reflexive: the second
  -- delivery, at whatever time and with whatever random numbers, writes nothing but the lock version
  -- of a payout, whether the first was accepted, refused or lost its lock.
  pub charge_twice : OnlyLocks after_first (handle_charge_success env' same c after_first).1
  charge_twice =
      let (taken, e, only, free) = lock_charge-Locked db c in
      elim (Bool-cases taken) [
        | inr lost ↦
            rw (lost-unchanged (e ∙ ap ok lost)) (lost-OnlyLocks env' same c db (e ∙ ap ok lost))
        | inl got ↦ elim (Bool-cases (is_refused env same c db)) [
          | inl refused ↦ charge_refused env' same c after_first (
              still_refused env same c db after_first (charge_refused env same c db refused)
                refused)
          | inr accepted ↦
              charge_refused env' same c after_first (accepted-is_refused (e ∙ ap ok got) accepted)
        ]
      ]
