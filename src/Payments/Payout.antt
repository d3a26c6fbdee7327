-- ===== src/Payments/Payout.antt =====
-- The payout of a provider: what is kept back for the debt and what is transferred, in one call and
-- in a second one.
use tasker_api.Prelude.{
  ℕ, ℤ, pos, ◌+ℤ◌, ◌-ℤ◌, ltb_ℤ, int_laws, ◌≡◌, refl, true, false, none, some, List, [], ◌∷◌, ◌++◌,
  arith, is_zero, get_or, if◌then◌else◌, Bool-cases, inl, inr, ==_refl,
}
use tasker_api.Models.{text, Transfer, ProviderDebt, DebtReason, PayoutStatus, PayoutQueue}
use tasker_api.Table.{Table, get, put, find?, update}
use tasker_api.Table.Laws.{get-update_self, find?-put_found, update-found, find?_sound}
use tasker_api.Db.{Db, Env, Job, process_transfer_task}
use tasker_api.Db.Exec.{ok}
use tasker_api.Transfers.{create_transfer, for_payout}
use tasker_api.Transfers.Create.{new_transfer}
use tasker_api.Payments.{process_provider_payout, total_debt, payout_for, is_customer_paid, neg}
use tasker_api.Payments.Ledger.{total_debt-append}

-- The jobs after a payout of which `remaining` is transferred.
abbrev pub payout_jobs : Env → ℤ → List Job → List Job
payout_jobs env remaining jobs =
    if ltb_ℤ (pos 0) remaining then jobs ++ process_transfer_task (env.fresh 0) ∷ [] else jobs

abbrev pub payout_transfers : Env → ℕ → ℕ → ℕ → ℤ → Table Transfer → Table Transfer
payout_transfers env payout_id task_id provider_id remaining transfers =
    if ltb_ℤ (pos 0) remaining
    then put (env.fresh 0) (new_transfer env payout_id task_id provider_id remaining (text "NGN"))
        transfers
    else transfers

abbrev pub initiated : ℤ → PayoutQueue → PayoutQueue
initiated gross p = record p { payout_amount = gross; status = PayoutStatus.transfer_initiated }

-- The amount of a payout, what is kept back of it for the provider's debt, and the rest.
abbrev pub payout_gross : ℕ → PayoutQueue → Db → ℤ
payout_gross task_id p db =
    if is_zero p.payout_amount
    then (elim (get task_id db.tasks) [ none ↦ pos 0 | some t ↦ get_or t.provider_payout (pos 0) ])
    else p.payout_amount

-- The whole debt if the payout exceeds it, otherwise the whole payout; nothing without a debt.
abbrev pub kept_back : ℤ → ℤ → ℤ
kept_back gross debt =
    if ltb_ℤ (pos 0) debt then (if ltb_ℤ debt gross then debt else gross) else pos 0

abbrev pub payout_offset : ℕ → ℕ → PayoutQueue → Db → ℤ
payout_offset task_id provider_id p db =
    kept_back (payout_gross task_id p db) (total_debt provider_id db.debts)

abbrev pub payout_remaining : ℕ → ℕ → PayoutQueue → Db → ℤ
payout_remaining task_id provider_id p db =
    if ltb_ℤ (pos 0) (total_debt provider_id db.debts)
    then payout_gross task_id p db -ℤ payout_offset task_id provider_id p db
    else payout_gross task_id p db

payout_skips :
    (env : Env) (task_id provider_id payout_id : ℕ) (p : PayoutQueue) (db : Db)
    → find? (payout_for task_id provider_id) db.payouts ≡ some (payout_id, p)
    → is_customer_paid p.status ≡ false
    → process_provider_payout env task_id provider_id db ≡ (ok tt, db)
unfolding process_provider_payout
payout_skips env task_id provider_id payout_id p db found unpaid = ground arith

module _ (env : Env) (task_id provider_id payout_id : ℕ) (p : PayoutQueue) (db : Db)
    (found : find? (payout_for task_id provider_id) db.payouts ≡ some (payout_id, p))
    (paid : is_customer_paid p.status ≡ true) where
  abbrev gross : ℤ
  gross = payout_gross task_id p db

  abbrev debt : ℤ
  debt = total_debt provider_id db.debts

  abbrev offset : ℤ
  offset = payout_offset task_id provider_id p db

  abbrev remaining : ℤ
  remaining = payout_remaining task_id provider_id p db

  abbrev after : Db
  after = (process_provider_payout env task_id provider_id db).1

  abbrev offset_debts : List ProviderDebt
  offset_debts =
      if ltb_ℤ (pos 0) debt
      then db.debts
        ++ record {
          provider_id = provider_id;
          task_id = some task_id;
          amount = neg offset;
          reason = DebtReason.payout_offset;
        }
          ∷ []
      else db.debts

  payout_writes :
      find? (for_payout payout_id) db.transfers ≡ none
      → ((process_provider_payout env task_id provider_id db).0 ≡ ok tt)
        × (after.debts ≡ offset_debts)
        × (after.jobs ≡ payout_jobs env remaining db.jobs)
        × (after.transfers
            ≡ payout_transfers env payout_id task_id provider_id remaining db.transfers)
        × (after.payouts ≡ update payout_id (initiated gross) db.payouts)
  unfolding process_provider_payout create_transfer
  payout_writes fresh_payout = elim (Bool-cases (ltb_ℤ (pos 0) debt)) [
    | inl owes ↦ elim (Bool-cases (ltb_ℤ (pos 0) (gross -ℤ offset))) [
      | inl rest ↦ ground arith
      | inr nothing ↦ ground arith
    ]
    | inr free ↦ elim (Bool-cases (ltb_ℤ (pos 0) gross)) [
      | inl rest ↦ ground arith
      | inr nothing ↦ ground arith
    ]
  ]

  module _ (there : get payout_id db.payouts ≡ some p)
      (fresh_payout : find? (for_payout payout_id) db.transfers ≡ none) where
    offset_paid : total_debt provider_id offset_debts +ℤ offset ≡ debt
    offset_paid = elim (Bool-cases (ltb_ℤ (pos 0) debt)) [
      | inl owes ↦ grind (int_laws, total_debt-append, ==_refl)
      | inr free ↦ grind (int_laws, total_debt-append, ==_refl)
    ]

    remaining_paid : remaining +ℤ offset ≡ gross
    remaining_paid = elim (Bool-cases (ltb_ℤ (pos 0) debt)) [
      | inl owes ↦ grind int_laws
      | inr free ↦ grind int_laws
    ]

    -- The payout of a customer's payment, found under its id and without a transfer yet: what is
    -- transferred and what is kept back for the provider's debt add up to the gross amount, the debt
    -- falls by what is kept back, one transfer of the remaining amount is created and enqueued if
    -- that is positive and none otherwise, and the payout is TRANSFER_INITIATED in both cases.
    pub provider_payout-conserves :
        let (r, db') = process_provider_payout env task_id provider_id db in
        let rest = payout_remaining task_id provider_id p db in
        let back = payout_offset task_id provider_id p db in
        let all = payout_gross task_id p db in
        (r ≡ ok tt)
        × (rest +ℤ back ≡ all)
        × (total_debt provider_id db'.debts +ℤ back ≡ total_debt provider_id db.debts)
        × (db'.jobs ≡ payout_jobs env rest db.jobs)
        × (db'.transfers ≡ payout_transfers env payout_id task_id provider_id rest db.transfers)
        × (get payout_id db'.payouts ≡ some (initiated all p))
    provider_payout-conserves =
        let (returned, debts, jobs, transfers, payouts) = payout_writes fresh_payout in
        (
          returned,
          remaining_paid,
          rw debts offset_paid,
          jobs,
          transfers,
          rw payouts (get-update_self payout_id (initiated gross) p db.payouts there),
        )

    found_again :
        find? (payout_for task_id provider_id) after.payouts ≡ some (payout_id, initiated gross p)
    found_again =
        let (_, _, _, _, payouts) = payout_writes fresh_payout in
        rw (payouts, update-found payout_id (initiated gross) p db.payouts there)
          (find?-put_found (payout_for task_id provider_id) payout_id (initiated gross p) p
            db.payouts found
            (find?_sound (payout_for task_id provider_id) db.payouts payout_id p found))

    -- A second call for the same task and provider writes nothing: no second offset and no second
    -- transfer.
    pub process_provider_payout_twice :
        (env' : Env) → process_provider_payout env' task_id provider_id after ≡ (ok tt, after)
    process_provider_payout_twice env' =
        payout_skips env' task_id provider_id payout_id (initiated gross p) after found_again refl
