-- ===== src/Payments/Confirmations/Writes.antt =====
-- What the webhook's events write to the table of the transfers.
use tasker_api.Prelude.{
  ℕ, ◌≡◌, ◌==◌, ⊤, ap, [], ◌∷◌, ◌+◌, refl, sym, ◌∙◌, Bool, true, false, Option, some, arith, any,
  ◌⊎◌, inl, inr, Bool-cases, Option-cases,
}
use tasker_api.Models.{
  Text, text, lit, naira, Transaction, TransactionStatus, truthy, or_text, PayoutQueue, Transfer,
  TransferStatus, can_transition,
}
use tasker_api.Table.{get, put, find?}
use tasker_api.Db.{Db, Env}
use tasker_api.Db.Exec.{Exec, Result, Error, ok, err, ◌>>◌}
use tasker_api.Transfers.{mark_completed, mark_failed}
use tasker_api.Transfers.Outcome.{as_completed, as_failed}
use tasker_api.Payments.Charges.{
  is_success, is_failed, recorded, lock_payout, acquire_lock, notify_user,
}
use tasker_api.Payments.{add_transaction}
use tasker_api.Dispatch.Redispatch.{is_err}
use tasker_api.Payments.Confirmations.Settled.{can_complete}
use tasker_api.Payments.Confirmations.{
  TransferEvent, payout_transaction, payout_of_event, transfer_of_event, confirm, refuse,
  handle_transfer_success, handle_transfer_failed, is_transfer_completed, is_transfer_failed,
}

-- The lock of a payout is a row of another table.
lock_result :
    (fits : ℕ → PayoutQueue → Bool) (db : Db)
    → (b : Bool) × (locked : Db) × (lock_payout fits db ≡ (ok b, locked))
      × (locked.transfers ≡ db.transfers)
unfolding lock_payout acquire_lock
lock_result fits db = elim (Option-cases (find? fits db.payouts)) [
  | inl e ↦ (true, db, ground arith, refl)
  | inr ((k, p), e) ↦ elim (Option-cases (get k db.payouts)) [
    | inl f ↦ (false, db, ground arith, refl)
    | inr (q, f) ↦ elim (Bool-cases (q.lock_version == p.lock_version)) [
      | inl fits ↦ (
        true,
        record db { payouts = put k (record q { lock_version = p.lock_version + 1 }) db.payouts },
        ground arith,
        refl,
      )
      | inr lost ↦ (false, db, ground arith, refl)
    ]
  ]
]

-- The table is as it was, or holds `t'` in place of the PROCESSING transfer that the event is about.
abbrev pub Written : (Text → Text → Bool) → TransferEvent → (Transfer → Transfer) → Db → Db → Type 0
Written same e after db db' =
    (db'.transfers ≡ db.transfers)
    ⊎ ((id : ℕ) × (t : Transfer) × (find? (transfer_of_event same e) db.transfers ≡ some (id, t))
        × (t.status ≡ TransferStatus.processing)
        × (db'.transfers ≡ put id (after t) db.transfers))

abbrev pub failed_by : Env → TransferEvent → Transfer → Transfer
failed_by env e t =
    as_failed env t (some (text "WEBHOOK_FAILED"))
      (some (or_text e.reason (text "Transfer failed via webhook notification")))

can_fail :
    (s : TransferStatus)
    → can_transition s TransferStatus.failed ≡ true
    → s ≡ TransferStatus.processing
unfolding can_transition
can_fail TransferStatus.processing h = refl
can_fail TransferStatus.pending h = ground arith
can_fail TransferStatus.retrying h = ground arith
can_fail TransferStatus.completed h = ground arith
can_fail TransferStatus.failed h = ground arith
can_fail TransferStatus.cancelled h = ground arith

-- What a call of the state machine leaves: nothing if it raises.
abbrev Moved : Db → ℕ → Transfer → Transfer → Result Transfer × Db → Type 0
Moved db id t t' (r, db') =
    ((is_err r ≡ true) × (db'.transfers ≡ db.transfers))
    ⊎ ((r ≡ ok t')
        × (t.status ≡ TransferStatus.processing)
        × (db'.transfers ≡ put id t' db.transfers))

module _ (env : Env) (id : ℕ) (t : Transfer) (db : Db) where
  completes-Moved :
      (reference : Option Text)
      → Moved db id t (as_completed env t reference) (mark_completed env id t reference db)
  unfolding mark_completed
  completes-Moved reference = elim (Bool-cases (can_transition t.status TransferStatus.completed)) [
    | inl can ↦ inr (ground arith, can_complete t.status can, ground arith)
    | inr cannot ↦ inl (ground arith, ground arith)
  ]

  fails-Moved :
      (code reason : Option Text)
      → Moved db id t (as_failed env t code reason) (mark_failed env id t code reason db)
  unfolding mark_failed
  fails-Moved code reason = elim (Bool-cases (can_transition t.status TransferStatus.failed)) [
    | inl can ↦ inr (ground arith, can_fail t.status can, ground arith)
    | inr cannot ↦ inl (ground arith, ground arith)
  ]

module _ (env : Env) (same : Text → Text → Bool) (e : TransferEvent) where
  confirm_writes :
      (db : Db)
      → Written same e
          (λ t. as_completed env t (some e.reference))
          db
          (confirm env same e (find? (transfer_of_event same e) db.transfers) db).1
  confirm_writes db = elim (Option-cases (find? (transfer_of_event same e) db.transfers)) [
    | inl none_found ↦ inl (ground arith)
    | inr ((id, t), found) ↦ elim (Bool-cases (is_transfer_completed t.status)) [
      | inl done ↦ inl (ground arith)
      | inr open_one ↦ elim (completes-Moved env id t db (some e.reference)) [
        | inl (raised, kept) ↦ inl (ground arith)
        | inr (returned, claimed, row) ↦ inr (id, t, found, claimed, ground arith)
      ]
    ]
  ]

  refuse_writes :
      (db : Db)
      → Written same e
          (failed_by env e)
          db
          (refuse env same e (find? (transfer_of_event same e) db.transfers) db).1
  refuse_writes db = elim (Option-cases (find? (transfer_of_event same e) db.transfers)) [
    | inl none_found ↦ inl (ground arith)
    | inr ((id, t), found) ↦ elim (Bool-cases (is_transfer_failed t.status)) [
      | inl done ↦ inl (ground arith)
      | inr open_one ↦
          elim (fails-Moved env id t db (some (text "WEBHOOK_FAILED"))
            (some (or_text e.reason (text "Transfer failed via webhook notification")))) [
              | inl (raised, kept) ↦ inl (ground arith)
              | inr (returned, claimed, row) ↦ inr (id, t, found, claimed, ground arith)
            ]
    ]
  ]

  shift :
      (after : Transfer → Transfer) (db locked db' : Db)
      → locked.transfers ≡ db.transfers
      → Written same e after locked db'
      → Written same e after db db'
  shift after db locked db' kept (inl unchanged) = inl (unchanged ∙ kept)
  shift after db locked db' kept (inr (id, t, found, claimed, row)) = inr (
    id,
    t,
    ap (find? (transfer_of_event same e)) (sym kept) ∙ found,
    claimed,
    row ∙ ap (put id (after t)) kept,
  )

retarget :
    (same : Text → Text → Bool) (e : TransferEvent) (after : Transfer → Transfer) (db d d' : Db)
    → d'.transfers ≡ d.transfers
    → Written same e after db d
    → Written same e after db d'
retarget same e after db d d' kept (inl unchanged) = inl (kept ∙ unchanged)
retarget same e after db d d' kept (inr (id, t, found, claimed, row)) =
    inr (id, t, found, claimed, kept ∙ row)

Result-cases : {A : Type 0} (r : Result A) → ((a : A) × (r ≡ ok a)) ⊎ ((e : Error) × (r ≡ err e))
Result-cases (ok a) = inl (a, refl)
Result-cases (err e) = inr (e, refl)

then_keeps :
    (m k : Exec ⊤) (db : Db)
    → ((d : Db) → (k d).1.transfers ≡ d.transfers)
    → ((m >> k) db).1.transfers ≡ (m db).1.transfers
then_keeps m k db keeps = elim (Result-cases (m db).0) [
  | inl (a, e) ↦ ground (arith, keeps (m db).1)
  | inr (x, e) ↦ ground arith
]

-- The end of both handlers.
abbrev finish : Transaction → ℕ → Text → Text → TransferEvent → Exec ⊤
finish x user_id title body e = do
  add_transaction x
  notify_user user_id title body (("reference", e.reference) ∷ [])

module _ (env : Env) (same : Text → Text → Bool) (e : TransferEvent) (user_id : ℕ) (db locked : Db)
    (recipient : e.user_id ≡ some user_id) (referred : truthy e.reference ≡ true)
    (lock : lock_payout (payout_of_event same e) db ≡ (ok true, locked)) where
  success_runs :
      any (recorded same is_success e.reference) locked.transactions ≡ false
      → handle_transfer_success env same e db
        ≡ (confirm env same e (find? (transfer_of_event same e) locked.transfers)
              >> finish
                  (payout_transaction e TransactionStatus.success)
                  user_id
                  (text "Payout Successful")
                  (lit "Your payout of "
                    ∷ naira e.amount
                    ∷ lit " has been processed successfully."
                    ∷ [])
                  e)
            locked
  unfolding handle_transfer_success
  success_runs new = ground arith

  failure_runs :
      any (recorded same is_failed e.reference) locked.transactions ≡ false
      → handle_transfer_failed env same e db
        ≡ (refuse env same e (find? (transfer_of_event same e) locked.transfers)
              >> finish
                  (payout_transaction e TransactionStatus.failed)
                  user_id
                  (text "Payout Failed")
                  (text "There was an issue processing your payout. Please check your details.")
                  e)
            locked
  unfolding handle_transfer_failed
  failure_runs new = ground arith

  ends_as :
      (m : Exec ⊤) (x : Transaction) (title body : Text) (outcome : Result ⊤ × Db)
      → outcome ≡ (m >> finish x user_id title body e) locked
      → outcome.1.transfers ≡ (m locked).1.transfers
  ends_as m x title body outcome runs =
      ap (λ (o : Result ⊤ × Db). o.1.transfers) runs
      ∙ then_keeps m (finish x user_id title body e) locked (λ d. refl)

  success_locked :
      locked.transfers ≡ db.transfers
      → Written same e
          (λ t. as_completed env t (some e.reference))
          db
          (handle_transfer_success env same e db).1
  unfolding handle_transfer_success
  success_locked kept =
      elim (Bool-cases (any (recorded same is_success e.reference) locked.transactions)) [
        | inl known ↦ inl (ground arith)
        | inr new ↦
            let answer = confirm env same e (find? (transfer_of_event same e) locked.transfers) in
            shift env same e (λ t. as_completed env t (some e.reference)) db locked
              (handle_transfer_success env same e db).1 kept
              (retarget same e (λ t. as_completed env t (some e.reference)) locked (answer locked).1
                (handle_transfer_success env same e db).1
                (ends_as answer _ _ _ (handle_transfer_success env same e db) (success_runs new))
                (confirm_writes env same e locked))
      ]

  failure_locked :
      locked.transfers ≡ db.transfers
      → Written same e (failed_by env e) db (handle_transfer_failed env same e db).1
  unfolding handle_transfer_failed
  failure_locked kept =
      elim (Bool-cases (any (recorded same is_failed e.reference) locked.transactions)) [
        | inl known ↦ inl (ground arith)
        | inr new ↦
            let answer = refuse env same e (find? (transfer_of_event same e) locked.transfers) in
            shift env same e (failed_by env e) db locked (handle_transfer_failed env same e db).1
              kept
              (retarget same e (failed_by env e) locked (answer locked).1
                (handle_transfer_failed env same e db).1
                (ends_as answer _ _ _ (handle_transfer_failed env same e db) (failure_runs new))
                (refuse_writes env same e locked))
      ]

module _ (env : Env) (same : Text → Text → Bool) (e : TransferEvent) (db : Db) where
  -- Whatever a transfer.success event finds, it writes at most the one PROCESSING transfer that it is
  -- about, which becomes COMPLETED.
  pub success-Written :
      Written same e
        (λ t. as_completed env t (some e.reference))
        db
        (handle_transfer_success env same e db).1
  unfolding handle_transfer_success
  success-Written = elim (Option-cases e.user_id) [
    | inl nobody ↦ inl (ground arith)
    | inr (user_id, recipient) ↦ elim (Bool-cases (truthy e.reference)) [
      | inr blank ↦ inl (ground arith)
      | inl referred ↦
          let (b, locked, lock, kept) = lock_result (payout_of_event same e) db in
          elim (Bool-cases b) [
            | inl got ↦
                success_locked env same e user_id db locked recipient referred
                  (lock ∙ ap (λ b. (ok b, locked)) got) kept
            | inr lost ↦ inl (ground arith)
          ]
    ]
  ]

  -- The same of a transfer.failed event, whose transfer becomes FAILED.
  pub failure-Written : Written same e (failed_by env e) db (handle_transfer_failed env same e db).1
  unfolding handle_transfer_failed
  failure-Written = elim (Option-cases e.user_id) [
    | inl nobody ↦ inl (ground arith)
    | inr (user_id, recipient) ↦ elim (Bool-cases (truthy e.reference)) [
      | inr blank ↦ inl (ground arith)
      | inl referred ↦
          let (b, locked, lock, kept) = lock_result (payout_of_event same e) db in
          elim (Bool-cases b) [
            | inl got ↦
                failure_locked env same e user_id db locked recipient referred
                  (lock ∙ ap (λ b. (ok b, locked)) got) kept
            | inr lost ↦ inl (ground arith)
          ]
    ]
  ]
