-- ===== src/Transfers/Create.antt =====
-- `create_transfer`: one transfer for each payout.
use tasker_api.Prelude.{
  ℕ, ℤ, ◌≤◌, ◌≡◌, none, some, ◌∷◌, [], arith, inl, inr, Option-cases, ==_refl, ◌==◌, Bool-cases,
  subst, ==_sound,
}
use tasker_api.Models.{Text, lit, shown, TransferStatus, Transfer}
use tasker_api.Table.{get, put, find?, count_where}
use tasker_api.Table.Counts.{count_where-put_new, count_where-none}
use tasker_api.Table.Laws.{find?-put_new}
use tasker_api.Db.{Db, Env}
use tasker_api.Db.Exec.{Result, ok}
use tasker_api.Transfers.{create_transfer, for_payout}

-- The row that `create_transfer` adds.
abbrev pub new_transfer : Env → ℕ → ℕ → ℕ → ℤ → Text → Transfer
new_transfer env payout_id task_id user_id amount currency = record {
  task_id = some task_id;
  payout_id = some payout_id;
  user_id = some user_id;
  amount = amount;
  currency = currency;
  status = TransferStatus.pending;
  attempt_count = 0;
  max_attempts = 10;
  provider_transfer_id = none;
  idempotency_key = lit "transfer:" ∷ shown (env.fresh 0) ∷ [];
  next_retry_at = none;
  last_attempt_at = none;
  completed_at = none;
  failed_at = none;
  failure_code = none;
  failure_reason = none;
  version = 0;
  updated_at = env.now;
}

module _ (env : Env) (payout_id task_id user_id : ℕ) (amount : ℤ) (currency : Text) (db : Db) where
  abbrev create : Result (ℕ × Transfer) × Db
  create = create_transfer env payout_id task_id user_id amount currency db

  -- A payout that has a transfer gets no second one: the call returns the one that is there and
  -- changes nothing.
  pub create_transfer-existing :
      (id : ℕ) (t : Transfer)
      → find? (for_payout payout_id) db.transfers ≡ some (id, t)
      → create ≡ (ok (id, t), db)
  unfolding create_transfer
  create_transfer-existing id t e = ground arith

  pub create_transfer-new :
      find? (for_payout payout_id) db.transfers ≡ none
      → let t = new_transfer env payout_id task_id user_id amount currency in
        create ≡ (ok (env.fresh 0, t), record db { transfers = put (env.fresh 0) t db.transfers })
  unfolding create_transfer
  create_transfer-new e = ground arith

module _ (env : Env) (payout_id task_id user_id : ℕ) (amount : ℤ) (currency : Text) (db : Db) where
  -- A second call for a payout, whatever its other arguments, returns the transfer of the first and
  -- changes nothing, if the id that the first call generated was not in use.
  pub create_transfer_twice :
      (env' : Env) (task_id' user_id' : ℕ) (amount' : ℤ) (currency' : Text)
      → get (env.fresh 0) db.transfers ≡ none
      → let (r, db') = create_transfer env payout_id task_id user_id amount currency db in
        create_transfer env' payout_id task_id' user_id' amount' currency' db' ≡ (r, db')
  create_transfer_twice env' task_id' user_id' amount' currency' unused =
      elim (Option-cases (find? (for_payout payout_id) db.transfers)) [
        | inl e ↦ rw (create_transfer-new env payout_id task_id user_id amount currency db e) (
            create_transfer-existing env' payout_id task_id' user_id' amount' currency' _ _ _
              (find?-put_new (for_payout payout_id) _ _ db.transfers e unused (==_refl payout_id)))
        | inr ((id, t), e) ↦
            rw (create_transfer-existing env payout_id task_id user_id amount currency db id t e) (
              create_transfer-existing env' payout_id task_id' user_id' amount' currency' db id t e)
      ]

  new_at_most_once :
      find? (for_payout payout_id) db.transfers ≡ none
      → get (env.fresh 0) db.transfers ≡ none
      → ((p : ℕ) → count_where (for_payout p) db.transfers ≤ 1)
      → (p : ℕ)
      → let t = new_transfer env payout_id task_id user_id amount currency in
        count_where (for_payout p) (put (env.fresh 0) t db.transfers) ≤ 1
  new_at_most_once e unused unique p =
      let t = new_transfer env payout_id task_id user_id amount currency in
      elim (Bool-cases (payout_id == p)) [
        | inl own ↦ ground (
          arith,
          count_where-put_new (for_payout p) _ t _ unused,
          subst (λ q. count_where (for_payout q) db.transfers ≡ 0) (==_sound payout_id p own)
              (count_where-none (for_payout payout_id) db.transfers e),
        )
        | inr other ↦ ground (arith, count_where-put_new (for_payout p) _ t _ unused, unique p)
      ]

  -- If every payout has at most one transfer, and the new id is not taken, that holds after the call
  -- too.
  pub create_transfer_unique :
      get (env.fresh 0) db.transfers ≡ none
      → ((p : ℕ) → count_where (for_payout p) db.transfers ≤ 1)
      → (p : ℕ)
      → count_where
          (for_payout p)
          (create_transfer env payout_id task_id user_id amount currency db).1.transfers
        ≤ 1
  create_transfer_unique unused unique p =
      elim (Option-cases (find? (for_payout payout_id) db.transfers)) [
        | inl e ↦
            rw (create_transfer-new env payout_id task_id user_id amount currency db e)
              (new_at_most_once e unused unique p)
        | inr ((id, t), e) ↦
            rw (create_transfer-existing env payout_id task_id user_id amount currency db id t e)
              (unique p)
      ]
