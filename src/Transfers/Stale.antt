-- ===== src/Transfers/Stale.antt =====
-- Two workers on one transfer. `process_transfer` gives up the row lock before it calls the
-- provider, the session keeps its objects after a commit (`expire_on_commit=False`), and the column
-- `version` is written and never compared. So the answer of a slow provider is applied to the copy
-- that the worker read when it claimed the row, whatever has happened to the row since.
use tasker_api.Prelude.{ℕ, ◌<◌, ◌≡◌, refl, true, Option, some, arith}
use tasker_api.Models.{Text, TransferStatus, Transfer}
use tasker_api.Table.{get}
use tasker_api.Table.Laws.{get-put_self}
use tasker_api.Db.{Db, Env}
use tasker_api.Transfers.{settle, is_processable}
use tasker_api.Transfers.Gateway.{temporary}
use tasker_api.Transfers.Outcome.{as_retrying, settle_lem}

module _ (env : Env) (id : ℕ) (held row : Transfer) (db : Db) (code : Option Text) (message : Text)
    (claimed : held.status ≡ TransferStatus.processing) where
  -- A worker that holds a claimed copy with attempts left, and whose provider call ends in a
  -- temporary error, sets the row back to RETRYING, to be attempted again, also where the
  -- reconciliation has COMPLETED it in the meantime.
  pub settle-reopens :
      held.attempt_count < held.max_attempts
      → get id db.transfers ≡ some row
      → row.status ≡ TransferStatus.completed
      → let db' = (settle env id held (temporary code message) db).1 in
        (t : Transfer) × (get id db'.transfers ≡ some t)
        × (t.status ≡ TransferStatus.retrying)
        × (is_processable t.status ≡ true)
  settle-reopens left there done =
      let (_, stored) = settle_lem env id held db claimed (temporary code message) in
      (
        as_retrying env held code (some message),
        rw (stored, get-put_self) (ground arith),
        refl,
        refl,
      )
