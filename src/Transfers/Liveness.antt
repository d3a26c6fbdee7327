-- ===== src/Transfers/Liveness.antt =====
-- Many attempts of one transfer, one after the other.
use tasker_api.Prelude.{
  ℕ, ◌+◌, ◌≤◌, ◌≡◌, ◌≢◌, true, false, Option, none, some, List, ◌∷◌, [], arith, length, inl, inr,
  Bool-cases,
}
use tasker_api.Models.{Text, TransferStatus, Transfer}
use tasker_api.Table.{get}
use tasker_api.Table.Laws.{get-put_self}
use tasker_api.Db.{Db, Env, TransferRequest}
use tasker_api.Transfers.{is_processable, process_transfer, resolve_destination}
use tasker_api.Transfers.Gateway.{TransferOutcome, succeeded}
use tasker_api.Transfers.Outcome.{as_claimed, attempted, settled}
use tasker_api.Transfers.Process.{process-skip, process-stores}
use tasker_api.Transfers.Rows.{IsSound, as_claimed-IsSound, attempted-IsSound}
use tasker_api.Transfers.Progress.{is_final}

abbrev pub Attempt : Type 0
Attempt = Env × (TransferRequest → TransferOutcome)

-- `process_transfer` once for each attempt, with its own clock and its own answer of the provider.
unfoldable pub process_all : ℕ → List Attempt → Db → Db
process_all id [] db = db
process_all id ((env, provider) ∷ rest) db =
    process_all id rest (process_transfer env provider id db).1

-- A row between two calls: not left in PROCESSING.
abbrev pub Idle : Transfer → Type 0
Idle t = t.status ≢ TransferStatus.processing

settled-Idle :
    (env : Env) (t : Transfer) (o : TransferOutcome)
    → Idle (settled env t o)
      × ((settled env t o).attempt_count ≡ t.attempt_count)
      × ((settled env t o).max_attempts ≡ t.max_attempts)
settled-Idle env t (succeeded reference) = ground arith
settled-Idle env t o = ground arith

attempted-Idle :
    (env : Env) (provider : TransferRequest → TransferOutcome) (id : ℕ) (t : Transfer)
    (destination : Option Text)
    → let t' = attempted env provider id t destination in
      Idle t' × (t'.attempt_count ≡ t.attempt_count) × (t'.max_attempts ≡ t.max_attempts)
attempted-Idle env provider id t none = ground arith
attempted-Idle env provider id t (some destination) = settled-Idle env t _

idle_final :
    (s : TransferStatus)
    → s ≢ TransferStatus.processing
    → is_processable s ≡ false
    → is_final s ≡ true
idle_final s idle cannot = ground arith

abbrev pub EndsFinal : ℕ → Db → Type 0
EndsFinal id db = (t : Transfer) × (get id db.transfers ≡ some t) × (is_final t.status ≡ true)

final_skips : (s : TransferStatus) → is_final s ≡ true → is_processable s ≡ false
final_skips s h = ground arith

stays_final :
    (id : ℕ) (attempts : List Attempt) (t : Transfer) (db : Db)
    → get id db.transfers ≡ some t
    → is_final t.status ≡ true
    → EndsFinal id (process_all id attempts db)
unfolding process_all
stays_final id [] t db there final = (t, there, final)
stays_final id ((env, provider) ∷ rest) t db there final =
    rw (process-skip env id t db there provider (final_skips t.status final), process_all)
      (stays_final id rest t db there final)

no_attempt_left :
    (id : ℕ) (t : Transfer)
    → IsSound id t
    → t.max_attempts ≤ t.attempt_count
    → is_processable t.status ≡ false
no_attempt_left id t sound spent = elim (Bool-cases (is_processable t.status)) [
  | inl can ↦ absurd (omega (arith, sound.attempt_left can))
  | inr cannot ↦ cannot
]

-- A transfer that is not left in PROCESSING is in a final state after as many attempts as it has
-- left, whatever the provider answers each time, if its row is sound to begin with.
pub process_all_final :
    (id : ℕ) (attempts : List Attempt) (t : Transfer) (db : Db)
    → get id db.transfers ≡ some t
    → IsSound id t
    → Idle t
    → t.max_attempts ≤ t.attempt_count + length attempts
    → EndsFinal id (process_all id attempts db)
unfolding process_all
process_all_final id [] t db there sound idle enough =
    (t, there, idle_final t.status idle (no_attempt_left id t sound (omega arith)))
process_all_final id ((env, provider) ∷ rest) t db there sound idle enough =
    elim (Bool-cases (is_processable t.status)) [
      | inl can ↦
          let d = resolve_destination t.user_id db in
          let c = as_claimed env t in
          let t' = attempted env provider id c d in
          let (idle', count, limit) = attempted-Idle env provider id c d in
          process_all_final id rest t' (process_transfer env provider id db).1
            (rw (process-stores env provider id t db there can) (get-put_self id t' db.transfers))
            (attempted-IsSound env id c (as_claimed-IsSound env id t sound can) provider d) idle'
            (omega arith)
      | inr cannot ↦
          rw (process-skip env id t db there provider cannot, process_all)
            (stays_final id rest t db there (idle_final t.status idle cannot))
    ]
