-- ===== src/Credibility.antt =====
-- app/features/credibility/credibility_service.py: the append-only ledger of score changes.
use tasker_api.Prelude.{is_zero, ℕ, Option, none, some, if◌then◌else◌}
use tasker_api.Models.{CredibilityReason, credibility_delta, CredibilityLedgerEntry}
use tasker_api.Db.{sync_user_credibility_score, append}
use tasker_api.Db.Exec.{Exec, pure, ◌>>◌, modify}

-- `CredibilityService.add`: nothing for a reason that changes no score; otherwise an entry, and a
-- job that recomputes the user's score.
unfoldable pub add : ℕ → CredibilityReason → Option ℕ → Exec (Option CredibilityLedgerEntry)
unfolding credibility_delta
add user_id reason task_id =
    let delta = credibility_delta reason in
    if is_zero delta then pure none else do
      let entry : CredibilityLedgerEntry = record {
        user_id = user_id;
        delta = delta;
        reason = reason;
        task_id = task_id;
      }
      modify (λ db. record db {
        ledger = append db.ledger entry;
        jobs = append db.jobs (sync_user_credibility_score user_id);
      })
      pure (some entry)
