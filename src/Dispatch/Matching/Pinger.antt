-- ===== src/Dispatch/Matching/Pinger.antt =====
-- The pings of a batch of candidates: `CandidatePinger` of app/core/services/matching_engine.py.
pub mod Exclusive
use mathlib.Core.List.{map}
use tasker_api.Prelude.{
  ℕ, zero, suc, ◌+◌, ◌*◌, ◌/◌, ◌%◌, ℤ, pos, ltb_ℤ, ltb, leb, ⊤, Bool, true, false, ◌&&◌, not,
  Option, none, some, String, List, [], ◌∷◌, ◌++◌, ◌==◌, any, is_id, get_or, if◌then◌else◌,
}
use tasker_api.Models.{
  Text, lit, shown, naira, text, Task, DispatchAttemptStatus, TaskDispatchAttempt, DutyStatus,
  ProviderProfile,
}
use tasker_api.Table.{Table, put, find?, select_where, update_where}
use tasker_api.Db.{Db, Env}
use tasker_api.Db.Exec.{Exec, pure, gets, ◌>>=◌, ◌>>◌, modify, when}
use tasker_api.Dispatch.{notify}
use tasker_api.Dispatch.Lifecycle.{second, profile_of}
use tasker_api.Dispatch.Ping.{is_pending}
use tasker_api.Dispatch.Matching.{ScoredCandidate, exists_row}

abbrev pub is_online_available : Option DutyStatus → Bool
is_online_available (some DutyStatus.online_available) = true
is_online_available _ = false

abbrev pub is_on_dispatch : Option DutyStatus → Bool
is_on_dispatch (some DutyStatus.on_dispatch) = true
is_on_dispatch _ = false

abbrev pub is_in : List ℕ → ℕ → Bool
is_in ids id = any (λ other. other == id) ids

abbrev is_past : ℕ → Option ℕ → Bool
is_past now none = false
is_past now (some time) = leb time now

-- The pending pings of a task whose time is over.
abbrev pub is_stale_ping : ℕ → ℕ → ℕ → TaskDispatchAttempt → Bool
is_stale_ping task_id now _ a =
    (a.task_id == task_id) && is_pending a.status && is_past now a.expires_at

abbrev pub set_duty_of : (ProviderProfile → Bool) → DutyStatus → Exec ⊤
set_duty_of p duty = modify (λ db. record db {
  profiles = update_where (λ _. p) (λ q. record q { duty_status = some duty }) db.profiles;
})

-- `recover_stale_attempts`; it returns whether it found any, in which case it commits.
unfoldable pub recover_stale_attempts : Env → ℕ → Exec Bool
recover_stale_attempts env task_id = do
  stale ← gets (λ db. select_where (is_stale_ping task_id env.now) db.attempts)
  modify (λ db. record db {
    attempts =
        update_where (is_stale_ping task_id env.now)
          (λ a. record a {
            status = some DispatchAttemptStatus.timeout;
            responded_at = some env.now;
          })
          db.attempts;
  })
  elim stale [
    | [] ↦ pure false
    | row ∷ rows ↦ do
      let ids = map (λ (r : ℕ × TaskDispatchAttempt). r.1.provider_id) (row ∷ rows)
      set_duty_of (λ p. is_in ids p.user_id && is_on_dispatch p.duty_status)
          DutyStatus.online_available
      pure true
  ]

-- The attempt of a ping.
abbrev pub ping : Env → ℕ → ℕ → ℤ → ℕ → ScoredCandidate → ℕ → TaskDispatchAttempt
ping env session_id task_id payout duration c sequence = record {
  dispatch_session_id = some session_id;
  task_id = task_id;
  provider_id = c.user_id;
  sequence_order = some sequence;
  match_score = some c.score;
  offered_payout = some payout;
  pinged_at = some env.now;
  expires_at = some (env.now + duration * second);
  responded_at = none;
  status = some DispatchAttemptStatus.pending;
}

-- The providers among `ids` whom the update to ON_DISPATCH takes.
abbrev pub may_take : List ℕ → ProviderProfile → Bool
may_take ids p = is_in ids p.user_id && is_online_available p.duty_status

abbrev pub is_free : Db → ℕ → Bool
is_free db id =
    exists_row (λ _ (p : ProviderProfile). (p.user_id == id) && is_online_available p.duty_status)
      db.profiles

abbrev pub payout_of : Task → ℤ
payout_of t = get_or t.provider_payout (pos 0)

-- `ping_candidate`
unfoldable pub ping_candidate :
    Env → ℕ → ScoredCandidate → ℕ → Task → ℕ → ℕ → Exec (Option TaskDispatchAttempt)
ping_candidate env ping_duration c task_id t session_id sequence_order = do
  free ← gets (λ db. is_free db c.user_id)
  if not free then pure none else do
    set_duty_of (may_take (c.user_id ∷ [])) DutyStatus.on_dispatch
    let attempt = ping env session_id task_id (payout_of t) ping_duration c sequence_order
    modify (λ db. record db { attempts = put (env.fresh 0) attempt db.attempts })
    pure (some attempt)

abbrev time_text : ℕ → Text
time_text duration =
    if leb 60 duration && duration % 60 == 0
    then (if duration / 60 == 1
        then shown (duration / 60) ∷ lit " minute" ∷ []
        else shown (duration / 60) ∷ lit " minutes" ∷ [])
    else shown duration ∷ lit " seconds" ∷ []

-- `send_batch_notification`; the ISO text of the time is kept as the number.
abbrev pub send_batch_notification : Env → ℕ → List ℕ → ℕ → Task → ℕ → Exec ⊤
send_batch_notification env duration ids task_id t session_id = notify (record {
  recepients = ids;
  title = text "New Task Offer";
  body =
      lit "You have a new task offer '" ∷ t.title
      ++ lit "' for "
        ∷ (if ltb_ℤ (pos 0) (payout_of t) then naira (payout_of t) else lit "offered price")
        ∷ lit ". Tap to respond within "
        ∷ time_text duration
      ++ text "!";
  channels = "PUSH" ∷ "IN_APP" ∷ [];
  payload =
      ("task_id", shown task_id ∷ [])
      ∷ ("dispatch_session_id", shown session_id ∷ [])
      ∷ ("offered_payout", naira (payout_of t) ∷ [])
      ∷ ("expires_at", shown (env.now + duration * second) ∷ [])
      ∷ ("type", text "JOB_PING")
      ∷ [];
})

-- The attempts of the candidates who were free, numbered from `sequence`; `i` counts them.
abbrev pub pings :
    Env → ℕ → ℕ → ℤ → ℕ → (ℕ → Bool) → ℕ → ℕ → List ScoredCandidate → Table TaskDispatchAttempt
pings env session_id task_id payout duration free seq_start i [] = []
pings env session_id task_id payout duration free seq_start i (c ∷ rest) =
    let after = pings env session_id task_id payout duration free seq_start (suc i) rest in
    let lost = pings env session_id task_id payout duration free seq_start i rest in
    if free c.user_id
    then (env.fresh i, ping env session_id task_id payout duration c (seq_start + i)) ∷ after
    else lost

abbrev pub put_all :
    Table TaskDispatchAttempt → Table TaskDispatchAttempt → Table TaskDispatchAttempt
put_all [] t = t
put_all ((id, a) ∷ rest) t = put_all rest (put id a t)

abbrev pub user_ids : List ScoredCandidate → List ℕ
user_ids batch = map (λ (c : ScoredCandidate). c.user_id) batch

abbrev pub pinged_ids : Table TaskDispatchAttempt → List ℕ
pinged_ids attempts = map (λ (row : ℕ × TaskDispatchAttempt). row.1.provider_id) attempts

-- The end of `ping_batch`: the attempts are stored and announced.
abbrev pub send_pings :
    Env → ℕ → ℕ → Task → ℕ → Table TaskDispatchAttempt → Exec (Table TaskDispatchAttempt)
send_pings env duration task_id t session_id [] = pure []
send_pings env duration task_id t session_id (row ∷ rows) = do
  modify (λ db. record db { attempts = put_all (row ∷ rows) db.attempts })
  send_batch_notification env duration (pinged_ids (row ∷ rows)) task_id t session_id
  pure (row ∷ rows)

-- `ping_batch`
unfoldable pub ping_batch :
    Env → ℕ → List ScoredCandidate → ℕ → Task → ℕ → ℕ → Exec (Table TaskDispatchAttempt)
ping_batch env duration batch task_id t session_id seq_start = do
  free ← gets is_free
  set_duty_of (may_take (user_ids batch)) DutyStatus.on_dispatch
  send_pings env duration task_id t session_id
      (pings env session_id task_id (payout_of t) duration free seq_start 0 batch)
