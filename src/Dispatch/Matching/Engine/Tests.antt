-- ===== src/Dispatch/Matching/Engine/Tests.antt =====
-- Runs of the matching engine on a small database, at which the theorems apply.
use mathlib.Core.Option
use mathlib.Core.List.{map}
use tasker_api.Prelude.{
  ℕ, ℤ, pos, ◌-ℤ◌, ◌+ℤ◌, ◌≡◌, refl, true, false, none, some, List, [], ◌∷◌, All, filter, length,
  range_from, if◌then◌else◌,
}
use tasker_api.Models.{
  Task, TaskStatus, DutyStatus, ProviderProfile, DispatchSession, DispatchSessionStatus,
  TaskDispatchAttempt,
}
use tasker_api.Table.{get, select_where, update_where}
use tasker_api.Db.{Db, empty_db, BatchPing}
use tasker_api.Db.Exec.{ok}
use tasker_api.Dispatch.Tests.{test_env, task_in, test_session}
use tasker_api.Dispatch.Redispatch.{ended, unmatched as unmatched_task}
use tasker_api.Dispatch.Matching.{Nearby, Search, ScoredCandidate, fetch, score}
use tasker_api.Dispatch.Matching.Pinger.{user_ids, pinged_ids, pings, is_free, is_in, ping_batch}
use tasker_api.Dispatch.Matching.Pinger.Exclusive.{
  can_ping, is_pinged, offers_to, stored, ping_batch_lem, ping_batch-twice, busy,
}
use tasker_api.Dispatch.Matching.Engine.{execute_engine, with_jobs}
use tasker_api.Dispatch.Matching.Engine.Batches.{Offered}
use tasker_api.Dispatch.Matching.Engine.Repeats.{
  Matches, matched_run-Offered, ended_reason, ended_run-unmatches, jobs,
}

abbrev near : ℕ → ℕ → ℤ → Nearby
near id metres rating = record {
  provider_id = id;
  distance_m = some metres;
  is_active = true;
  is_verified = true;
  is_online = true;
  duty_status = some DutyStatus.online_available;
  service_id = 2;
  current_tier = some 4;
  min_tier_required = 4;
  acceptance_rate = none;
  average_ratings = some rating;
  credibility_score = some (pos 2500);
}

-- Three providers in reach, and one who is not.
abbrev test_search : Search
test_search = record {
  located = true;
  rows =
      near 21 900 (pos 300)
      ∷ near 22 1500 (pos 480)
      ∷ near 23 400 (pos 300)
      ∷ near 24 10001 (pos 500)
      ∷ [];
}

abbrev wanted : Task
wanted = record (task_in TaskStatus.searching none) { service_id = some 2 }

abbrev pair_session : DispatchSession
pair_session = record test_session { batch_size = 2 }

abbrev profile : ℕ → DutyStatus → ProviderProfile
profile id duty = record { user_id = id; first_name = none; duty_status = some duty }

abbrev db_wanted : Db
db_wanted = record empty_db {
  tasks = (6, wanted) ∷ [];
  sessions = (4, pair_session) ∷ [];
  profiles =
      (31, profile 21 DutyStatus.online_available)
      ∷ (32, profile 22 DutyStatus.on_task)
      ∷ (33, profile 23 DutyStatus.online_available)
      ∷ [];
}

abbrev of_score : ℕ → ℕ → ℤ → ScoredCandidate
of_score id distance points = record { user_id = id; distance_km = distance; score = points }

-- The rating counts for more than the distance here, and distance decides between equals.
abbrev first_choice : ScoredCandidate
first_choice = of_score 22 150 (pos 5725)

abbrev others : List ScoredCandidate
others = of_score 23 40 (pos 5045) ∷ of_score 21 90 (pos 4945) ∷ []

abbrev MatchesWanted : Type 0
MatchesWanted =
    Matches test_env test_search false [] 4 pair_session wanted first_choice others db_wanted

wanted-Matches : MatchesWanted
unfolding get select_where fetch score update_where ◌-ℤ◌ ◌+ℤ◌
wanted-Matches = (refl, refl, refl, refl, refl)

abbrev wanted_jobs : List BatchPing
wanted_jobs = jobs test_env test_search false [] 4 pair_session wanted first_choice others

matched_run-Offered_example :
    (execute_engine test_env test_search false [] 4 db_wanted
      ≡ (ok true, with_jobs wanted_jobs db_wanted))
    × Offered 540 2 (first_choice ∷ others) wanted_jobs
matched_run-Offered_example =
    matched_run-Offered test_env test_search false [] 4 pair_session wanted first_choice others
      db_wanted wanted-Matches

-- The session of a task that was accepted after its last automatic retry.
abbrev accepted_task : Task
accepted_task = task_in TaskStatus.assigned (some 5)

abbrev accepted_session : DispatchSession
accepted_session = record test_session { status = DispatchSessionStatus.assigned }

abbrev db_accepted : Db
db_accepted = record empty_db {
  tasks = (6, accepted_task) ∷ [];
  sessions = (4, accepted_session) ∷ [];
}

session_there : get 4 db_accepted.sessions ≡ some accepted_session
unfolding get
session_there = refl

task_there : get 6 db_accepted.tasks ≡ some accepted_task
unfolding get
task_there = refl

-- The assigned task is lost.
assigned_task_lost : (unmatched_task test_env accepted_task).status ≡ TaskStatus.no_match
assigned_task_lost = refl

ended_run-unmatches_example :
    let (r, db') = execute_engine test_env test_search false [] 4 db_accepted in
    (r ≡ ok false)
    × (get 6 db'.tasks ≡ some (unmatched_task test_env accepted_task))
    × (get 4 db'.sessions
        ≡ some (
            ended test_env accepted_task
              (some (ended_reason test_env test_search false [] 4 accepted_session db_accepted))
              accepted_session))
ended_run-unmatches_example =
    ended_run-unmatches test_env test_search false [] 4 accepted_session db_accepted accepted_task
      session_there refl task_there

abbrev batch : List ScoredCandidate
batch = first_choice ∷ others

abbrev pinged : Db
pinged = (ping_batch test_env 540 batch 6 wanted 4 1 db_wanted).1

ping_batch_lem_example :
    let (r, db') = ping_batch test_env 540 batch 6 wanted 4 1 db_wanted in
    let offers = pings test_env 4 6 (pos 0) 540 (is_free db_wanted) 1 0 batch in
    (r ≡ ok offers)
    × (offers
        ≡ offers_to test_env 4 6 (pos 0) 540 1 0 (filter (λ c. can_ping db_wanted c.user_id) batch))
    × (db'.attempts ≡ stored offers db_wanted.attempts)
    × (pinged_ids offers ≡ filter (can_ping db_wanted) (user_ids batch))
    × (map (λ (row : ℕ × TaskDispatchAttempt). row.1.sequence_order) offers
        ≡ map some (range_from 1 (length offers)))
    × ((k : ℕ)
        → get k db'.profiles
          ≡ Option.map (λ p. if is_pinged batch p then busy p else p) (get k db_wanted.profiles))
    × ((id : ℕ) → is_in (user_ids batch) id ≡ true → can_ping db' id ≡ false)
ping_batch_lem_example = ping_batch_lem test_env 540 batch 6 wanted 4 1 db_wanted

others_known : All (λ (c : ScoredCandidate). is_in (user_ids batch) c.user_id ≡ true) others
others_known = (refl, (refl, tt))

ping_batch-twice_example : ping_batch test_env 540 others 7 wanted 5 1 pinged ≡ (ok [], pinged)
ping_batch-twice_example =
    ping_batch-twice test_env 540 batch 6 wanted 4 1 db_wanted others others_known test_env 540 7
      wanted 5 1
