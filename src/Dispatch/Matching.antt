-- ===== src/Dispatch/Matching.antt =====
-- The search for candidates and their scores: `CandidateFetcher` and `CandidateScorer` of
-- app/core/services/matching_engine.py. What the join of the users' tables gives, with the distances
-- that PostGIS computes, is the parameter `Search`; the query's conditions, order and limit are
-- below. Distances, radii, rates and scores are in hundredths, as exact numbers.
pub mod Ranking
pub mod Pinger
pub mod Engine
use tasker_api.Prelude.{
  round_ℕ, round_ℤ, times, ℕ, zero, suc, ◌+◌, ◌-◌, ◌*◌, ◌/◌, ◌%◌, max, ℤ, pos, negsuc, ◌+ℤ◌, ◌-ℤ◌,
  ltb_ℤ, ltb, leb, Bool, true, false, ◌&&◌, ◌||◌, not, Option, none, some, List, [], ◌∷◌, ◌++◌,
  ◌==◌, any, take, filter, is_id, is_some, get_or, if◌then◌else◌,
}
use mathlib.Core.List.{map}
use tasker_api.Models.{DispatchSession, TaskDispatchAttempt, Task, DutyStatus}
use tasker_api.Table.{Table, select_where}
use tasker_api.Db.{Db}
use tasker_api.Dispatch.Policy.{default_batch_size}

-- A row of the join: a provider's location (its distance to the task in metres, if it is known),
-- account, profile, link to a service, and statistics.
pub record Nearby : Type 0 where
  pub provider_id : ℕ
  pub distance_m : Option ℕ
  pub is_active : Bool
  pub is_verified : Bool
  pub is_online : Bool
  pub duty_status : Option DutyStatus
  pub service_id : ℕ
  pub current_tier : Option ℕ
  pub min_tier_required : ℕ
  pub acceptance_rate : Option ℤ
  pub average_ratings : Option ℤ
  pub credibility_score : Option ℤ

-- What a search reads: whether `validate_task` finds a location of the task with coordinates, and
-- the rows.
pub record Search : Type 0 where
  pub located : Bool
  pub rows : List Nearby

-- `NearbyProviderResult`, with the fields that the scores need.
pub record NearbyProviderResult : Type 0 where
  pub provider_id : ℕ
  pub distance_km : ℕ
  pub acceptance_rate_30d : ℤ
  pub average_ratings : ℤ
  pub credibility_score : ℤ

pub record ScoredCandidate : Type 0 where
  pub user_id : ℕ
  pub distance_km : ℕ
  pub score : ℤ

-- `dispatch_session.search_radius_km`, or 10 km.
abbrev pub radius_of : DispatchSession → ℕ
radius_of s = get_or s.search_radius 1000

-- `max(1, dispatch_session.batch_size or BATCH_SIZE)`
abbrev pub batch_size_of : DispatchSession → ℕ
batch_size_of s = max 1 (if s.batch_size == 0 then default_batch_size else s.batch_size)

abbrev is_available : Option DutyStatus → Bool
is_available (some DutyStatus.online_available) = true
is_available _ = false

abbrev within : ℕ → Option ℕ → Bool
within radius none = false
within radius (some d) = leb d (radius * 10)

-- The conditions of the query on the provider.
abbrev pub is_eligible : ℕ → ℕ → Nearby → Bool
is_eligible service_id radius n =
    n.is_active
    && n.is_verified
    && n.is_online
    && is_available n.duty_status
    && (n.service_id == service_id)
    && leb n.min_tier_required (get_or n.current_tier 1)
    && within radius n.distance_m

-- The subquery of NOT EXISTS: the pings of the task to the provider, of this session only if earlier
-- sessions count no more.
abbrev pub was_pinged : Bool → ℕ → ℕ → ℕ → ℕ → TaskDispatchAttempt → Bool
was_pinged exclude_previous_sessions session_id task_id provider_id _ a =
    (a.task_id == task_id)
    && (a.provider_id == provider_id)
    && (exclude_previous_sessions || is_id a.dispatch_session_id session_id)

abbrev pub exists_row : {A : Type 0} → (ℕ → A → Bool) → Table A → Bool
exists_row p t = any (λ (row : ℕ × _). p row.0 row.1) t

-- `ORDER BY` the distance; rows at the same distance stay as they come.
abbrev metres : Nearby → ℕ
metres n = get_or n.distance_m 0

abbrev pub insert_by_distance : Nearby → List Nearby → List Nearby
insert_by_distance n [] = n ∷ []
insert_by_distance n (m ∷ rest) =
    let inserted = insert_by_distance n rest in
    if ltb (metres m) (metres n) then m ∷ inserted else n ∷ m ∷ rest

abbrev pub order_by_distance : List Nearby → List Nearby
order_by_distance [] = []
order_by_distance (n ∷ rest) = insert_by_distance n (order_by_distance rest)

abbrev pub nearby_result : Nearby → NearbyProviderResult
nearby_result n = record {
  provider_id = n.provider_id;
  distance_km = round_ℕ (metres n) 10;
  acceptance_rate_30d = get_or n.acceptance_rate (pos 10000);
  average_ratings = get_or n.average_ratings (pos 0);
  credibility_score = get_or n.credibility_score (pos 0);
}

abbrev pub is_candidate : Bool → List ℕ → ℕ → ℕ → ℕ → ℕ → Db → Nearby → Bool
is_candidate exclude_previous_sessions excluded session_id task_id service_id radius db n =
    is_eligible service_id radius n
    && not (
        exists_row (was_pinged exclude_previous_sessions session_id task_id n.provider_id)
          db.attempts)
    && not (any (λ id. id == n.provider_id) excluded)

-- `CandidateFetcher.fetch`
unfoldable pub fetch :
    Bool → ℕ → List ℕ → ℕ → DispatchSession → ℕ → Task → Search → Db → List NearbyProviderResult
fetch exclude_previous_sessions pool_size excluded session_id s task_id t search db =
    elim t.service_id [
      | none ↦ []
      | some service_id ↦
          if search.located
          then map nearby_result (
              take pool_size (
                order_by_distance (
                  filter
                    (is_candidate exclude_previous_sessions excluded session_id task_id service_id
                      (radius_of s) db)
                    search.rows)))
          else []
    ]

-- `round(score_val, 2)`, where the score is
-- 0.30 * rate + 0.25 * rating * 20 + 0.25 * credibility - 0.20 * (distance / radius * 100).
abbrev pub score_of : ℕ → NearbyProviderResult → ℤ
score_of radius c =
    let merits =
      times 6 c.acceptance_rate_30d +ℤ times 100 c.average_ratings +ℤ times 5 c.credibility_score in
    if radius == 0
    then round_ℤ merits 20
    else round_ℤ (times radius merits -ℤ pos (40000 * c.distance_km)) (20 * radius)

abbrev pub scored : ℕ → NearbyProviderResult → ScoredCandidate
scored radius c = record {
  user_id = c.provider_id;
  distance_km = c.distance_km;
  score = score_of radius c;
}

-- `scored.sort(key=lambda item: item.score, reverse=True)`, which is stable.
abbrev pub insert_by_score : ScoredCandidate → List ScoredCandidate → List ScoredCandidate
insert_by_score c [] = c ∷ []
insert_by_score c (d ∷ rest) =
    let inserted = insert_by_score c rest in
    if ltb_ℤ c.score d.score then d ∷ inserted else c ∷ d ∷ rest

unfoldable pub sort_by_score : List ScoredCandidate → List ScoredCandidate
sort_by_score [] = []
sort_by_score (c ∷ rest) = insert_by_score c (sort_by_score rest)

-- `CandidateScorer.score`
unfoldable pub score : ℕ → List NearbyProviderResult → List ScoredCandidate
unfolding sort_by_score
score radius candidates = sort_by_score (map (scored radius) candidates)
