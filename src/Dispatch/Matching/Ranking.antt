-- ===== src/Dispatch/Matching/Ranking.antt =====
-- The order of the scored candidates.
use tasker_api.Prelude.{
  ℕ, ℤ, pos, ◌+ℤ◌, ◌-ℤ◌, ◌*◌, ◌==◌, times, round_ℤ, if◌then◌else◌, leb_ℤ, ◌≤ℤ◌, Bool, ◌&&◌, List,
  [], ◌∷◌, All,
}
use tasker_api.Dispatch.Matching.{NearbyProviderResult, ScoredCandidate, score}

-- Nobody stands before a candidate with a higher score.
abbrev pub Descending : List ScoredCandidate → Type 0
Descending [] = Unit
Descending (c ∷ rest) = All (λ d. d.score ≤ℤ c.score) rest × Descending rest

abbrev pub has_score : ℤ → ScoredCandidate → Bool
has_score s c = leb_ℤ s c.score && leb_ℤ c.score s

-- A candidate with the score 0.30 * rate + 0.25 * rating * 20 + 0.25 * credibility
-- - 0.20 * (distance / radius * 100), in hundredths and rounded to the nearest one; a radius of 0 takes
-- nothing off.
abbrev pub graded : ℕ → NearbyProviderResult → ScoredCandidate
graded radius c = record {
  user_id = c.provider_id;
  distance_km = c.distance_km;
  score =
      if radius == 0
      then round_ℤ
          (times 6 c.acceptance_rate_30d
            +ℤ times 100 c.average_ratings
            +ℤ times 5 c.credibility_score)
          20
      else round_ℤ
          (times radius (
              times 6 c.acceptance_rate_30d
              +ℤ times 100 c.average_ratings
              +ℤ times 5 c.credibility_score)
            -ℤ pos (40000 * c.distance_km))
          (20 * radius);
}
