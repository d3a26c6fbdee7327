-- ===== src/Dispatch/Matching/Engine/Batches.antt =====
-- The batches of the ranked candidates, and the jobs that ping them.
use mathlib.Core.List.{map}
use tasker_api.Prelude.{
  ℕ, zero, suc, ◌+◌, ◌-◌, ◌*◌, ◌/◌, ◌≤◌, ◌<◌, ◌≡◌, refl, sym, ap, ◌∙◌, Bool, List, [], ◌∷◌, ◌++◌,
  ◌==◌, arith, length, take, drop, concat, range_from, All, min, length-append,
}
use tasker_api.Db.{BatchPing}
use tasker_api.Dispatch.Matching.{ScoredCandidate}
use tasker_api.Dispatch.Matching.Pinger.{user_ids}
use tasker_api.Dispatch.Matching.Engine.{batches, batch_jobs, all_batch_jobs}

module _ {A : Type 0} where
  take_nil : (n : ℕ) → take {A = A} n [] ≡ []
  take_nil zero = refl
  take_nil (suc n) = refl

  drop_nil : (n : ℕ) → drop {A = A} n [] ≡ []
  drop_nil zero = refl
  drop_nil (suc n) = refl

  take-drop : (a b : ℕ) (xs : List A) → take a xs ++ take b (drop a xs) ≡ take (a + b) xs
  take-drop zero b xs = ground arith
  take-drop (suc a) zero [] = ground arith
  take-drop (suc a) (suc b) [] = ground (arith, take_nil (suc a + suc b))
  take-drop (suc a) b (x ∷ xs) =
      let e : suc (a + b) ≡ suc a + b = omega arith in
      ap (λ ys. x ∷ ys) (take-drop a b xs) ∙ ap (λ m. take m (x ∷ xs)) e

  drop-drop : (a b : ℕ) (xs : List A) → drop b (drop a xs) ≡ drop (a + b) xs
  drop-drop zero b xs = ground arith
  drop-drop (suc a) zero [] = ground arith
  drop-drop (suc a) (suc b) [] = ground (arith, drop_nil (suc a + suc b))
  drop-drop (suc a) b (x ∷ xs) =
      let e : suc (a + b) ≡ suc a + b = omega arith in
      drop-drop a b xs ∙ ap (λ m. drop m (x ∷ xs)) e

  take_all : (n : ℕ) (xs : List A) → length xs ≤ n → take n xs ≡ xs
  take_all zero [] h = refl
  take_all zero (x ∷ xs) h = ground arith
  take_all (suc n) [] h = refl
  take_all (suc n) (x ∷ xs) h = ap (λ ys. x ∷ ys) (take_all n xs (omega (arith, h)))

  length-take : (n : ℕ) (xs : List A) → length (take n xs) ≡ min n (length xs)
  length-take zero xs = ground arith
  length-take (suc n) [] = ground arith
  length-take (suc n) (x ∷ xs) = ground (arith, length-take n xs)

  length-drop : (n : ℕ) (xs : List A) → length (drop n xs) ≡ length xs - n
  length-drop zero xs = ground arith
  length-drop (suc n) [] = ground arith
  length-drop (suc n) (x ∷ xs) = ground (arith, length-drop n xs)

  abbrev slice : ℕ → List A → ℕ → List A
  slice size xs j = take size (drop (j * size) xs)

  concat-slices :
      (size n i : ℕ) (xs : List A)
      → concat (map (slice size xs) (range_from i n)) ≡ take (n * size) (drop (i * size) xs)
  concat-slices size zero i xs = ground arith
  concat-slices size (suc n) i xs =
      let next : suc i * size ≡ i * size + size = grind arith in
      let total : suc n * size ≡ size + n * size = grind arith in
      ap (λ rest. take size (drop (i * size) xs) ++ rest)
        (concat-slices size n (suc i) xs
          ∙ ap (λ m. take (n * size) (drop m xs)) next
          ∙ ap (take (n * size)) (sym (drop-drop (i * size) size xs)))
      ∙ take-drop size (n * size) (drop (i * size) xs)
      ∙ ap (λ m. take m (drop (i * size) xs)) (sym total)

  slices_sizes :
      (size n i : ℕ) (xs : List A)
      → 1 ≤ size
      → (i + n - 1) * size < length xs
      → All (λ b. (1 ≤ length b) × (length b ≤ size)) (map (slice size xs) (range_from i n))
  slices_sizes size zero i xs h within = tt
  slices_sizes size (suc n) i xs h within =
      let start : i * size < length xs = grind arith in
      let taken = length-take size (drop (i * size) xs) in
      let left = length-drop (i * size) xs in
      ((omega arith, omega arith), slices_sizes size n (suc i) xs h (grind arith))

none_needed : (k : ℕ) → 1 ≤ k → (0 + k - 1) / k ≡ 0
none_needed k h = grind arith

covers : (n k : ℕ) → 1 ≤ k → n ≤ (n + k - 1) / k * k
covers n k h = grind arith

reaches : (n k : ℕ) → 1 ≤ k → 1 ≤ n → (0 + (n + k - 1) / k - 1) * k < n
reaches n k h some = grind arith

-- Batches of a positive size are a partition of the list into pieces of 1 to that many elements.
pub batches_lem :
    {A : Type 0} (size : ℕ) (xs : List A)
    → 1 ≤ size
    → (concat (batches size xs) ≡ xs)
      × All (λ b. (1 ≤ length b) × (length b ≤ size)) (batches size xs)
unfolding batches
batches_lem size [] h = rw (none_needed size h) (refl, tt)
batches_lem size (x ∷ xs) h =
    let n = length (x ∷ xs) in
    let count = (n + size - 1) / size in
    let start : 0 * size ≡ 0 = omega arith in
    (
      concat-slices size count 0 (x ∷ xs)
          ∙ ap (λ m. take (count * size) (drop m (x ∷ xs))) start
          ∙ take_all (count * size) (x ∷ xs) (covers n size h),
      slices_sizes size count 0 (x ∷ xs) h (reaches n size h (omega arith)),
    )

-- The sequence numbers that the jobs leave for their candidates.
abbrev pub numbers : List BatchPing → List ℕ
numbers jobs =
    concat (map (λ (j : BatchPing). range_from j.seq_start (length j.candidate_ids)) jobs)

-- The countdown of the k-th job of `total`, and whether it is the last.
abbrev pub place : ℕ → ℕ → ℕ → ℕ × Bool
place duration total k = (k * duration, k == total - 1)

abbrev pub place_of : BatchPing → ℕ × Bool
place_of j = (j.countdown, j.is_last_batch)

range_from-append : (i m n : ℕ) → range_from i m ++ range_from (i + m) n ≡ range_from i (m + n)
range_from-append i zero n = ground arith
range_from-append i (suc m) n =
    let next : i + suc m ≡ suc i + m = omega arith in
    let total : suc (m + n) ≡ suc m + n = omega arith in
    ap (λ k. i ∷ range_from (suc i) m ++ range_from k n) next
    ∙ ap (λ xs. i ∷ xs) (range_from-append (suc i) m n)
    ∙ ap (range_from i) total

user_ids-append : (xs ys : List ScoredCandidate) → user_ids (xs ++ ys) ≡ user_ids xs ++ user_ids ys
user_ids-append [] ys = refl
user_ids-append (x ∷ xs) ys = ap (λ zs. x.user_id ∷ zs) (user_ids-append xs ys)

length-user_ids : (xs : List ScoredCandidate) → length (user_ids xs) ≡ length xs
length-user_ids [] = refl
length-user_ids (x ∷ xs) = ap suc (length-user_ids xs)

module _ (session_id task_id duration total : ℕ) where
  abbrev jobs_of : ℕ → ℕ → List (List ScoredCandidate) → List BatchPing
  jobs_of i seq_start bs = batch_jobs session_id task_id duration total i seq_start bs

  jobs-ids :
      (i seq_start : ℕ) (bs : List (List ScoredCandidate))
      → concat (map (λ (j : BatchPing). j.candidate_ids) (jobs_of i seq_start bs))
        ≡ user_ids (concat bs)
  jobs-ids i seq_start [] = refl
  jobs-ids i seq_start (b ∷ bs) =
      ap (λ rest. user_ids b ++ rest) (jobs-ids (i + 1) (seq_start + length b) bs)
      ∙ sym (user_ids-append b (concat bs))

  jobs-numbers :
      (i seq_start : ℕ) (bs : List (List ScoredCandidate))
      → numbers (jobs_of i seq_start bs) ≡ range_from seq_start (length (concat bs))
  jobs-numbers i seq_start [] = refl
  jobs-numbers i seq_start (b ∷ bs) =
      rw
        (
          length-user_ids b,
          jobs-numbers (i + 1) (seq_start + length b) bs,
          length-append b (concat bs),
        )
        (range_from-append seq_start (length b) (length (concat bs)))

  jobs-places :
      (i seq_start : ℕ) (bs : List (List ScoredCandidate))
      → map place_of (jobs_of i seq_start bs)
        ≡ map (place duration total) (range_from i (length bs))
  jobs-places i seq_start [] = refl
  jobs-places i seq_start (b ∷ bs) =
      let next : i + 1 ≡ suc i = omega arith in
      ap (λ rest. place duration total i ∷ rest)
        (jobs-places (i + 1) (seq_start + length b) bs
          ∙ ap (λ m. map (place duration total) (range_from m (length bs))) next)

  jobs-sizes :
      (size i seq_start : ℕ) (bs : List (List ScoredCandidate))
      → All (λ b. (1 ≤ length b) × (length b ≤ size)) bs
      → All
          (λ (j : BatchPing). (1 ≤ length j.candidate_ids) × (length j.candidate_ids ≤ size))
          (jobs_of i seq_start bs)
  jobs-sizes size i seq_start [] all = tt
  jobs-sizes size i seq_start (b ∷ bs) all =
      (rw (length-user_ids b) all.0, jobs-sizes size (i + 1) (seq_start + length b) bs all.1)

  jobs-length :
      (i seq_start : ℕ) (bs : List (List ScoredCandidate))
      → length (jobs_of i seq_start bs) ≡ length bs
  jobs-length i seq_start [] = refl
  jobs-length i seq_start (b ∷ bs) = ap suc (jobs-length (i + 1) (seq_start + length b) bs)

-- What the jobs of a ranked list come to, in batches of 1 to `size`.
abbrev pub Offered : ℕ → ℕ → List ScoredCandidate → List BatchPing → Type 0
Offered duration size candidates jobs =
    (concat (map (λ (j : BatchPing). j.candidate_ids) jobs) ≡ user_ids candidates)
    × All (λ (j : BatchPing). (1 ≤ length j.candidate_ids) × (length j.candidate_ids ≤ size)) jobs
    × (numbers jobs ≡ range_from 1 (length candidates))
    × (map place_of jobs ≡ map (place duration (length jobs)) (range_from 0 (length jobs)))

pub all_batch_jobs-Offered :
    (session_id task_id duration size : ℕ) (candidates : List ScoredCandidate)
    → 1 ≤ size
    → Offered duration size candidates (all_batch_jobs session_id task_id duration size candidates)
all_batch_jobs-Offered session_id task_id duration size candidates h =
    let (parts, sizes) = batches_lem size candidates h in
    let bs = batches size candidates in
    let total = length bs in
    let jobs = all_batch_jobs session_id task_id duration size candidates in
    let count = jobs-length session_id task_id duration total 0 1 bs in
    (
      jobs-ids session_id task_id duration total 0 1 bs ∙ ap user_ids parts,
      jobs-sizes session_id task_id duration total size 0 1 bs sizes,
      jobs-numbers session_id task_id duration total 0 1 bs
          ∙ ap (λ xs. range_from 1 (length xs)) parts,
      jobs-places session_id task_id duration total 0 1 bs
          ∙ ap (λ n. map (place duration n) (range_from 0 n)) (sym count),
    )
