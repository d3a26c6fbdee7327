-- ===== src/Dispatch/Matching/Pinger/Exclusive.antt =====
-- Whom a batch of pings reaches, and that it reaches nobody twice.
use mathlib.Core.Option
use mathlib.Core.List.{map}
use tasker_api.Prelude.{
  ℕ, ℤ, ==_sound, suc, ◌+◌, ◌*◌, pos, get_or, none, ◌≡◌, refl, sym, ap, ◌∙◌, Bool, true, false,
  ◌&&◌, some, Option, any, List, [], ◌∷◌, ◌==◌, arith, All, filter, length, range_from,
  if◌then◌else◌, Bool-cases, inl, inr, ==_refl,
}
use tasker_api.Models.{
  Task, DutyStatus, DispatchAttemptStatus, TaskDispatchAttempt, ProviderProfile,
}
use tasker_api.Table.{Table, put, update_where, get}
use tasker_api.Table.Laws.{get-update_where}
use tasker_api.Db.{Db, Env}
use tasker_api.Db.Exec.{ok}
use tasker_api.Dispatch.Matching.{ScoredCandidate, exists_row}
use tasker_api.Dispatch.Matching.Pinger.{
  send_pings, put_all, is_in, is_online_available, may_take, is_free, pings, user_ids, pinged_ids,
  ping_batch, payout_of,
}

abbrev pub busy : ProviderProfile → ProviderProfile
busy p = record p { duty_status = some DutyStatus.on_dispatch }

abbrev taken : List ℕ → Table ProviderProfile → Table ProviderProfile
taken ids t = update_where (λ _. may_take ids) busy t

abbrev free_in : ℕ → Table ProviderProfile → Bool
free_in id t =
    exists_row (λ _ (p : ProviderProfile). (p.user_id == id) && is_online_available p.duty_status) t

free_in-taken :
    (ids : List ℕ) (id : ℕ) (t : Table ProviderProfile)
    → is_in ids id ≡ true
    → free_in id (taken ids t) ≡ false
unfolding update_where
free_in-taken ids id [] h = refl
free_in-taken ids id ((k, p) ∷ t) h = elim (Bool-cases (p.user_id == id)) [
  | inl same ↦
      let found : is_in ids p.user_id ≡ true = ap (is_in ids) (==_sound p.user_id id same) ∙ h in
      let rest = free_in-taken ids id t h in ground arith
  | inr other ↦ ground (arith, free_in-taken ids id t h)
]

-- An update that finds nobody free changes nothing.
taken-none :
    (ids : List ℕ) (t : Table ProviderProfile)
    → ((id : ℕ) → is_in ids id ≡ true → free_in id t ≡ false)
    → taken ids t ≡ t
unfolding update_where
taken-none ids [] none_free = refl
taken-none ids ((k, p) ∷ t) none_free =
    let rest = taken-none ids t (λ id h. ground (arith, none_free id h)) in
    elim (Bool-cases (is_in ids p.user_id)) [
      | inl found ↦ ground (arith, none_free p.user_id found, ==_refl p.user_id)
      | inr other ↦ ground arith
    ]

-- Who can be pinged: a provider with a profile that is ONLINE_AVAILABLE.
abbrev pub is_waiting : Option DutyStatus → Bool
is_waiting (some DutyStatus.online_available) = true
is_waiting _ = false

abbrev pub can_ping : Db → ℕ → Bool
can_ping db id =
    exists_row (λ _ (p : ProviderProfile). (p.user_id == id) && is_waiting p.duty_status)
      db.profiles

-- The profile of one of these who is ONLINE_AVAILABLE.
abbrev pub is_pinged : List ScoredCandidate → ProviderProfile → Bool
is_pinged batch p =
    any (λ (c : ScoredCandidate). c.user_id == p.user_id) batch && is_waiting p.duty_status

waiting_lem : (d : Option DutyStatus) → is_online_available d ≡ is_waiting d
waiting_lem d = ground arith

can_ping_lem : (db : Db) (id : ℕ) → is_free db id ≡ can_ping db id
can_ping_lem db id = go db.profiles
  where
    go :
        (t : Table ProviderProfile)
        → exists_row
            (λ _ (p : ProviderProfile). (p.user_id == id) && is_online_available p.duty_status)
            t
          ≡ exists_row (λ _ (p : ProviderProfile). (p.user_id == id) && is_waiting p.duty_status) t
    go [] = refl
    go ((k, p) ∷ t) = ground (arith, waiting_lem p.duty_status, go t)

is_pinged_lem :
    (batch : List ScoredCandidate) (p : ProviderProfile)
    → may_take (user_ids batch) p ≡ is_pinged batch p
is_pinged_lem batch p = ground (arith, waiting_lem p.duty_status, go batch)
  where
    go :
        (cs : List ScoredCandidate)
        → is_in (user_ids cs) p.user_id ≡ any (λ (c : ScoredCandidate). c.user_id == p.user_id) cs
    go [] = refl
    go (c ∷ cs) = ground (arith, go cs)

filter-ext :
    {A : Type 0} (p q : A → Bool) (xs : List A) → ((x : A) → p x ≡ q x) → filter p xs ≡ filter q xs
filter-ext p q [] h = refl
filter-ext p q (x ∷ xs) h = ground (arith, h x, filter-ext p q xs h)

-- The attempts as rows of the table, one after the other.
abbrev pub stored :
    Table TaskDispatchAttempt → Table TaskDispatchAttempt → Table TaskDispatchAttempt
stored [] t = t
stored ((id, a) ∷ rows) t = stored rows (put id a t)

-- An attempt for each of the candidates, with the next free ids and sequence numbers.
abbrev pub offers_to :
    Env → ℕ → ℕ → ℤ → ℕ → ℕ → ℕ → List ScoredCandidate → Table TaskDispatchAttempt
offers_to env session_id task_id payout duration first i [] = []
offers_to env session_id task_id payout duration first i (c ∷ rest) =
    (
      env.fresh i,
      record {
        dispatch_session_id = some session_id;
        task_id = task_id;
        provider_id = c.user_id;
        sequence_order = some (first + i);
        match_score = some c.score;
        offered_payout = some payout;
        pinged_at = some env.now;
        expires_at = some (env.now + duration * 1000000);
        responded_at = none;
        status = some DispatchAttemptStatus.pending;
      },
    )
    ∷ offers_to env session_id task_id payout duration first (suc i) rest

module _ (env : Env) (session_id task_id : ℕ) (payout : ℤ) (duration : ℕ) (free : ℕ → Bool)
    (seq_start : ℕ) where
  abbrev made : ℕ → List ScoredCandidate → Table TaskDispatchAttempt
  made i batch = pings env session_id task_id payout duration free seq_start i batch

  pings-free :
      (i : ℕ) (batch : List ScoredCandidate)
      → pinged_ids (made i batch) ≡ filter free (user_ids batch)
  pings-free i [] = refl
  pings-free i (c ∷ batch) = ground (arith, pings-free i batch, pings-free (suc i) batch)

  pings-none :
      (i : ℕ) (batch : List ScoredCandidate)
      → All (λ c. free c.user_id ≡ false) batch
      → made i batch ≡ []
  pings-none i [] h = refl
  pings-none i (c ∷ batch) h = rw h.0 (pings-none i batch h.1)

  pings-offers :
      (i : ℕ) (batch : List ScoredCandidate)
      → made i batch
        ≡ offers_to env session_id task_id payout duration seq_start i
            (filter (λ c. free c.user_id) batch)
  pings-offers i [] = refl
  pings-offers i (c ∷ batch) = elim (Bool-cases (free c.user_id)) [
    | inl is_one ↦ rw (is_one, pings-offers (suc i) batch) refl
    | inr not_one ↦ rw (not_one, pings-offers i batch) refl
  ]

  pings-numbered :
      (i n : ℕ) (batch : List ScoredCandidate)
      → seq_start + i ≡ n
      → map (λ (row : ℕ × TaskDispatchAttempt). row.1.sequence_order) (made i batch)
        ≡ map some (range_from n (length (made i batch)))
  pings-numbered i n [] e = refl
  pings-numbered i n (c ∷ batch) e =
      ground
        (arith, pings-numbered i n batch e, pings-numbered (suc i) (suc n) batch (omega (arith, e)))

module _ (env : Env) (duration : ℕ) (batch : List ScoredCandidate) (task_id : ℕ) (t : Task)
    (session_id seq_start : ℕ) (db : Db) where
  abbrev pub offers : Table TaskDispatchAttempt
  offers = pings env session_id task_id (payout_of t) duration (is_free db) seq_start 0 batch

  abbrev after : Db
  after = (ping_batch env duration batch task_id t session_id seq_start db).1

  stored-put_all : (rows t : Table TaskDispatchAttempt) → put_all rows t ≡ stored rows t
  stored-put_all [] t = refl
  stored-put_all ((id, a) ∷ rows) t = stored-put_all rows (put id a t)

  sends :
      (attempts : Table TaskDispatchAttempt) (db' : Db)
      → let (r, sent) = send_pings env duration task_id t session_id attempts db' in
        (r ≡ ok attempts)
        × (sent.profiles ≡ db'.profiles)
        × (sent.attempts ≡ stored attempts db'.attempts)
  sends [] db' = (refl, refl, refl)
  sends (row ∷ rows) db' = (refl, refl, stored-put_all (row ∷ rows) db'.attempts)

  batch_writes :
      ((ping_batch env duration batch task_id t session_id seq_start db).0 ≡ ok offers)
      × (after.profiles ≡ taken (user_ids batch) db.profiles)
      × (after.attempts ≡ stored offers db.attempts)
  unfolding ping_batch
  batch_writes = sends offers (record db { profiles = taken (user_ids batch) db.profiles })

  none_left : (id : ℕ) → is_in (user_ids batch) id ≡ true → is_free after id ≡ false
  none_left id h = rw (batch_writes.1) (free_in-taken (user_ids batch) id db.profiles h)

  same_taken :
      (o : Option ProviderProfile)
      → Option.map (λ p. if may_take (user_ids batch) p then busy p else p) o
        ≡ Option.map (λ p. if is_pinged batch p then busy p else p) o
  same_taken none = refl
  same_taken (some p) = rw (is_pinged_lem batch p) refl

  -- A batch of pings: an attempt is made and stored for just those candidates who are
  -- ONLINE_AVAILABLE, PENDING, with the task's payout, the session and the end of the ping, in
  -- the order of the batch, with consecutive sequence numbers from the batch's first; these
  -- providers, and no others, change to ON_DISPATCH; and nobody of the batch is free afterwards.
  pub ping_batch_lem :
      let (r, db') = ping_batch env duration batch task_id t session_id seq_start db in
      (r ≡ ok offers)
      × (offers
          ≡ offers_to env session_id task_id
              (get_or t.provider_payout (pos 0))
              duration
              seq_start
              0
              (filter (λ c. can_ping db c.user_id) batch))
      × (db'.attempts ≡ stored offers db.attempts)
      × (pinged_ids offers ≡ filter (can_ping db) (user_ids batch))
      × (map (λ (row : ℕ × TaskDispatchAttempt). row.1.sequence_order) offers
          ≡ map some (range_from seq_start (length offers)))
      × ((k : ℕ)
          → get k db'.profiles
            ≡ Option.map (λ p. if is_pinged batch p then busy p else p) (get k db.profiles))
      × ((id : ℕ) → is_in (user_ids batch) id ≡ true → can_ping db' id ≡ false)
  ping_batch_lem = (
    batch_writes.0,
    pings-offers env session_id task_id (payout_of t) duration (is_free db) seq_start 0 batch
        ∙ ap (offers_to env session_id task_id (payout_of t) duration seq_start 0)
            (filter-ext _ _ batch (λ c. can_ping_lem db c.user_id)),
    batch_writes.2,
    pings-free env session_id task_id (payout_of t) duration (is_free db) seq_start 0 batch
        ∙ filter-ext _ _ (user_ids batch) (can_ping_lem db),
    pings-numbered env session_id task_id (payout_of t) duration (is_free db) seq_start 0 seq_start
        batch (omega arith),
    λ k. rw (batch_writes.1) (
        get-update_where (λ _. may_take (user_ids batch)) busy k db.profiles
        ∙ same_taken (get k db.profiles)),
    λ id h. sym (can_ping_lem after id) ∙ none_left id h,
  )

  is_in-All :
      (ids : List ℕ) (others : List ScoredCandidate) (id : ℕ)
      → All (λ c. is_in ids c.user_id ≡ true) others
      → is_in (user_ids others) id ≡ true
      → is_in ids id ≡ true
  is_in-All ids [] id all h = ground arith
  is_in-All ids (c ∷ others) id all h = elim (Bool-cases (c.user_id == id)) [
    | inl same ↦ ap (is_in ids) (sym (==_sound c.user_id id same)) ∙ all.0
    | inr other ↦ is_in-All ids others id all.1 (ground arith)
  ]

  none_free :
      (others : List ScoredCandidate)
      → All (λ c. is_in (user_ids batch) c.user_id ≡ true) others
      → All (λ c. is_free after c.user_id ≡ false) others
  none_free [] all = tt
  none_free (c ∷ others) all = (none_left c.user_id all.0, none_free others all.1)

  -- After a batch of pings, a second one of candidates who are all in the first, for the same task or
  -- another, makes no attempt and writes nothing.
  pub ping_batch-twice :
      (others : List ScoredCandidate)
      → All (λ c. is_in (user_ids batch) c.user_id ≡ true) others
      → (env' : Env) (duration' task_id' : ℕ) (t' : Task) (session_id' seq_start' : ℕ)
      → ping_batch env' duration' others task_id' t' session_id' seq_start' after ≡ (ok [], after)
  unfolding ping_batch
  ping_batch-twice others all env' duration' task_id' t' session_id' seq_start' =
      rw
        (
          pings-none env' session_id' task_id' (payout_of t') duration' (is_free after) seq_start' 0
              others (none_free others all),
          taken-none (user_ids others) after.profiles
              (λ id h. none_left id (is_in-All (user_ids batch) others id all h)),
        )
        refl
