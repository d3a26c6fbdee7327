-- ===== src/Dispatch/Due/Rounds.antt =====
-- The rounds of `process_due_dispatches`.
use mathlib.Core.List.{map}
use tasker_api.Prelude.{
  ℕ, zero, suc, ◌+◌, ◌*◌, ◌≡◌, ◌≤◌, ◌⊎◌, refl, sym, ap, ◌∙◌, true, List, [], ◌∷◌, ◌++◌, ◌==◌, arith,
  length-append, subst, length, take, ltb, Bool-cases, inl, inr, ==_refl, ◌||◌,
}
use tasker_api.Models.{Task}
use tasker_api.Table.{Table, select_where, update_where, count_where}
use tasker_api.Db.{Db, Job, process_auto_retry}
use tasker_api.Dispatch.Due.{
  is_due, insert_by_time, order_by_time, row_ids, has_id, due_task_ids, claimed, claim, round_total,
  process_due_dispatches,
}

module _ (now : ℕ) where
  length-ids :
      (row : ℕ × Task) (rows : Table Task)
      → length (row_ids (insert_by_time row rows)) ≡ suc (length (row_ids rows))
  length-ids row [] = refl
  length-ids row (other ∷ rows) = ground (arith, length-ids row rows)

  length-order : (rows : Table Task) → length (row_ids (order_by_time rows)) ≡ length rows
  length-order [] = refl
  length-order (row ∷ rows) = length-ids row (order_by_time rows) ∙ ap suc (length-order rows)

  has_id-insert :
      (id : ℕ) (row : ℕ × Task) (rows : Table Task)
      → has_id (row_ids (insert_by_time row rows)) id ≡ (row.0 == id || has_id (row_ids rows) id)
  has_id-insert id row [] = refl
  has_id-insert id row (other ∷ rows) = ground (arith, has_id-insert id row rows)

  has_id-order :
      (id : ℕ) (rows : Table Task)
      → has_id (row_ids (order_by_time rows)) id ≡ has_id (row_ids rows) id
  has_id-order id [] = refl
  has_id-order id (row ∷ rows) =
      ground (arith, has_id-insert id row (order_by_time rows), has_id-order id rows)

  -- Claiming all due tasks leaves none due.
  none_due :
      (ids : List ℕ) (tasks : Table Task)
      → ((id : ℕ)
          → has_id (row_ids (select_where (is_due now) tasks)) id ≡ true
          → has_id ids id ≡ true)
      → count_where (is_due now) (update_where (λ id _. has_id ids id) (claimed now) tasks) ≡ 0
  unfolding count_where update_where select_where
  none_due ids [] all = refl
  none_due ids ((k, t) ∷ tasks) all = elim (Bool-cases (is_due now k t)) [
    | inl due ↦
        let mine : has_id ids k ≡ true = all k (ground (arith, ==_refl k)) in
        ground (arith, none_due ids tasks (λ id h. ground (arith, all id)))
    | inr idle ↦ ground (arith, none_due ids tasks (λ id h. ground (arith, all id)))
  ]

  count-select :
      (tasks : Table Task)
      → count_where (is_due now) tasks ≡ length (select_where (is_due now) tasks)
  unfolding count_where select_where
  count-select [] = refl
  count-select ((k, t) ∷ tasks) = ground (arith, count-select tasks)

  take_short : (n : ℕ) (ids : List ℕ) → suc (length (take n ids)) ≤ n → take n ids ≡ ids
  take_short zero ids h = ground arith
  take_short (suc n) [] h = refl
  take_short (suc n) (id ∷ ids) h = ap (λ rest. id ∷ rest) (take_short n ids (omega (arith, h)))

  length-take_le : (n : ℕ) (ids : List ℕ) → length (take n ids) ≤ n
  length-take_le zero ids = omega arith
  length-take_le (suc n) [] = omega arith
  length-take_le (suc n) (id ∷ ids) = omega (arith, length-take_le n ids)

  append_nil : {A : Type 0} (xs : List A) → xs ++ [] ≡ xs
  append_nil [] = refl
  append_nil (x ∷ xs) = ap (λ ys. x ∷ ys) (append_nil xs)

  append_jobs :
      (jobs : List Job) (ids ids' : List ℕ)
      → (jobs ++ map process_auto_retry ids) ++ map process_auto_retry ids'
        ≡ jobs ++ map process_auto_retry (ids ++ ids')
  append_jobs [] [] ids' = refl
  append_jobs [] (id ∷ ids) ids' = ap (λ js. process_auto_retry id ∷ js) (append_jobs [] ids ids')
  append_jobs (j ∷ jobs) ids ids' = ap (λ js. j ∷ js) (append_jobs jobs ids ids')

module _ (now batch_size : ℕ) where
  abbrev due_ids : Db → List ℕ
  due_ids db = row_ids (order_by_time (select_where (is_due now) db.tasks))

  -- A short round has found all the tasks that are due.
  short_round :
      (db : Db)
      → suc (length (due_task_ids now batch_size db)) ≤ batch_size
      → due_task_ids now batch_size db ≡ due_ids db
  unfolding due_task_ids
  short_round db h = take_short now batch_size (due_ids db) h

  all_claimed :
      (db : Db)
      → suc (length (due_task_ids now batch_size db)) ≤ batch_size
      → count_where (is_due now) (claim now (due_task_ids now batch_size db) db).tasks ≡ 0
  all_claimed db h = rw (short_round db h) (
      none_due now (due_ids db) db.tasks
        (λ id h. has_id-order now id (select_where (is_due now) db.tasks) ∙ h))

  nobody_due :
      (db : Db)
      → 1 ≤ batch_size
      → due_task_ids now batch_size db ≡ []
      → count_where (is_due now) db.tasks ≡ 0
  nobody_due db h e =
      let short : suc (length (due_task_ids now batch_size db)) ≤ batch_size = rw e h in
      let found : length (due_ids db) ≡ 0 = ap length (sym (short_round db short) ∙ e) in
      count-select now db.tasks
      ∙ sym (length-order now (select_where (is_due now) db.tasks))
      ∙ found

  round_size : (db : Db) → length (due_task_ids now batch_size db) ≤ batch_size
  unfolding due_task_ids
  round_size db = length-take_le now batch_size (due_ids db)

  abbrev pub Processed : ℕ → Db → ℕ × Db → Type 0
  Processed rounds db (n, db') =
      ((count_where (is_due now) db'.tasks ≡ 0) ⊎ (n ≡ rounds * batch_size))
      × (ids : List ℕ) × (db'.jobs ≡ db.jobs ++ map process_auto_retry ids)
      × (length ids ≡ n)

  full_round :
      (rounds n m : ℕ) (db' : Db)
      → m ≡ batch_size
      → (count_where (is_due now) db'.tasks ≡ 0) ⊎ (n ≡ rounds * batch_size)
      → (count_where (is_due now) db'.tasks ≡ 0) ⊎ (m + n ≡ suc rounds * batch_size)
  full_round rounds n m db' full (inl none_left) = inl none_left
  full_round rounds n m db' full (inr all) = inr (grind arith)

  one_round :
      (rounds : ℕ) (db : Db) (ids : List ℕ)
      → 1 ≤ batch_size
      → due_task_ids now batch_size db ≡ ids
      → (rest : ℕ × Db) → Processed rounds (claim now ids db) rest
      → Processed (suc rounds) db (round_total batch_size ids (claim now ids db) rest db)
  one_round rounds db [] h e rest done =
      (inl (nobody_due db h e), [], sym (append_nil now db.jobs), refl)
  one_round rounds db (id ∷ ids) h e (n, db') (over, more, jobs, total) =
      let size = length (id ∷ ids) in
      elim (Bool-cases (ltb size batch_size)) [
        | inl short ↦ rw short (
          inl (
              subst (λ xs. count_where (is_due now) (claim now xs db).tasks ≡ 0) e
                (all_claimed db (rw e (ground arith)))),
          id ∷ ids,
          refl,
          refl,
        )
        | inr full ↦ rw full (
          full_round rounds n size db'
              (ground (arith, subst (λ xs. length xs ≤ batch_size) e (round_size db))) over,
          (id ∷ ids) ++ more,
          jobs ∙ append_jobs now db.jobs (id ∷ ids) more,
          length-append (id ∷ ids) more ∙ ap (λ k. size + k) total,
        )
      ]

  -- The scheduled claim of due retries, in rounds of at least one task: when it ends, no task is due
  -- any more, or all its rounds were full; and it has enqueued as many retries as it returns.
  pub process_due_dispatches-Processed :
      (rounds : ℕ) (db : Db)
      → 1 ≤ batch_size
      → Processed rounds db (process_due_dispatches now batch_size rounds db)
  unfolding process_due_dispatches
  process_due_dispatches-Processed zero db h =
      (inr (omega arith), [], sym (append_nil now db.jobs), refl)
  process_due_dispatches-Processed (suc rounds) db h =
      let ids = due_task_ids now batch_size db in
      one_round rounds db ids h refl
        (process_due_dispatches now batch_size rounds (claim now ids db))
        (process_due_dispatches-Processed rounds (claim now ids db) h)
