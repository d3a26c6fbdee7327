-- ===== src/Table/Counts.antt =====
-- How a write changes the number of the rows that fit a condition.
use tasker_api.Prelude.{ℕ, ◌+◌, ◌≡◌, Bool, none, some, [], ◌∷◌, arith, if◌then◌else◌}
use tasker_api.Table.{Table, get, put, find?, count_where}

module _ {ℓ} {A : Type ℓ} (p : ℕ → A → Bool) where
  pub count_where-put_same :
      (k : ℕ) (a b : A) (t : Table A)
      → get k t ≡ some b
      → p k a ≡ p k b
      → count_where p (put k a t) ≡ count_where p t
  unfolding count_where get put
  count_where-put_same k a b [] e h = ground arith
  count_where-put_same k a b ((j, c) ∷ t) e h = grind (arith, count_where-put_same k a b t)

  pub count_where-put_new :
      (k : ℕ) (a : A) (t : Table A)
      → get k t ≡ none
      → count_where p (put k a t) ≡ count_where p t + (if p k a then 1 else 0)
  unfolding count_where get put
  count_where-put_new k a [] e = ground arith
  count_where-put_new k a ((j, c) ∷ t) e = ground (arith, count_where-put_new k a t)

  pub count_where-none : (t : Table A) → find? p t ≡ none → count_where p t ≡ 0
  unfolding count_where find?
  count_where-none [] e = ground arith
  count_where-none ((j, c) ∷ t) e = ground (arith, count_where-none t)
