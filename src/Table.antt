-- ===== src/Table.antt =====
-- app/core/repository.py: a table of the database, as the rows in the order of insertion under
-- their primary keys, with the operations of `Repository` and the statements that the services
-- run through `execute`.
pub mod Laws
pub mod Rows
pub mod Counts
use mathlib.Core.Option
use tasker_api.Prelude.{
  ℕ, ℤ, pos, ◌+◌, ◌+ℤ◌, max, Bool, true, false, Option, none, some, List, [], ◌∷◌, ◌==◌,
  if◌then◌else◌,
}

abbrev pub Table {ℓ} : Type ℓ → Type ℓ
Table A = List (ℕ × A)

module _ {ℓ} {A : Type ℓ} where
  -- `Repository.get`
  unfoldable pub get : ℕ → Table A → Option A
  get k [] = none
  get k ((j, a) ∷ t) = if j == k then some a else get k t

  -- `Repository.add`, of a new row or of one that was read and changed.
  unfoldable pub put : ℕ → A → Table A → Table A
  put k a [] = (k, a) ∷ []
  put k a ((j, b) ∷ t) = if j == k then (k, a) ∷ t else (j, b) ∷ put k a t

  -- `Repository.delete`
  unfoldable pub delete : ℕ → Table A → Table A
  delete k [] = []
  delete k ((j, b) ∷ t) = let rest = delete k t in if j == k then rest else (j, b) ∷ rest

  -- `select(...).where(p)`, then `first()`.
  unfoldable pub find? : (ℕ → A → Bool) → Table A → Option (ℕ × A)
  find? p [] = none
  find? p ((j, a) ∷ t) = if p j a then some (j, a) else find? p t

  -- `select(...).where(p)`, then `all()`.
  unfoldable pub select_where : (ℕ → A → Bool) → Table A → Table A
  select_where p [] = []
  select_where p ((j, a) ∷ t) = let rest = select_where p t in if p j a then (j, a) ∷ rest else rest

  -- `update(...).where(p).values(f)`
  unfoldable pub update_where : (ℕ → A → Bool) → (A → A) → Table A → Table A
  update_where p f [] = []
  update_where p f ((j, a) ∷ t) = (j, if p j a then f a else a) ∷ update_where p f t

  -- `select(func.count(...)).where(p)`
  unfoldable pub count_where : (ℕ → A → Bool) → Table A → ℕ
  count_where p [] = 0
  count_where p ((j, a) ∷ t) = (if p j a then 1 else 0) + count_where p t

  -- `select(func.coalesce(func.sum(v), 0)).where(p)`
  unfoldable pub sum_where : (ℕ → A → Bool) → (A → ℤ) → Table A → ℤ
  sum_where p v [] = pos 0
  sum_where p v ((j, a) ∷ t) = (if p j a then v a else pos 0) +ℤ sum_where p v t

  -- `select(func.max(v)).where(p)`, where no row gives 0 (`or 0`).
  unfoldable pub max_where : (ℕ → A → Bool) → (A → ℕ) → Table A → ℕ
  max_where p v [] = 0
  max_where p v ((j, a) ∷ t) = max (if p j a then v a else 0) (max_where p v t)

  -- `Repository.update`: sets fields of a row that is there, and returns it.
  unfoldable pub update : ℕ → (A → A) → Table A → Table A
  unfolding get put
  update k f t = elim (get k t) [ none ↦ t | some a ↦ put k (f a) t ]
