-- ===== src/Table/Rows.antt =====
-- A predicate that every row of a table satisfies, under each kind of write.
use tasker_api.Prelude.{ℕ, ◌≡◌, Bool, true, some, [], ◌∷◌, arith, ◌==◌, Bool-cases, inl, inr}
use tasker_api.Table.{Table, get, put, delete, find?, update_where}

abbrev pub AllRows {ℓ} : {A : Type ℓ} → (ℕ → A → Type 0) → Table A → Type 0
AllRows P [] = Unit
AllRows P ((j, a) ∷ t) = P j a × AllRows P t

module _ {ℓ} {A : Type ℓ} (P : ℕ → A → Type 0) where
  pub AllRows-put : (k : ℕ) (a : A) (t : Table A) → AllRows P t → P k a → AllRows P (put k a t)
  unfolding put
  AllRows-put k a [] h p = (p, tt)
  AllRows-put k a ((j, b) ∷ t) h p = elim (Bool-cases (j == k)) [
    | inl e ↦ rw e (p, h.1)
    | inr e ↦ rw e (h.0, AllRows-put k a t h.1 p)
  ]

  pub AllRows-get : (k : ℕ) (t : Table A) (a : A) → AllRows P t → get k t ≡ some a → P k a
  unfolding get
  AllRows-get k [] a h e = ground arith
  AllRows-get k ((j, b) ∷ t) a h e = grind (arith, AllRows-get k t a h.1)

  pub AllRows-delete : (k : ℕ) (t : Table A) → AllRows P t → AllRows P (delete k t)
  unfolding delete
  AllRows-delete k [] h = tt
  AllRows-delete k ((j, b) ∷ t) h = elim (Bool-cases (j == k)) [
    | inl e ↦ rw e (AllRows-delete k t h.1)
    | inr e ↦ rw e (h.0, AllRows-delete k t h.1)
  ]

  pub AllRows-update_where :
      (p : ℕ → A → Bool) (f : A → A) (t : Table A)
      → ((k : ℕ) (a : A) → p k a ≡ true → P k a → P k (f a))
      → AllRows P t
      → AllRows P (update_where p f t)
  unfolding update_where
  AllRows-update_where p f [] keep h = tt
  AllRows-update_where p f ((j, a) ∷ t) keep h =
      let rest = AllRows-update_where p f t keep h.1 in
      elim (Bool-cases (p j a)) [ inl e ↦ rw e (keep j a e h.0, rest) | inr e ↦ rw e (h.0, rest) ]

  pub AllRows-find? :
      (p : ℕ → A → Bool) (t : Table A) (j : ℕ) (a : A)
      → AllRows P t
      → find? p t ≡ some (j, a)
      → P j a
  unfolding find?
  AllRows-find? p [] j a h e = ground arith
  AllRows-find? p ((i, b) ∷ t) j a h e = grind (arith, AllRows-find? p t j a h.1)
