-- ===== src/Table/Laws.antt =====
-- What a read returns after each kind of write.
use mathlib.Core.Option
use tasker_api.Prelude.{
  ℕ, ◌≡◌, refl, ◌≢◌, Bool, true, false, none, some, [], ◌∷◌, arith, ◌==◌, if◌then◌else◌,
  Option-cases, Bool-cases, inl, inr,
}
use tasker_api.Table.{Table, get, put, delete, find?, update_where, update}

module _ {ℓ} {A : Type ℓ} where
  pub get-put :
      (k j : ℕ) (a : A) (t : Table A) → get j (put k a t) ≡ (if k == j then some a else get j t)
  unfolding get put
  get-put k j a [] = refl
  get-put k j a ((i, b) ∷ t) = ground (arith, get-put k j a t)

  pub get-put_self : (k : ℕ) (a : A) (t : Table A) → get k (put k a t) ≡ some a
  get-put_self k a t = ground (arith, get-put k k a t)

  pub get-put_ne : (k j : ℕ) (a : A) (t : Table A) → k ≢ j → get j (put k a t) ≡ get j t
  get-put_ne k j a t h = ground (arith, get-put k j a t)

  pub put-put : (k : ℕ) (a b : A) (t : Table A) → put k b (put k a t) ≡ put k b t
  unfolding put
  put-put k a b [] = ground arith
  put-put k a b ((i, c) ∷ t) = ground (arith, put-put k a b t)

  pub get-delete : (k j : ℕ) (t : Table A) → get j (delete k t) ≡ (if k == j then none else get j t)
  unfolding get delete
  get-delete k j [] = ground arith
  get-delete k j ((i, b) ∷ t) = ground (arith, get-delete k j t)

  pub get-update_where :
      (p : ℕ → A → Bool) (f : A → A) (k : ℕ) (t : Table A)
      → get k (update_where p f t) ≡ Option.map (λ a. if p k a then f a else a) (get k t)
  unfolding get update_where
  get-update_where p f k [] = refl
  get-update_where p f k ((j, a) ∷ t) = ground (arith, get-update_where p f k t)

  pub get-update_self :
      (k : ℕ) (f : A → A) (a : A) (t : Table A)
      → get k t ≡ some a
      → get k (update k f t) ≡ some (f a)
  unfolding update
  get-update_self k f a t e = ground (arith, get-put_self k (f a) t)

  pub update-found :
      (k : ℕ) (f : A → A) (a : A) (t : Table A) → get k t ≡ some a → update k f t ≡ put k (f a) t
  unfolding update
  update-found k f a t e = ground arith

  pub get-update :
      (k j : ℕ) (f : A → A) (t : Table A)
      → get j (update k f t) ≡ (if k == j then Option.map f (get j t) else get j t)
  unfolding update
  get-update k j f t = elim (Option-cases (get k t)) [
    | inl e ↦ elim (Bool-cases (k == j)) [ inl same ↦ ground arith | inr other ↦ ground arith ]
    | inr (a, e) ↦ elim (Bool-cases (k == j)) [
      | inl same ↦ ground (arith, get-put k j (f a) t)
      | inr other ↦ ground (arith, get-put k j (f a) t)
    ]
  ]

  -- A search that finds nothing finds a fitting row after that is added.
  pub find?-put_new :
      (p : ℕ → A → Bool) (k : ℕ) (a : A) (t : Table A)
      → find? p t ≡ none
      → get k t ≡ none
      → p k a ≡ true
      → find? p (put k a t) ≡ some (k, a)
  unfolding find? get put
  find?-put_new p k a [] e n h = ground arith
  find?-put_new p k a ((j, b) ∷ t) e n h = ground (arith, find?-put_new p k a t)

  -- What a search finds fits.
  pub find?_sound :
      (p : ℕ → A → Bool) (t : Table A) (j : ℕ) (a : A) → find? p t ≡ some (j, a) → p j a ≡ true
  unfolding find?
  find?_sound p [] j a e = ground arith
  find?_sound p ((i, b) ∷ t) j a e = ground (arith, find?_sound p t j a)

  -- A search finds the row that it found before, after a change that lets it fit.
  pub find?-put_found :
      (p : ℕ → A → Bool) (k : ℕ) (a b : A) (t : Table A)
      → find? p t ≡ some (k, b)
      → p k a ≡ true
      → find? p (put k a t) ≡ some (k, a)
  unfolding find? put
  find?-put_found p k a b [] e h = ground arith
  find?-put_found p k a b ((j, c) ∷ t) e h = grind (arith, find?-put_found p k a b t)

  -- A search finds the row that another search found, after an update under which the one's rows
  -- are among the other's.
  pub find?-update_where :
      (p q r : ℕ → A → Bool) (f : A → A) (k : ℕ) (a : A) (t : Table A)
      → find? q t ≡ some (k, a)
      → ((j : ℕ) (b : A) → q j b ≡ false → (p j b ≡ false) × (p j (f b) ≡ false))
      → r k a ≡ true
      → p k (f a) ≡ true
      → find? p (update_where r f t) ≡ some (k, f a)
  unfolding find? update_where
  find?-update_where p q r f k a [] e h hr hp = ground arith
  find?-update_where p q r f k a ((j, b) ∷ t) e h hr hp = elim (Bool-cases (q j b)) [
    | inl fits ↦ ground arith
    | inr not_fits ↦
        let (h0, h1) = h j b not_fits in grind (arith, find?-update_where p q r f k a t)
  ]
