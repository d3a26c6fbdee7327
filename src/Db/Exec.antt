-- ===== src/Db/Exec.antt =====
-- A method call: it reads and writes the database, and returns a value or raises. A raise keeps
-- what was written before it, since every write of the services is committed at once.
use tasker_api.Prelude.{ℕ, ⊤, ◌≡◌, Bool, true, false, Option, none, some, arith, leb, if◌then◌else◌}
use tasker_api.Models.{Text}
use tasker_api.Table.{Table, find?, count_where}
use tasker_api.Db.{Db}

-- `HTTPException(status_code, detail)`, `ValueError(message)`, and SQLAlchemy's
-- `MultipleResultsFound` and `IntegrityError`.
pub data Error : Type 0 where
  http : ℕ → Text → Error
  value_error : Text → Error
  multiple_results : Error
  integrity_error : Error

pub data Result (A : Type 0) : Type 0 where
  ok : A → Result A
  err : Error → Result A

abbrev pub Exec : Type 0 → Type 0
Exec A = Db → Result A × Db

module _ {A : Type 0} where
  abbrev pub pure : A → Exec A
  pure a db = (ok a, db)

  abbrev pub raise : Error → Exec A
  raise e db = (err e, db)

  abbrev pub gets : (Db → A) → Exec A
  gets f db = (ok (f db), db)

  abbrev pub or_raise : Option A → Error → Exec A
  or_raise none e = raise e
  or_raise (some a) e = pure a

  -- `one_or_none()` on `select(...).where(p)`.
  abbrev pub one_or_none_of : (Db → Table A) → (ℕ → A → Bool) → Exec (Option (ℕ × A))
  one_or_none_of table p db = (
    if leb (count_where p (table db)) 1 then ok (find? p (table db)) else err multiple_results,
    db,
  )

infixl 5 ◌>>=◌ ◌>>◌
abbrev pub ◌>>=◌ : {A B : Type 0} → Exec A → (A → Exec B) → Exec B
◌>>=◌ m f db = let (r, db') = m db in elim r [ ok a ↦ f a db' | err e ↦ (err e, db') ]

abbrev pub ◌>>◌ : {A B : Type 0} → Exec A → Exec B → Exec B
m >> k = m >>= λ _. k

abbrev pub modify : (Db → Db) → Exec ⊤
modify f db = (ok tt, f db)

-- `if c: raise e`
abbrev pub raise_if : Bool → Error → Exec ⊤
raise_if true e db = (err e, db)
raise_if false e db = (ok tt, db)

-- `if c: m`
abbrev pub when : Bool → Exec ⊤ → Exec ⊤
when true m = m
when false m = pure tt

-- A block whose first call returns goes on from there.
pub >>=-ok :
    {A B : Type 0} (m : Exec A) (f : A → Exec B) (db : Db) {a : A}
    → (m db).0 ≡ ok a
    → (m >>= f) db ≡ f a (m db).1
>>=-ok m f db e = ground arith

-- A call that raises leaves the database as it was.
abbrev pub Atomic : {A : Type 0} → Db → Result A × Db → Type 0
Atomic db (ok _, db') = Unit
Atomic db (err _, db') = db' ≡ db
