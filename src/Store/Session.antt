-- ===== src/Store/Session.antt =====
-- A request's session (control-plane/app/core/db.py): what it has flushed, and what it has
-- committed. A handler is an action over the session that returns or raises; when the request ends
-- the session is closed, and what was not committed is gone. New ids and the clock are drawn from
-- outside and stand in the session too.
use multi_tenant_file_delive.Prelude.{ℕ, suc, String, Bool, Option, none, some, if◌then◌else◌}
use multi_tenant_file_delive.Store.Rows.{Database}

-- What a handler raises: an `HTTPException` with its status code, or a defect such as an
-- `IntegrityError`, which the framework answers by 500.
pub data Error : Type 0 where
  http : ℕ → Error
  integrity_error : Error
  runtime_error : Error

pub data Result (A : Type 0) : Type 0 where
  ok : A → Result A
  err : Error → Result A

pub record Session : Type 0 where
  pub db : Database
  pub committed : Database
  -- the numbers that `gen_id` draws from, and `datetime.now(UTC)`
  pub ids : ℕ → String
  pub drawn : ℕ
  pub now : ℕ

abbrev pub Action : Type 0 → Type 0
Action A = Session → Result A × Session

module _ {A : Type 0} where
  unfoldable pub pure : A → Action A
  pure a s = (ok a, s)

  unfoldable pub raise : Error → Action A
  raise e s = (err e, s)

  unfoldable pub or_raise : Option A → Error → Action A
  or_raise none e s = (err e, s)
  or_raise (some a) e s = (ok a, s)

  unfoldable pub reads : (Database → A) → Action A
  reads f s = (ok (f s.db), s)

-- `if test: raise ...`
unfoldable pub raise_if : Bool → Error → Action (Unit {0})
raise_if test e s = (if test then err e else ok tt, s)

-- A write with its flush.
unfoldable pub writes : (Database → Database) → Action (Unit {0})
writes f s = (ok tt, record s { db = f s.db })

unfoldable pub commit : Action (Unit {0})
commit s = (ok tt, record s { committed = s.db })

-- `gen_id()`
unfoldable pub gen_id : Action String
gen_id s = (ok (s.ids s.drawn), record s { drawn = suc s.drawn })

unfoldable pub clock : Action ℕ
clock s = (ok s.now, s)

module _ {A B : Type 0} where
  abbrev pub continue : Result A → (A → Action B) → Action B
  continue (ok a) f s = f a s
  continue (err e) f s = (err e, s)

  infixl 5 ◌>>=◌ ◌>>◌
  -- To open a step of a `do` block is to open the actions above too.
  unfoldable pub ◌>>=◌ : Action A → (A → Action B) → Action B
  unfolding pure raise or_raise reads raise_if writes commit gen_id clock
  ◌>>=◌ m f s = let (r, s') = m s in continue r f s'

  abbrev pub ◌>>◌ : Action A → Action B → Action B
  m >> k = m >>= λ _. k

-- A request begins with a session over the committed database and leaves what it committed.
unfoldable pub serve : {A : Type 0} → (ℕ → String) → ℕ → Action A → Database → Result A × Database
serve ids now handler db =
    let (r, s) = handler (record { db = db; committed = db; ids = ids; drawn = 0; now = now }) in
    (r, s.committed)
