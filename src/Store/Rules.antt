-- ===== src/Store/Rules.antt =====
-- What a handler leaves in the database when it fails: rules for building actions.
use multi_tenant_file_delive.Prelude.{
  ℕ, String, ◌≡◌, refl, ◌∙◌, Bool, true, false, Option, none, some, if◌then◌else◌,
}
use multi_tenant_file_delive.Store.Rows.{Database}
use multi_tenant_file_delive.Store.Session.{
  Error, Result, ok, err, Session, Action, ◌>>=◌, pure, raise, or_raise, reads, raise_if, writes,
  commit, gen_id, clock, continue, serve,
}

-- The action commits nothing.
pub record IsQuiet {A : Type 0} (m : Action A) : Type 0 where
  pub at : (s : Session) → (m s).1.committed ≡ s.committed

abbrev pub Unchanged : {A : Type 0} → Database → Result A × Session → Type 0
Unchanged before (ok a, s) = Unit
Unchanged before (err e, s) = s.committed ≡ before

-- The action commits nothing if it raises.
pub record IsAtomic {A : Type 0} (m : Action A) : Type 0 where
  pub at : (s : Session) → Unchanged s.committed (m s)

module _ {A : Type 0} where
  pub IsQuiet-pure : (a : A) → IsQuiet (pure a)
  unfolding pure
  IsQuiet-pure a = record { at = λ s. refl }

  pub IsQuiet-raise : (e : Error) → IsQuiet (raise {A = A} e)
  unfolding raise
  IsQuiet-raise e = record { at = λ s. refl }

  pub IsQuiet-or_raise : (o : Option A) (e : Error) → IsQuiet (or_raise o e)
  unfolding or_raise
  IsQuiet-or_raise none e = record { at = λ s. refl }
  IsQuiet-or_raise (some a) e = record { at = λ s. refl }

  pub IsQuiet-reads : (f : Database → A) → IsQuiet (reads f)
  unfolding reads
  IsQuiet-reads f = record { at = λ s. refl }

pub IsQuiet-raise_if : (test : Bool) (e : Error) → IsQuiet (raise_if test e)
unfolding raise_if
IsQuiet-raise_if test e = record { at = λ s. refl }

pub IsQuiet-writes : (f : Database → Database) → IsQuiet (writes f)
unfolding writes
IsQuiet-writes f = record { at = λ s. refl }

pub IsQuiet-gen_id : IsQuiet gen_id
unfolding gen_id
IsQuiet-gen_id = record { at = λ s. refl }

pub IsQuiet-clock : IsQuiet clock
unfolding clock
IsQuiet-clock = record { at = λ s. refl }

pub IsQuiet-if :
    {A : Type 0} (b : Bool) (m n : Action A) → IsQuiet m → IsQuiet n → IsQuiet (if b then m else n)
IsQuiet-if true m n qm qn = qm
IsQuiet-if false m n qm qn = qn

module _ {A B : Type 0} (f : A → Action B) where
  continue_quiet :
      (r : Result A) (s : Session)
      → ((a : A) → IsQuiet (f a))
      → (continue r f s).1.committed ≡ s.committed
  continue_quiet (ok a) s q = (q a).at s
  continue_quiet (err e) s q = refl

  pub IsQuiet-bind : (m : Action A) → IsQuiet m → ((a : A) → IsQuiet (f a)) → IsQuiet (m >>= f)
  unfolding ◌>>=◌
  IsQuiet-bind m qm qf = record { at = λ s. let (r, s') = m s in continue_quiet r s' qf ∙ qm.at s }

  continue_atomic :
      (before : Database) (r : Result A) (s : Session)
      → s.committed ≡ before
      → ((a : A) → IsAtomic (f a))
      → Unchanged before (continue r f s)
  continue_atomic before (ok a) s same q = rw (← same) ((q a).at s)
  continue_atomic before (err e) s same q = same

  -- A quiet step before an atomic rest.
  pub IsAtomic-bind : (m : Action A) → IsQuiet m → ((a : A) → IsAtomic (f a)) → IsAtomic (m >>= f)
  unfolding ◌>>=◌
  IsAtomic-bind m qm qf = record {
    at = λ s. let (r, s') = m s in continue_atomic s.committed r s' (qm.at s) qf;
  }

-- The commit stands last.
pub IsAtomic-commit : {A : Type 0} (a : A) → IsAtomic (commit >>= λ _. pure a)
unfolding ◌>>=◌
IsAtomic-commit a = record { at = λ s. tt }

pub ruleset quiet_rules = (
  IsQuiet-pure, IsQuiet-raise, IsQuiet-or_raise, IsQuiet-reads, IsQuiet-raise_if, IsQuiet-writes,
  IsQuiet-gen_id, IsQuiet-clock, IsQuiet-if, IsQuiet-bind,
)

pub ruleset atomic_rules = (quiet_rules, IsAtomic-bind, IsAtomic-commit)

abbrev pub RolledBack : {A : Type 0} → Database → Result A × Database → Type 0
RolledBack before (ok a, after) = Unit
RolledBack before (err e, after) = after ≡ before

close_rolls_back :
    {A : Type 0} (before : Database) (r : Result A) (s : Session)
    → Unchanged before (r, s)
    → RolledBack before (r, s.committed)
close_rolls_back before (ok a) s h = tt
close_rolls_back before (err e) s h = h

-- A request whose handler is atomic changes nothing if it fails.
pub serve-RolledBack :
    {A : Type 0} (ids : ℕ → String) (now : ℕ) (m : Action A) (db : Database)
    → IsAtomic m
    → RolledBack db (serve ids now m db)
unfolding serve
serve-RolledBack ids now m db a =
    let (r, s) = m (record { db = db; committed = db; ids = ids; drawn = 0; now = now }) in
    close_rolls_back db r s
      (a.at (record { db = db; committed = db; ids = ids; drawn = 0; now = now }))
