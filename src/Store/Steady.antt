-- ===== src/Store/Steady.antt =====
-- Handlers that commit events on the way: what they leave of the other tables when they fail.
use mathlib.Core.Path.{subst}
use mathlib.Core.List.{append_assoc, append-nil}
use multi_tenant_file_delive.Prelude.{
  ℕ, String, ◌≡◌, refl, sym, Bool, true, false, Option, none, some, List, [], ◌∷◌, ◌++◌, any, ◌==◌,
  string_eq, Bool-cases, inl, inr, if◌then◌else◌,
}
use multi_tenant_file_delive.Store.Rows.{Database, TaskEvent}
use multi_tenant_file_delive.Store.Session.{
  Error, Result, ok, err, Session, Action, ◌>>=◌, pure, raise, or_raise, reads, raise_if, commit,
  clock, continue, serve,
}
use multi_tenant_file_delive.Store.Rules.{IsAtomic, Unchanged}
use multi_tenant_file_delive.Store.Events

-- Only the events may differ: more of them may have come.
pub record SameRows (db db' : Database) : Type 0 where
  pub tasks : db'.tasks ≡ db.tasks
  pub items : db'.items ≡ db.items
  pub workspaces : db'.workspaces ≡ db.workspaces
  pub physical_objects : db'.physical_objects ≡ db.physical_objects
  pub workspace_objects : db'.workspace_objects ≡ db.workspace_objects
  pub events : (new : List TaskEvent) × (db'.events ≡ db.events ++ new)

pub SameRows-refl : (db : Database) → SameRows db db
SameRows-refl db = record {
  tasks = refl;
  items = refl;
  workspaces = refl;
  physical_objects = refl;
  workspace_objects = refl;
  events = ([], sym (append-nil db.events));
}

-- One event more.
pub SameRows-event :
    (before db : Database) (e : TaskEvent)
    → SameRows before db
    → SameRows before (record db { events = db.events ++ e ∷ [] })
SameRows-event before db e same =
    let (new, came) = same.events in
    record {
      tasks = same.tasks;
      items = same.items;
      workspaces = same.workspaces;
      physical_objects = same.physical_objects;
      workspace_objects = same.workspace_objects;
      events = (new ++ e ∷ [], rw came (append_assoc before.events new (e ∷ [])));
    }

-- What is flushed and what is committed are the rows from before.
abbrev pub Kept : Database → Session → Type 0
Kept before s = SameRows before s.db × SameRows before s.committed

-- The action writes events alone, whether it returns or raises.
pub record IsSteady {A : Type 0} (m : Action A) : Type 0 where
  pub at : (before : Database) (s : Session) → Kept before s → Kept before (m s).1

module _ {A : Type 0} where
  pub IsSteady-pure : (a : A) → IsSteady (pure a)
  unfolding pure
  IsSteady-pure a = record { at = λ before s k. k }

  pub IsSteady-raise : (e : Error) → IsSteady (raise {A = A} e)
  unfolding raise
  IsSteady-raise e = record { at = λ before s k. k }

  pub IsSteady-or_raise : (o : Option A) (e : Error) → IsSteady (or_raise o e)
  unfolding or_raise
  IsSteady-or_raise none e = record { at = λ before s k. k }
  IsSteady-or_raise (some a) e = record { at = λ before s k. k }

  pub IsSteady-reads : (f : Database → A) → IsSteady (reads f)
  unfolding reads
  IsSteady-reads f = record { at = λ before s k. k }

  pub IsSteady-if :
      (b : Bool) (m n : Action A) → IsSteady m → IsSteady n → IsSteady (if b then m else n)
  IsSteady-if true m n sm sn = sm
  IsSteady-if false m n sm sn = sn

pub IsSteady-raise_if : (test : Bool) (e : Error) → IsSteady (raise_if test e)
unfolding raise_if
IsSteady-raise_if test e = record { at = λ before s k. k }

pub IsSteady-clock : IsSteady clock
unfolding clock
IsSteady-clock = record { at = λ before s k. k }

pub IsSteady-commit : IsSteady commit
unfolding commit
IsSteady-commit = record { at = λ before s k. (k.0, k.0) }

pub IsSteady-append :
    (task_id event_type : String) (payload : Events.Payload)
    → IsSteady (Events.append task_id event_type payload)
unfolding Events.append ◌>>=◌
IsSteady-append task_id event_type payload = record {
  at = λ before s k. elim (Bool-cases (any (λ e. e.id == s.ids s.drawn) s.db.events)) [
    | inl taken ↦ rw taken k
    | inr fresh ↦ rw fresh (SameRows-event before s.db _ k.0, k.1)
  ];
}

module _ {A B : Type 0} (f : A → Action B) where
  continue_steady :
      (before : Database) (r : Result A) (s : Session)
      → ((a : A) → IsSteady (f a))
      → Kept before s
      → Kept before (continue r f s).1
  continue_steady before (ok a) s q k = (q a).at before s k
  continue_steady before (err e) s q k = k

  pub IsSteady-bind : (m : Action A) → IsSteady m → ((a : A) → IsSteady (f a)) → IsSteady (m >>= f)
  unfolding ◌>>=◌
  IsSteady-bind m sm sf = record {
    at = λ before s k. let (r, s') = m s in continue_steady before r s' sf (sm.at before s k);
  }

abbrev FailsOn : {A : Type 0} → Database → Result A × Session → Type 0
FailsOn before (ok a, s) = Unit
FailsOn before (err e, s) = SameRows before s.committed

-- If the action raises, what is committed has the rows from before.
pub record FailsSteadily {A : Type 0} (m : Action A) : Type 0 where
  pub at : (before : Database) (s : Session) → Kept before s → FailsOn before (m s)

module _ {A B : Type 0} (f : A → Action B) where
  continue_fails :
      (before : Database) (r : Result A) (s : Session)
      → ((a : A) → FailsSteadily (f a))
      → Kept before s
      → FailsOn before (continue r f s)
  continue_fails before (ok a) s q k = (q a).at before s k
  continue_fails before (err e) s q k = k.1

  pub FailsSteadily-bind :
      (m : Action A) → IsSteady m → ((a : A) → FailsSteadily (f a)) → FailsSteadily (m >>= f)
  unfolding ◌>>=◌
  FailsSteadily-bind m sm sf = record {
    at = λ before s k. let (r, s') = m s in continue_fails before r s' sf (sm.at before s k);
  }

module _ {A : Type 0} where
  pub FailsSteadily-if :
      (b : Bool) (m n : Action A)
      → FailsSteadily m
      → FailsSteadily n
      → FailsSteadily (if b then m else n)
  FailsSteadily-if true m n fm fn = fm
  FailsSteadily-if false m n fm fn = fn

  raised_before :
      (before : Database) (s : Session) (r : Result A × Session)
      → Kept before s
      → Unchanged s.committed r
      → FailsOn before r
  raised_before before s (ok a, t) k u = tt
  raised_before before s (err e, t) k u = subst (SameRows before) (sym u) k.1

  -- The last part of a handler, with the one commit at its end.
  pub FailsSteadily-atomic : (m : Action A) → IsAtomic m → FailsSteadily m
  FailsSteadily-atomic m am = record { at = λ before s k. raised_before before s (m s) k (am.at s) }

pub ruleset steady_rules = (
  IsSteady-pure, IsSteady-raise, IsSteady-or_raise, IsSteady-reads, IsSteady-raise_if,
  IsSteady-clock, IsSteady-commit, IsSteady-append, IsSteady-if, IsSteady-bind,
)

abbrev pub FailedKeeping : {A : Type 0} → Database → Result A × Database → Type 0
FailedKeeping before (ok a, after) = Unit
FailedKeeping before (err e, after) = SameRows before after

close_keeps :
    {A : Type 0} (before : Database) (r : Result A) (s : Session)
    → FailsOn before (r, s)
    → FailedKeeping before (r, s.committed)
close_keeps before (ok a) s h = tt
close_keeps before (err e) s h = h

-- A request that fails leaves all rows, with at most more events.
pub serve-FailedKeeping :
    {A : Type 0} (ids : ℕ → String) (now : ℕ) (m : Action A) (db : Database)
    → FailsSteadily m
    → FailedKeeping db (serve ids now m db)
unfolding serve
serve-FailedKeeping ids now m db f =
    let s : Session = record { db = db; committed = db; ids = ids; drawn = 0; now = now } in
    close_keeps db (m s).0 (m s).1 (f.at db s (SameRows-refl db, SameRows-refl db))
