-- ===== src/Store/Ensures.antt =====
-- What a handler leaves when it succeeds: postconditions of actions, with a rule for each step.

use mathlib.Core.Path.{subst}
use multi_tenant_file_delive.Prelude.{
  ℕ, String, suc, ◌≡◌, refl, sym, Bool, true, false, Option, none, some,
}
use multi_tenant_file_delive.Store.Rows.{Database}
use multi_tenant_file_delive.Store.Session.{
  Error, Result, ok, err, Session, Action, ◌>>=◌, pure, or_raise, reads, raise_if, writes, commit,
  gen_id, clock, continue, serve,
}

abbrev pub Post : {A : Type 0} → Result A × Session → (A → Session → Type 0) → Type 0
Post (ok a, s) Q = Q a s
Post (err e, s) Q = Unit

-- If the action returns from the state `s`, its result and the state after it satisfy `Q`.
pub record Ensures {A : Type 0} (m : Action A) (s : Session) (Q : A → Session → Type 0)
    : Type 0 where
  pub post : Post (m s) Q

-- The session with other rows, and with one id more drawn.
abbrev pub with_db : (Database → Database) → Session → Session
with_db f s = record s { db = f s.db }

abbrev pub with_drawn : Session → Session
with_drawn s = record s { drawn = suc s.drawn }

abbrev pub with_commit : Session → Session
with_commit s = record s { committed = s.db }

module _ {A : Type 0} {s : Session} {Q : A → Session → Type 0} where
  pub ensures-pure : (a : A) → Q a s → Ensures (pure a) s Q
  unfolding pure
  ensures-pure a q = record { post = q }

  -- The last step of a handler.
  pub ensures-or_raise_last :
      (o : Option A) (e : Error) → ((a : A) → o ≡ some a → Q a s) → Ensures (or_raise o e) s Q
  unfolding or_raise
  ensures-or_raise_last none e h = record { post = tt }
  ensures-or_raise_last (some a) e h = record { post = h a refl }

  pub ensures-reads_last : (g : Database → A) → Q (g s.db) s → Ensures (reads g) s Q
  unfolding reads
  ensures-reads_last g q = record { post = q }

  pub ensures-weaken :
      (m : Action A) (P : A → Session → Type 0)
      → Ensures m s P
      → ((a : A) (t : Session) → P a t → Q a t)
      → Ensures m s Q
  ensures-weaken m P h w = record { post = go (m s) h.post }
    where
      go : (r : Result A × Session) → Post r P → Post r Q
      go (ok a, t) p = w a t p
      go (err e, t) p = tt

module _ {A B : Type 0} {Q : B → Session → Type 0} (f : A → Action B) where
  continue_post :
      (r : Result A × Session) (P : A → Session → Type 0)
      → Post r P
      → ((a : A) (t : Session) → P a t → Ensures (f a) t Q)
      → Post (continue r.0 f r.1) Q
  continue_post (ok a, t) P p k = (k a t p).post
  continue_post (err e, t) P p k = tt

module _ {A B : Type 0} {s : Session} {Q : B → Session → Type 0} (f : A → Action B) where
  -- A step by its own postcondition.
  pub ensures-bind :
      (m : Action A) (P : A → Session → Type 0)
      → Ensures m s P
      → ((a : A) (t : Session) → P a t → Ensures (f a) t Q)
      → Ensures (m >>= f) s Q
  unfolding ◌>>=◌
  ensures-bind m P h k = record { post = continue_post f (m s) P h.post k }

  pub ensures-reads : (g : Database → A) → Ensures (f (g s.db)) s Q → Ensures (reads g >>= f) s Q
  unfolding ◌>>=◌
  ensures-reads g h = record { post = h.post }

  pub ensures-or_raise :
      (o : Option A) (e : Error)
      → ((a : A) → o ≡ some a → Ensures (f a) s Q)
      → Ensures (or_raise o e >>= f) s Q
  unfolding ◌>>=◌
  ensures-or_raise none e h = record { post = tt }
  ensures-or_raise (some a) e h = record { post = (h a refl).post }

module _ {B : Type 0} {s : Session} {Q : B → Session → Type 0} where
  pub ensures-raise_if :
      (test : Bool) (e : Error) (f : Unit {0} → Action B)
      → (test ≡ false → Ensures (f tt) s Q)
      → Ensures (raise_if test e >>= f) s Q
  unfolding ◌>>=◌
  ensures-raise_if true e f h = record { post = tt }
  ensures-raise_if false e f h = record { post = (h refl).post }

  pub ensures-writes :
      (g : Database → Database) (f : Unit {0} → Action B)
      → Ensures (f tt) (with_db g s) Q
      → Ensures (writes g >>= f) s Q
  unfolding ◌>>=◌
  ensures-writes g f h = record { post = h.post }

  pub ensures-commit :
      (f : Unit {0} → Action B) → Ensures (f tt) (with_commit s) Q → Ensures (commit >>= f) s Q
  unfolding ◌>>=◌
  ensures-commit f h = record { post = h.post }

  pub ensures-gen_id :
      (f : String → Action B)
      → Ensures (f (s.ids s.drawn)) (with_drawn s) Q
      → Ensures (gen_id >>= f) s Q
  unfolding ◌>>=◌
  ensures-gen_id f h = record { post = h.post }

  pub ensures-clock : (f : ℕ → Action B) → Ensures (f s.now) s Q → Ensures (clock >>= f) s Q
  unfolding ◌>>=◌
  ensures-clock f h = record { post = h.post }

module _ {A B C : Type 0} (g : A → Action B) (f : B → Action C) where
  continue_assoc :
      (r : Result A) (s : Session)
      → (let (r', s') = continue r g s in continue r' f s') ≡ continue r (λ a. g a >>= f) s
  unfolding ◌>>=◌
  continue_assoc (ok a) s = refl
  continue_assoc (err e) s = refl

  bind_assoc_at : (m : Action A) (s : Session) → ((m >>= g) >>= f) s ≡ (m >>= λ a. g a >>= f) s
  unfolding ◌>>=◌
  bind_assoc_at m s = let (r, s') = m s in continue_assoc r s'

  -- A block inside a block is read as one block.
  pub ensures-assoc :
      {s : Session} {Q : C → Session → Type 0} (m : Action A)
      → Ensures (m >>= λ a. g a >>= f) s Q
      → Ensures ((m >>= g) >>= f) s Q
  ensures-assoc {s} {Q} m h = record {
    post = subst (λ x. Post x Q) (sym (bind_assoc_at m s)) h.post;
  }

pub ensures-commit_last :
    {s : Session} {P : Unit {0} → Session → Type 0} → P tt (with_commit s) → Ensures commit s P
unfolding commit
ensures-commit_last q = record { post = q }

pub ensures-pure-bind :
    {A B : Type 0} {s : Session} {Q : B → Session → Type 0} (a : A) (f : A → Action B)
    → Ensures (f a) s Q
    → Ensures (pure a >>= f) s Q
unfolding ◌>>=◌
ensures-pure-bind a f h = record { post = h.post }

-- The session with which a request begins.
abbrev pub opened : (ℕ → String) → ℕ → Database → Session
opened ids now db = record { db = db; committed = db; ids = ids; drawn = 0; now = now }

abbrev pub Served : {A : Type 0} → Result A × Database → (A → Database → Type 0) → Type 0
Served (ok a, db) Q = Q a db
Served (err e, db) Q = Unit

module _ {A : Type 0} (Q : A → Database → Type 0) where
  post_of :
      (r : Result A) (s : Session)
      → Post (r, s) (λ a t. Q a t.committed)
      → Served (r, s.committed) Q
  post_of (ok a) s h = h
  post_of (err e) s h = tt

  -- A postcondition of what is committed is one of the request.
  pub serve-Served :
      (ids : ℕ → String) (now : ℕ) (m : Action A) (db : Database)
      → Ensures m (opened ids now db) (λ a t. Q a t.committed)
      → Served (serve ids now m db) Q
  unfolding serve
  serve-Served ids now m db h = let (r, s) = m (opened ids now db) in post_of r s h.post
