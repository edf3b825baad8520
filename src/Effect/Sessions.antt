-- ===== src/Effect/Sessions.antt =====
-- cnf/db/session.py: the value of a session, and when it has one.
use open_stack_cnf.Prelude.{none, some, ◌≡◌, refl, ◌∙◌, ap, Option, ◌∷◌}
use open_stack_cnf.Db.Models.{Database}
use open_stack_cnf.Effect.Exceptions.{Exception, Result, ok, err}
use open_stack_cnf.Effect.Call.{db_session}
use open_stack_cnf.Effect.Env.{Env}
use open_stack_cnf.Effect.Action.{Action}
use open_stack_cnf.Effect.Session.{World, with_session, settle, faulty}

faulty-value :
    {A : Type 0} (o : Option Exception) (w : World) (r : Result A × Database) {a : A}
    → (faulty o w (settle w r)).0 ≡ ok a
    → (o ≡ none) × (r.0 ≡ ok a)
faulty-value none w (ok a, d) h = (refl, h)
faulty-value none w (err e, d) h = cc
faulty-value (some e) w r h = cc

module _ {A : Type 0} (env : Env) (body : Action Database A) (w : World) where
  -- A session that returns had no fault, and its body returned.
  pub with_session-value :
      {a : A}
      → (with_session env body w).0 ≡ ok a
      → (env.db_fault w.history ≡ none) × ((body w.db).0 ≡ ok a)
  unfolding with_session
  with_session-value h = faulty-value _ _ (body w.db) h

  -- A session with no fault is its body, with what it wrote if it returned.
  pub with_session_sound :
      env.db_fault w.history ≡ none
      → with_session env body w ≡ settle (record w { history = db_session ∷ w.history }) (body w.db)
  unfolding with_session
  with_session_sound h = rw h refl

settle-value :
    {A : Type 0} (w : World) (r : Result A × Database) {a : A}
    → r.0 ≡ ok a
    → settle w r ≡ (ok a, record w { db = r.1 })
settle-value w (ok a, d) h = cc
settle-value w (err e, d) h = cc

module _ {A : Type 0} (env : Env) (body : Action Database A) (w : World) where
  -- A session with no fault whose body returns.
  pub with_session-of-value :
      {a : A}
      → env.db_fault w.history ≡ none
      → (body w.db).0 ≡ ok a
      → with_session env body w
        ≡ (ok a, record { history = db_session ∷ w.history; db = (body w.db).1 })
  with_session-of-value sound h =
      with_session_sound env body w sound
      ∙ settle-value (record w { history = db_session ∷ w.history }) (body w.db) h

  pub session_value :
      {a : A}
      → env.db_fault w.history ≡ none
      → (body w.db).0 ≡ ok a
      → (with_session env body w).0 ≡ ok a
  session_value sound h = ap (λ r. r.0) (with_session-of-value sound h)
