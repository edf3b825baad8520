-- ===== src/Migration/Row.antt =====
-- cnf/migration/engine.py: the row of a migration after `_transition` and after `_fail`.
use mathlib.Core.Path.{subst}
use open_stack_cnf.Prelude.{
  arith, String, true, Option, none, some, ◌≡◌, refl, sym, ◌∙◌, ap, is_some,
}
use open_stack_cnf.Prelude.Dict.{Dict, lookup, lookup-insert_self}
use open_stack_cnf.Prelude.Percent.{Percent}
use open_stack_cnf.Db.Models.{Migration, MigrationState, Database, failed}
use open_stack_cnf.Effect.Exceptions.{Exception, Result, ok, err}
use open_stack_cnf.Effect.Env.{Env}
use open_stack_cnf.Effect.Action.{Action, with_state, ◌>>=◌}
use open_stack_cnf.Effect.Session.{World, with_session, settle, faulty}
use open_stack_cnf.Effect.Laws.{>>=-eq-ok, >>=-of-ok}
use open_stack_cnf.Migration.Context.{
  Engine, engine_session, transition, fail, update_row, put_row, record_state, record_failure,
  enter_state, fail_row, set_error, count_failure,
}
use open_stack_cnf.Migration.Calls.{HasRow}

abbrev pub state_of : Option Migration → Option MigrationState
state_of none = none
state_of (some m) = some m.state

-- The state that the database has for a migration.
abbrev pub row_state : String → Database → Option MigrationState
row_state id d = state_of (lookup id d.migrations)

faulty-of-ok :
    {A : Type 0} (o : Option Exception) (w : World) (r : Result A × Database) {a : A}
    → (faulty o w (settle w r)).0 ≡ ok a
    → (faulty o w (settle w r)).1.db ≡ r.1
faulty-of-ok o w r h = ground arith

-- A session that returns has written what its body made.
pub with_session-of-ok :
    {A : Type 0} (env : Env) (body : Action Database A) (w : World) {a : A}
    → (with_session env body w).0 ≡ ok a
    → (with_session env body w).1.db ≡ (body w.db).1
unfolding with_session
with_session-of-ok env body w h = faulty-of-ok _ _ (body w.db) h

faulty-of-err :
    {A : Type 0} (o : Option Exception) (w : World) (r : Result A × Database) {x : Exception}
    → (faulty o w (settle w r)).0 ≡ err x
    → (faulty o w (settle w r)).1.db ≡ w.db
faulty-of-err o w r h = ground arith

-- A session that raises has written nothing.
pub with_session-of-err :
    {A : Type 0} (env : Env) (body : Action Database A) (w : World) {x : Exception}
    → (with_session env body w).0 ≡ err x
    → (with_session env body w).1.db ≡ w.db
unfolding with_session
with_session-of-err env body w h = faulty-of-err _ _ (body w.db) h

pub row-update_row :
    (id : String) (f : Migration → Migration) (rows : Dict Migration) (m : Migration)
    → lookup id rows ≡ some m
    → lookup id (update_row id f rows) ≡ some (f m)
unfolding update_row put_row
row-update_row id f rows m h =
    subst (λ o. lookup id (put_row id f o rows) ≡ some (f m)) (sym h)
      (lookup-insert_self id (f m) rows)

some-of-is_some : {A : Type 0} (o : Option A) → is_some o ≡ true → (a : A) × (o ≡ some a)
some-of-is_some none h = cc
some-of-is_some (some a) h = (a, refl)

-- The state of a row after an update, if there is a row.
pub state-update_row :
    (id : String) (f : Migration → Migration) (state : MigrationState) (rows : Dict Migration)
    → ((m : Migration) → (f m).state ≡ state)
    → is_some (lookup id rows) ≡ true
    → state_of (lookup id (update_row id f rows)) ≡ some state
state-update_row id f state rows hf has =
    let (m, p) = some-of-is_some (lookup id rows) has in
    ap state_of (row-update_row id f rows m p) ∙ ap some (hf m)

module _ (env : Env) (e : Engine) (has : HasRow e.ctx.migration_id e.world) where
  -- A transition that returns has written its state.
  pub transition-row :
      (state : MigrationState) (p : Percent)
      → (transition env state p e).0 ≡ ok tt
      → row_state e.ctx.migration_id (transition env state p e).1.world.db ≡ some state
  unfolding transition ◌>>=◌ with_state engine_session record_state
  transition-row state p h =
      let id = e.ctx.migration_id in
      let now = env.now e.world.history in
      ap (row_state id) (with_session-of-ok env (record_state id state p now) e.world h)
      ∙ state-update_row id (enter_state state p now) state e.world.db.migrations (λ m. refl) has

  -- A call of `_fail` that returns has written that the migration failed.
  pub fail-row :
      (error : String)
      → (fail env error e).0 ≡ ok tt
      → row_state e.ctx.migration_id (fail env error e).1.world.db ≡ some failed
  unfolding fail ◌>>=◌ with_state engine_session record_failure
  fail-row error h =
      let id = e.ctx.migration_id in
      let now = env.now e.world.history in
      let write = with_state (λ s. engine_session env (record_failure s.ctx.migration_id error)) in
      let e' = set_error env error e in
      let (a, p, q) = >>=-eq-ok write (λ _. count_failure env) e' h in
      ap (λ r. row_state id r.1.world.db) (>>=-of-ok write (λ _. count_failure env) e' p)
      ∙ ap (row_state id) (with_session-of-ok env (record_failure id error now) e.world p)
      ∙ state-update_row id (fail_row error now) failed e.world.db.migrations (λ m. refl) has
