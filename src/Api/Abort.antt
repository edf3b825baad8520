-- ===== src/Api/Abort.antt =====
-- cnf/api/v1/migrations.py: what `abort_migration` writes, and what becomes of it when the engine of
-- the migration goes on.
use open_stack_cnf.Prelude.{
  String, ◌⧺◌, Bool, true, false, none, some, is_some, ◌≡◌, refl, ◌∙◌, ap, ◌∷◌, if◌then◌else◌,
}
use open_stack_cnf.Prelude.Dict.{lookup, insert, lookup-insert_self}
use open_stack_cnf.Db.Models.{Migration, aborted, done, failed, state_value}
use open_stack_cnf.Effect.Exceptions.{ok, err, http_error}
use open_stack_cnf.Effect.Call.{History, db_session}
use open_stack_cnf.Effect.Env.{Env}
use open_stack_cnf.Effect.Action.{◌>>=◌}
use open_stack_cnf.Effect.Laws.{>>=-of-ok}
use open_stack_cnf.Effect.Session.{World, with_session}
use open_stack_cnf.Migration.Context.{Engine, update_row, put_row}
use open_stack_cnf.Migration.Row.{row_state}
use open_stack_cnf.Migration.Calls.{HasRow}
use open_stack_cnf.Migration.Outcome.{run-cold_outcome, run-live_outcome}
use open_stack_cnf.Migration.Returns.{run-cold_returns, run-live_returns}
use open_stack_cnf.Migration.Cold
use open_stack_cnf.Migration.Live
use open_stack_cnf.Api.Migrations.{
  abort_migration, check_abort, mark_aborted, is_terminal, not_found,
}

module _ (env : Env) (sound : (h : History) → env.db_fault h ≡ none) where
  abort_missing :
      (id : String) (w : World)
      → lookup id w.db.migrations ≡ none
      → ((abort_migration env id w).0 ≡ err not_found) × ((abort_migration env id w).1.db ≡ w.db)
  unfolding abort_migration ◌>>=◌ with_session check_abort
  abort_missing id w h = rw (sound w.history, h) (refl, refl)

  abort_ended :
      (id : String) (w : World) (m : Migration)
      → lookup id w.db.migrations ≡ some m
      → is_terminal m.state ≡ true
      → ((abort_migration env id w).0
          ≡ err (http_error 409 ("Migration already in terminal state: " ⧺ state_value m.state)))
        × ((abort_migration env id w).1.db ≡ w.db)
  unfolding abort_migration ◌>>=◌ with_session check_abort
  abort_ended id w m h t = rw (sound w.history, h, t) (refl, refl)

  passed :
      (id : String) (w : World) (m : Migration)
      → lookup id w.db.migrations ≡ some m
      → is_terminal m.state ≡ false
      → with_session env (check_abort id) w ≡ (ok tt, record w { history = db_session ∷ w.history })
  unfolding with_session check_abort
  passed id w m h t = rw (sound w.history, h, t) refl

  marked :
      (id : String) (w : World) (m : Migration)
      → lookup id w.db.migrations ≡ some m
      → with_session env (mark_aborted id) w ≡ (
        ok tt,
        record {
          history = db_session ∷ w.history;
          db = record w.db {
            migrations =
                insert id
                  (record m { state = aborted; error = some "Aborted by user" })
                  w.db.migrations;
          };
        },
      )
  unfolding with_session mark_aborted update_row put_row
  marked id w m h = rw (sound w.history, h) refl

  abort_active :
      (id : String) (w : World) (m : Migration)
      → lookup id w.db.migrations ≡ some m
      → is_terminal m.state ≡ false
      → ((abort_migration env id w).0 ≡ ok tt)
        × ((abort_migration env id w).1.db ≡ record w.db {
          migrations =
              insert id
                (record m { state = aborted; error = some "Aborted by user" })
                w.db.migrations;
        })
  unfolding abort_migration
  abort_active id w m h t =
      let p = passed id w m h t in
      let w' = record w { history = db_session ∷ w.history } in
      let q =
        >>=-of-ok (with_session env (check_abort id)) (λ _. with_session env (mark_aborted id)) w
          (ap (λ r. r.0) p)
        ∙ ap (λ r. with_session env (mark_aborted id) r.1) p
        ∙ marked id w' m h in
      (ap (λ r. r.0) q, ap (λ r. r.1.db) q)

  -- Where no session fails, an abort is answered with 404 if the migration has no row and with 409 if
  -- it is DONE, FAILED or ABORTED, and these change no table; else it is accepted, and changes
  -- nothing but the row, which is then ABORTED with the text "Aborted by user".
  pub abort_migration-by_state :
      (id : String) (w : World)
      → (lookup id w.db.migrations ≡ none
          → ((abort_migration env id w).0 ≡ err (http_error 404 "Migration not found"))
            × ((abort_migration env id w).1.db ≡ w.db))
        × ((m : Migration)
            → lookup id w.db.migrations ≡ some m
            → is_terminal m.state ≡ true
            → ((abort_migration env id w).0
                ≡ err (
                    http_error 409 ("Migration already in terminal state: " ⧺ state_value m.state)))
              × ((abort_migration env id w).1.db ≡ w.db))
        × ((m : Migration)
            → lookup id w.db.migrations ≡ some m
            → is_terminal m.state ≡ false
            → ((abort_migration env id w).0 ≡ ok tt)
              × ((abort_migration env id w).1.db ≡ record w.db {
                migrations =
                    insert id
                      (record m { state = aborted; error = some "Aborted by user" })
                      w.db.migrations;
              }))
  abort_migration-by_state id w = (abort_missing id w, abort_ended id w, abort_active id w)

  -- The engine of a migration as it goes on after the API has aborted the migration.
  abbrev pub after_abort : Engine → Engine
  unfolding abort_migration
  after_abort e = record e { world = (abort_migration env e.ctx.migration_id e.world).1 }

  after_abort-HasRow :
      (e : Engine) (m : Migration)
      → lookup e.ctx.migration_id e.world.db.migrations ≡ some m
      → is_terminal m.state ≡ false
      → HasRow e.ctx.migration_id (after_abort e).world
  unfolding after_abort
  after_abort-HasRow e m h t =
      ap (λ d. is_some (lookup e.ctx.migration_id d.migrations))
        (abort_active e.ctx.migration_id e.world m h t).1
      ∙ ap is_some (lookup-insert_self e.ctx.migration_id _ e.world.db.migrations)

  -- Where no session fails, an abort that the API has accepted does not stop the engine of the
  -- migration, cold or live: when it runs from there it returns, and leaves the row DONE or FAILED
  -- as its result says, and not ABORTED.
  pub run-after_abort :
      (e : Engine) (m : Migration)
      → e.aborted ≡ false
      → lookup e.ctx.migration_id e.world.db.migrations ≡ some m
      → is_terminal m.state ≡ false
      → ((b : Bool) × ((Cold.run env (after_abort e)).0 ≡ ok b)
          × (row_state e.ctx.migration_id (Cold.run env (after_abort e)).1.world.db
              ≡ some (if b then done else failed)))
        × ((b : Bool) × ((Live.run env (after_abort e)).0 ≡ ok b)
            × (row_state e.ctx.migration_id (Live.run env (after_abort e)).1.world.db
                ≡ some (if b then done else failed)))
  unfolding after_abort
  run-after_abort e m live h t =
      let has = after_abort-HasRow e m h t in
      let (b, p) = run-cold_returns env (after_abort e) sound in
      let (c, q) = run-live_returns env (after_abort e) sound in
      (
        (b, p, run-cold_outcome env (after_abort e) b live has p),
        (c, q, run-live_outcome env (after_abort e) c live has q),
      )
