-- ===== src/Api/Submission.antt =====
-- cnf/api/v1/vms.py: a migration from its request to its end.
use open_stack_cnf.Prelude.{
  String, Bool, true, false, [], ◌∷◌, is_some, some, none, ◌≡◌, refl, ◌∙◌, ap, if◌then◌else◌,
}
use open_stack_cnf.Prelude.Dict.{lookup, lookup-insert_self}
use open_stack_cnf.Db.Models.{Migration, cold, live, done, failed, pending}
use open_stack_cnf.Effect.Exceptions.{ok}
use open_stack_cnf.Effect.Call.{History}
use open_stack_cnf.Effect.Env.{Env}
use open_stack_cnf.Effect.Action.{Action, with_state, pure, ◌>>=◌}
use open_stack_cnf.Effect.Session.{World, with_session}
use open_stack_cnf.Effect.Laws.{>>=-of-ok}
use open_stack_cnf.Migration.Calls.{HasRow}
use open_stack_cnf.Migration.Row.{row_state}
use open_stack_cnf.Migration.Finish.{run_engine_finishes}
use open_stack_cnf.Migration.Start.{run_engine, new_context}
use open_stack_cnf.Api.Vms.{
  MigrateRequest, BackgroundTask, Submission, migrate_vm, live_migrate_vm, run_migration,
  run_background, submitted, model_dump,
}

-- The handler of a path: `/migrate`, and with `true` `/live-migrate`.
abbrev pub submit : Env → Bool → String → MigrateRequest → Action World Submission
submit env is_live = if is_live then live_migrate_vm env else migrate_vm env

-- A request is accepted, and the task that it leaves ends the row that it adds.
abbrev pub Starts : Env → Bool → String → MigrateRequest → World → Type 0
Starts env is_live vm_id body w =
    let id = env.uuid w.history in
    let w' = (submit env is_live vm_id body w).1 in
    (r : Submission) × ((submit env is_live vm_id body w).0 ≡ ok r)
    × (r.answer ≡ record { migration_id = id; status = "accepted" })
    × (t : BackgroundTask) × (r.background_tasks ≡ t ∷ [])
    × (t ≡ record { migration_id = id; vm_id = vm_id; req = body; live = is_live })
    × (m : Migration) × (lookup id w'.db.migrations ≡ some m)
    × (m.state ≡ pending)
    × (m.type ≡ (if is_live then live else cold))
    × ((run_background env t w').0 ≡ ok tt)
    × (b : Bool) × (row_state id (run_background env t w').1.db ≡ some (if b then done else failed))

module _ (env : Env) (sound : (h : History) → env.db_fault h ≡ none) where
  -- The row that a request adds, and the task that it leaves.
  abbrev added_row : Bool → String → MigrateRequest → World → Migration
  added_row is_live vm_id body w =
      submitted env (env.uuid w.history) (env.now w.history) vm_id body
        (if is_live then live else cold)

  abbrev left_task : Bool → String → MigrateRequest → World → BackgroundTask
  left_task is_live vm_id body w = record {
    migration_id = env.uuid w.history;
    vm_id = vm_id;
    req = body;
    live = is_live;
  }

  submit_lem :
      (is_live : Bool) (vm_id : String) (body : MigrateRequest) (w : World)
      → let r = submit env is_live vm_id body w in
        (r.0
          ≡ ok (record {
            answer = record { migration_id = env.uuid w.history; status = "accepted" };
            background_tasks = left_task is_live vm_id body w ∷ [];
          }))
        × (lookup (env.uuid w.history) r.1.db.migrations ≡ some (added_row is_live vm_id body w))
  unfolding migrate_vm live_migrate_vm with_state ◌>>=◌ with_session
  submit_lem false vm_id body w =
      rw (sound w.history) (refl, lookup-insert_self (env.uuid w.history) _ w.db.migrations)
  submit_lem true vm_id body w =
      rw (sound w.history) (refl, lookup-insert_self (env.uuid w.history) _ w.db.migrations)

  run_migration_lem :
      (id vm_id : String) (body : MigrateRequest) (is_live : Bool) (w : World)
      → HasRow id w
      → ((run_migration env id vm_id body is_live w).0 ≡ ok tt)
        × (b : Bool) × (row_state id (run_migration env id vm_id body is_live w).1.db
            ≡ some (if b then done else failed))
  unfolding run_migration
  run_migration_lem id vm_id body is_live w has =
      let ctx =
        new_context id vm_id env.settings.cluster_id body.dest_cluster_id is_live
          (model_dump body) in
      let (b, p, q) = run_engine_finishes env is_live ctx w sound has in
      let e = >>=-of-ok (run_engine env is_live ctx) (λ _. pure tt) w p in
      (ap (λ r. r.0) e, b, ap (λ r. row_state id r.1.db) e ∙ q)

  run_background_lem :
      (t : BackgroundTask) (w : World)
      → HasRow t.migration_id w
      → ((run_background env t w).0 ≡ ok tt)
        × (b : Bool) × (row_state t.migration_id (run_background env t w).1.db
            ≡ some (if b then done else failed))
  unfolding run_background
  run_background_lem t w has = run_migration_lem t.migration_id t.vm_id t.req t.live w has

  -- Where no session fails, a request to migrate a machine is accepted with a new id, adds a PENDING
  -- row under it, a cold one from the one path and a live one from the other, and leaves one task of
  -- the background, for that id, machine and body with the flag of the row's type; the task, when it
  -- is run next, returns, and that row is then DONE or FAILED.
  pub migrate_vm-ends :
      (is_live : Bool) (vm_id : String) (body : MigrateRequest) (w : World)
      → Starts env is_live vm_id body w
  migrate_vm-ends is_live vm_id body w =
      let (accepted, row) = submit_lem is_live vm_id body w in
      let t = left_task is_live vm_id body w in
      let (returns, b, ends) =
        run_background_lem t (submit env is_live vm_id body w).1 (ap is_some row) in
      (
        _,
        accepted,
        refl,
        t,
        refl,
        refl,
        added_row is_live vm_id body w,
        row,
        refl,
        refl,
        returns,
        b,
        ends,
      )
