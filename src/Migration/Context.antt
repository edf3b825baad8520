-- ===== src/Migration/Context.antt =====
-- cnf/migration/engine.py: the context of a migration, the state of its engine, and the methods
-- of the base class that write to the database.
use open_stack_cnf.Prelude.{ℕ, String, ◌⧺◌, Bool, Option, none, some, List, [], ◌∷◌, ◌++◌}
use open_stack_cnf.Prelude.Dict.{Dict, lookup, insert}
use open_stack_cnf.Prelude.Percent.{Percent}
use open_stack_cnf.Db.Models.{
  MigrationType, MigrationState, Migration, MigrationEvent, Database, done, failed, state_value,
}
use open_stack_cnf.Effect.Exceptions.{ok}
use open_stack_cnf.Effect.Call.{Side, metric, migration_total}
use open_stack_cnf.Effect.Env.{Env}
use open_stack_cnf.Effect.Action.{Action, with_state, modify, ◌>>◌}
use open_stack_cnf.Effect.Session.{World, with_session, tell}
use open_stack_cnf.OpenStack.{VmDetails}

-- `MigrationContext`. The clients of the gRPC stubs may be None.
pub record MigrationContext : Type 0 where
  pub migration_id : String
  pub vm_id : String
  pub source_cluster_id : String
  pub dest_cluster_id : String
  pub migration_type : MigrationType
  pub options : Dict (Option String)
  pub vm : Option VmDetails
  pub rbd_images : List String
  pub vm_ips : List String
  pub source_grpc_client : Option Side
  pub dest_grpc_client : Option Side
  pub state : MigrationState
  pub progress : Percent
  pub started_at : Option ℕ
  pub error : String

-- `QEMUMigrationTunnel.__init__`
pub record Tunnel : Type 0 where
  pub vm_id : String
  pub source_host : String
  pub dest_host : String
  pub port : ℕ

-- The handlers that `_register_rollback` takes.
pub data Rollback : Type 0 where
  rollback_disk rollback_cutover : Rollback
  rollback_bgp : List String → Rollback
  abort_tunnel : Tunnel → Rollback

-- An engine with the world that it works on. `cancelled` is the `_cancelled` of its tunnel.
pub record Engine : Type 0 where
  pub world : World
  pub ctx : MigrationContext
  pub rollbacks : List Rollback
  pub aborted : Bool
  pub cancelled : Bool

-- An action of a client, taken by the engine.
abbrev pub on_world : {A : Type 0} → Action World A → Action Engine A
on_world m e = let (r, w) = m e.world in (r, record e { world = w })

abbrev pub event_of : String → MigrationState → Percent → MigrationEvent
event_of id state progress = record {
  migration_id = id;
  state = state_value state;
  message = "Entered state " ⧺ state_value state;
  progress = progress;
}

-- `if state == MigrationState.DONE: migration.finished_at = …`
abbrev pub finished_by : MigrationState → ℕ → Option ℕ → Option ℕ
finished_by done now _ = some now
finished_by _ now before = before

abbrev pub enter_state : MigrationState → Percent → ℕ → Migration → Migration
enter_state state progress now m = record m {
  state = state;
  progress_pct = progress;
  finished_at = finished_by state now m.finished_at;
}

-- The row that a session found, if there is one, after an update.
unfoldable pub put_row :
    String → (Migration → Migration) → Option Migration → Dict Migration → Dict Migration
put_row id f none rows = rows
put_row id f (some m) rows = insert id (f m) rows

-- `migration = await session.get(Migration, id)`, and `if migration: …`
unfoldable pub update_row : String → (Migration → Migration) → Dict Migration → Dict Migration
update_row id f rows = put_row id f (lookup id rows) rows

-- The body of the session of `_transition`.
unfoldable pub record_state : String → MigrationState → Percent → ℕ → Action Database (Unit {0})
record_state id state progress now d = (
  ok tt,
  record d {
    migrations = update_row id (enter_state state progress now) d.migrations;
    events = d.events ++ (event_of id state progress ∷ []);
  },
)

abbrev pub fail_row : String → ℕ → Migration → Migration
fail_row error now m = record m { state = failed; error = some error; finished_at = some now }

-- The body of the session of `_fail`.
unfoldable pub record_failure : String → String → ℕ → Action Database (Unit {0})
record_failure id error now d =
    (ok tt, record d { migrations = update_row id (fail_row error now) d.migrations })

module _ (env : Env) where
  -- A session of the engine; the time is read inside.
  unfoldable pub engine_session : (ℕ → Action Database (Unit {0})) → Action Engine (Unit {0})
  engine_session body = with_state λ e. on_world (with_session env (body (env.now e.world.history)))

  abbrev pub set_state : MigrationState → Percent → Engine → Engine
  set_state state progress e = record e {
    ctx = record e.ctx { state = state; progress = progress };
  }

  -- `_transition`
  unfoldable pub transition : MigrationState → Percent → Action Engine (Unit {0})
  transition state progress = do
    modify (set_state state progress)
    with_state λ e. engine_session (record_state e.ctx.migration_id state progress)

  abbrev pub set_error : String → Engine → Engine
  set_error error e = record e { ctx = record e.ctx { error = error } }

  abbrev pub count_failure : Action Engine (Unit {0})
  count_failure = with_state λ e. on_world (
      tell (
        metric (
          migration_total e.ctx.migration_type e.ctx.source_cluster_id e.ctx.dest_cluster_id
            "failed")))

  -- `_fail`
  unfoldable pub fail : String → Action Engine (Unit {0})
  fail error = do
    modify (set_error error)
    with_state λ e. engine_session (record_failure e.ctx.migration_id error)
    count_failure

-- `_register_rollback`
unfoldable pub register_rollback : Rollback → Action Engine (Unit {0})
register_rollback r e = (ok tt, record e { rollbacks = e.rollbacks ++ (r ∷ []) })
