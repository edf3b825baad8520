-- ===== src/Migration/Start.antt =====
-- cnf/migration/engine.py: the start of an engine, as cnf/api/v1/vms.py and
-- cnf/tasks/migration_tasks.py make it.
use open_stack_cnf.Prelude.{String, Bool, false, Option, none, [], if◌then◌else◌}
use open_stack_cnf.Prelude.Dict.{Dict}
use open_stack_cnf.Prelude.Percent.{whole}
use open_stack_cnf.Db.Models.{MigrationType, cold, live, pending}
use open_stack_cnf.Effect.Env.{Env}
use open_stack_cnf.Effect.Action.{Action}
use open_stack_cnf.Effect.Session.{World}
use open_stack_cnf.Migration.Context.{MigrationContext, Engine}
use open_stack_cnf.Migration.Cold
use open_stack_cnf.Migration.Live

-- `MigrationType.LIVE if live else MigrationType.COLD`
abbrev pub type_of : Bool → MigrationType
type_of is_live = if is_live then live else cold

-- A context with the defaults of `MigrationContext` for the fields that are not given.
abbrev pub new_context :
    String → String → String → String → Bool → Dict (Option String) → MigrationContext
new_context migration_id vm_id source_cluster dest_cluster is_live options = record {
  migration_id = migration_id;
  vm_id = vm_id;
  source_cluster_id = source_cluster;
  dest_cluster_id = dest_cluster;
  migration_type = type_of is_live;
  options = options;
  vm = none;
  rbd_images = [];
  vm_ips = [];
  source_grpc_client = none;
  dest_grpc_client = none;
  state = pending;
  progress = whole 0;
  started_at = none;
  error = "";
}

-- `MigrationEngine.__init__`
abbrev pub new_engine : MigrationContext → World → Engine
new_engine ctx w = record {
  world = w;
  ctx = ctx;
  rollbacks = [];
  aborted = false;
  cancelled = false;
}

-- `engine.run()` of an engine that starts in the world.
unfoldable pub run_engine : Env → Bool → MigrationContext → Action World Bool
run_engine env is_live ctx w =
    let (r, e) = (if is_live then Live.run env else Cold.run env) (new_engine ctx w) in (r, e.world)
