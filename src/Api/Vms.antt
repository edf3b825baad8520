-- ===== src/Api/Vms.antt =====
-- cnf/api/v1/vms.py: the listing of machines, and the start of a migration.
use open_stack_cnf.Prelude.{ℕ, String, Bool, true, false, Option, none, some, List, [], ◌∷◌, map}
use open_stack_cnf.Prelude.Dict.{Dict, insert}
use open_stack_cnf.Prelude.Percent.{whole}
use open_stack_cnf.Db.Models.{Migration, MigrationType, cold, live, pending, Database}
use open_stack_cnf.Effect.Exceptions.{Exception, vm_not_found, http_error}
use open_stack_cnf.Effect.Call.{source}
use open_stack_cnf.Effect.Env.{Env}
use open_stack_cnf.Effect.Action.{Action, pure, raise, with_state, attempt, modify, ◌>>=◌, ◌>>◌}
use open_stack_cnf.Effect.Session.{World, with_session}
use open_stack_cnf.OpenStack
use open_stack_cnf.OpenStack.{VmDetails}
use open_stack_cnf.Migration.Start.{new_context, run_engine}

pub record VmSummary : Type 0 where
  pub id : String
  pub name : String
  pub status : String
  pub host : String
  pub ips : List String
  pub floating_ips : List String
  pub volumes : List String

abbrev pub vm_summary : VmDetails → VmSummary
vm_summary v = record {
  id = v.id;
  name = v.name;
  status = v.status;
  host = v.host;
  ips = v.ips;
  floating_ips = v.floating_ips;
  volumes = v.volume_ids;
}

pub record VmPage : Type 0 where
  pub summary : VmSummary
  pub flavor_id : String
  pub metadata : Dict String

abbrev pub vm_page : VmDetails → VmPage
vm_page vm = record { summary = vm_summary vm; flavor_id = vm.flavor_id; metadata = vm.metadata }

pub record MigrateRequest : Type 0 where
  pub dest_cluster_id : String
  pub dest_host : Option String
  pub dest_next_hop : Option String

-- `body.model_dump()`
abbrev pub model_dump : MigrateRequest → Dict (Option String)
model_dump r =
    ("dest_cluster_id", some r.dest_cluster_id)
    ∷ ("dest_host", r.dest_host)
    ∷ ("dest_next_hop", r.dest_next_hop)
    ∷ []

-- The answer of the two handlers that start a migration, with status 202.
pub record Accepted : Type 0 where
  pub migration_id : String
  pub status : String

-- A task of `BackgroundTasks`: `_run_migration` with its arguments.
pub record BackgroundTask : Type 0 where
  pub migration_id : String
  pub vm_id : String
  pub req : MigrateRequest
  pub live : Bool

-- A handler's answer, and what it has added to its `background_tasks`, which are new to the request.
-- They are run once the answer is sent.
pub record Submission : Type 0 where
  pub answer : Accepted
  pub background_tasks : List BackgroundTask

abbrev pub add_row : Migration → Action Database (Unit {0})
add_row m = modify (λ d. record d { migrations = insert m.id m d.migrations })

module _ (env : Env) where
  -- The query `cluster_id` is not read; the machines are those of the node's own client.
  unfoldable pub list_vms : Option String → Action World (List VmSummary)
  list_vms cluster_id = do vms ← OpenStack.list_vms env source none; pure (map vm_summary vms)

  -- `except VMNotFound`: any other exception goes on.
  abbrev missing_vm : {A : Type 0} → Exception → Action World A
  missing_vm (vm_not_found m) = raise (http_error 404 "VM not found")
  missing_vm e = raise e

  unfoldable pub get_vm : String → Action World VmPage
  get_vm vm_id = do vm ← attempt (OpenStack.get_vm env source vm_id) missing_vm; pure (vm_page vm)

  -- The row that both handlers add.
  abbrev pub submitted : String → ℕ → String → MigrateRequest → MigrationType → Migration
  submitted migration_id now vm_id body type = record {
    id = migration_id;
    vm_id = vm_id;
    vm_name = none;
    source_cluster_id = env.settings.cluster_id;
    dest_cluster_id = body.dest_cluster_id;
    type = type;
    state = pending;
    progress_pct = whole 0;
    error = none;
    rbd_images = none;
    vm_ips = none;
    options = model_dump body;
    initiated_by = none;
    started_at = none;
    finished_at = none;
    created_at = now;
  }

  unfoldable pub migrate_vm : String → MigrateRequest → Action World Submission
  migrate_vm vm_id body = with_state λ w. do
    let migration_id = env.uuid w.history
    with_session env (add_row (submitted migration_id (env.now w.history) vm_id body cold))
    pure (record {
      answer = record { migration_id = migration_id; status = "accepted" };
      background_tasks =
          record { migration_id = migration_id; vm_id = vm_id; req = body; live = false } ∷ [];
    })

  unfoldable pub live_migrate_vm : String → MigrateRequest → Action World Submission
  live_migrate_vm vm_id body = with_state λ w. do
    let migration_id = env.uuid w.history
    with_session env (add_row (submitted migration_id (env.now w.history) vm_id body live))
    pure (record {
      answer = record { migration_id = migration_id; status = "accepted" };
      background_tasks =
          record { migration_id = migration_id; vm_id = vm_id; req = body; live = true } ∷ [];
    })

  -- `_run_migration`; the result of the engine is not read.
  unfoldable pub run_migration : String → String → MigrateRequest → Bool → Action World (Unit {0})
  run_migration migration_id vm_id req is_live = do
    run_engine env is_live (
        new_context migration_id vm_id env.settings.cluster_id req.dest_cluster_id is_live
          (model_dump req))
    pure tt

  -- The call that a task stands for.
  unfoldable pub run_background : BackgroundTask → Action World (Unit {0})
  unfolding run_migration
  run_background t = run_migration t.migration_id t.vm_id t.req t.live
