-- ===== src/Tests/Services.antt =====
-- The theorems of the REST API, of the Celery tasks and of the gRPC servicers at concrete requests.
use open_stack_cnf.Prelude.{
  String, ◌⧺◌, Bool, true, false, none, some, [], ◌∷◌, map, take, drop, ◌≡◌, ◌≢◌, ◌↔◌, refl, In,
  if◌then◌else◌, keep,
}
use open_stack_cnf.Prelude.Dict.{lookup, insert, rows}
use open_stack_cnf.Db.Models.{
  Migration, aborted, done, failed, cold, state_value, state_named, find_state, disk,
}
use open_stack_cnf.Prelude.Sorting.{sort_by, sort_onto, insert_by}
use open_stack_cnf.Db.Names.{state_named-state_value}
use open_stack_cnf.Effect.Exceptions.{ok, err, http_error}
use open_stack_cnf.Effect.Action.{with_state}
use open_stack_cnf.Effect.Session.{World, with_session}
use open_stack_cnf.Ceph
use open_stack_cnf.Bgp
use open_stack_cnf.Migration.Cold
use open_stack_cnf.Migration.Live
use open_stack_cnf.Migration.Row.{row_state}
use open_stack_cnf.Api.Migrations.{
  abort_migration, is_terminal, list_migrations, list_query, summary_of, newest_first, page_from,
}
use open_stack_cnf.Api.Abort.{abort_migration-by_state, after_abort, run-after_abort}
use open_stack_cnf.Api.Pages.{list_migrations-IsPage, IsPage}
use open_stack_cnf.Api.Vms.{MigrateRequest}
use open_stack_cnf.Api.Submission.{migrate_vm-ends, Starts}
use open_stack_cnf.Api.Clusters.{ClusterCreate, ClusterResponse, register_cluster, get_cluster}
use open_stack_cnf.Api.Registry.{register_cluster-get}
use open_stack_cnf.Api.App.{proxy_to_master}
use open_stack_cnf.Api.Proxy.{proxy_to_master-serves_here}
use open_stack_cnf.Tasks.{TaskArgs, finished, run_cold_migration, run_live_migration}
use open_stack_cnf.Tasks.Retry.{tasks-finish}
use open_stack_cnf.Grpc.Control.{promote_rbd_image, demote_rbd_image, announce_ip, withdraw_ip}
use open_stack_cnf.Grpc.Reports.{report, failure, handlers-report}
use open_stack_cnf.Grpc.Peer.{SyncStateResponse, MigrationStatus, info_of, status_of, sync_state}
use open_stack_cnf.Grpc.Sync.{sync_state-active}
use open_stack_cnf.Tests.Setting.{test_env, test_world, test_engine, test_row}

-- A world with one pending migration.
abbrev busy_world : World
busy_world = (test_engine cold).world

abbrev test_request : MigrateRequest
test_request = record { dest_cluster_id = "there"; dest_host = some "node2"; dest_next_hop = none }

migrate_vm-ends_example : Starts test_env true "vm" test_request test_world
migrate_vm-ends_example = migrate_vm-ends test_env (λ h. refl) true "vm" test_request test_world

abort_migration-by_state_example :
    (lookup "m1" busy_world.db.migrations ≡ none
      → ((abort_migration test_env "m1" busy_world).0 ≡ err (http_error 404 "Migration not found"))
        × ((abort_migration test_env "m1" busy_world).1.db ≡ busy_world.db))
    × ((m : Migration)
        → lookup "m1" busy_world.db.migrations ≡ some m
        → is_terminal m.state ≡ true
        → ((abort_migration test_env "m1" busy_world).0
            ≡ err (http_error 409 ("Migration already in terminal state: " ⧺ state_value m.state)))
          × ((abort_migration test_env "m1" busy_world).1.db ≡ busy_world.db))
    × ((m : Migration)
        → lookup "m1" busy_world.db.migrations ≡ some m
        → is_terminal m.state ≡ false
        → ((abort_migration test_env "m1" busy_world).0 ≡ ok tt)
          × ((abort_migration test_env "m1" busy_world).1.db ≡ record busy_world.db {
            migrations =
                insert "m1"
                  (record m { state = aborted; error = some "Aborted by user" })
                  busy_world.db.migrations;
          }))
abort_migration-by_state_example = abort_migration-by_state test_env (λ h. refl) "m1" busy_world

run-after_abort_example :
    ((b : Bool) × ((Cold.run test_env (after_abort test_env (λ h. refl) (test_engine cold))).0
        ≡ ok b)
      × (row_state "m1"
            (Cold.run test_env (after_abort test_env (λ h. refl) (test_engine cold))).1.world.db
          ≡ some (if b then done else failed)))
    × ((b : Bool) × ((Live.run test_env (after_abort test_env (λ h. refl) (test_engine cold))).0
          ≡ ok b)
        × (row_state "m1"
              (Live.run test_env (after_abort test_env (λ h. refl) (test_engine cold))).1.world.db
            ≡ some (if b then done else failed)))
unfolding lookup
run-after_abort_example =
    run-after_abort test_env (λ h. refl) (test_engine cold) (test_row cold) refl refl refl

state_named-state_value_example : (state_named "disk" ≡ some disk) ↔ (state_value disk ≡ "disk")
state_named-state_value_example = state_named-state_value "disk" disk

abbrev register_body : ClusterCreate
register_body = record {
  name = "west";
  auth_url = "http://west:5000/v3";
  region = "RegionOne";
  grpc_addr = "west:50051";
  bgp_as = some 65001;
  bgp_speaker_addr = none;
}

abbrev args : TaskArgs
args = record {
  migration_id = "m1";
  vm_id = "vm";
  source_cluster = "here";
  dest_cluster = "there";
  options = [];
}

tasks-finish_example :
    (((run_cold_migration test_env args busy_world).0 ≡ ok finished)
      × (b : Bool) × (row_state "m1" (run_cold_migration test_env args busy_world).1.db
          ≡ some (if b then done else failed)))
    × (((run_live_migration test_env args busy_world).0 ≡ ok finished)
        × (b : Bool) × (row_state "m1" (run_live_migration test_env args busy_world).1.db
            ≡ some (if b then done else failed)))
unfolding lookup
tasks-finish_example = tasks-finish test_env (λ h. refl) args busy_world refl

register_cluster-get_example :
    (r : ClusterResponse) × ((register_cluster test_env register_body test_world).0 ≡ ok r)
    × (r ≡ record {
      id = "new";
      name = "west";
      auth_url = "http://west:5000/v3";
      region = "RegionOne";
      grpc_addr = "west:50051";
      role = "worker";
      status = "offline";
      bgp_as = some 65001;
    })
    × ((get_cluster test_env r.id (register_cluster test_env register_body test_world).1).0 ≡ ok r)
    × ((other : String)
        → r.id ≢ other
        → lookup other (register_cluster test_env register_body test_world).1.db.clusters
          ≡ lookup other test_world.db.clusters)
register_cluster-get_example = register_cluster-get test_env (λ h. refl) register_body test_world

list_migrations-IsPage_example :
    IsPage (some "pending") 5 0 (rows busy_world.db.migrations) (summary_of (test_row cold) ∷ [])
unfolding list_migrations list_query page_from newest_first sort_by sort_onto insert_by take drop
    keep with_state with_session state_named find_state
list_migrations-IsPage_example =
    list_migrations-IsPage test_env (some "pending") 5 0 busy_world
      (summary_of (test_row cold) ∷ []) refl

proxy_to_master-serves_here_example :
    proxy_to_master "/v1/vms" "" none
      (λ url. list_migrations test_env none 1 0)
      (list_migrations test_env none 2 0)
    ≡ list_migrations test_env none 2 0
proxy_to_master-serves_here_example =
    proxy_to_master-serves_here "/v1/vms" "" none (λ url. list_migrations test_env none 1 0)
      (list_migrations test_env none 2 0)

handlers-report_example :
    (promote_rbd_image test_env "vms" "volume-v1" true test_world ≡ (
      ok (
          report
            (record { success = true; message = "promoted" })
            failure
            (Ceph.promote test_env "vms" "volume-v1" true test_world).0),
      (Ceph.promote test_env "vms" "volume-v1" true test_world).1,
    ))
    × (demote_rbd_image test_env "vms" "volume-v1" test_world ≡ (
      ok (
          report
            (record { success = true; message = "demoted" })
            failure
            (Ceph.demote test_env "vms" "volume-v1" test_world).0),
      (Ceph.demote test_env "vms" "volume-v1" test_world).1,
    ))
    × (announce_ip test_env "10.0.0.5/32" "10.0.0.1" test_world ≡ (
      ok (
          report true
            (λ e. false)
            (Bgp.announce test_env
              (record { prefix = "10.0.0.5/32"; next_hop = some "10.0.0.1" })
              test_world).0),
      (Bgp.announce test_env
          (record { prefix = "10.0.0.5/32"; next_hop = some "10.0.0.1" })
          test_world).1,
    ))
    × (withdraw_ip test_env "10.0.0.5/32" test_world ≡ (
      ok (report true (λ e. false) (Bgp.withdraw test_env "10.0.0.5/32" test_world).0),
      (Bgp.withdraw test_env "10.0.0.5/32" test_world).1,
    ))
handlers-report_example =
    handlers-report test_env "vms" "volume-v1" "10.0.0.5/32" "10.0.0.1" true test_world

sync_state-active_example :
    (r : SyncStateResponse) × ((sync_state test_env busy_world).0 ≡ ok r)
    × (r.clusters ≡ map info_of (rows busy_world.db.clusters))
    × ((s : MigrationStatus)
        → In s r.active_migrations ↔ (
            (m : Migration) × In m (rows busy_world.db.migrations)
            × (is_terminal m.state ≡ false)
            × (s ≡ status_of m)))
sync_state-active_example = sync_state-active test_env busy_world refl
