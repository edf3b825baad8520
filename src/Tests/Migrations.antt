-- ===== src/Tests/Migrations.antt =====
-- The theorems of the migration engines at concrete migrations.
use open_stack_cnf.Prelude.{String, Bool, true, false, List, [], ◌∷◌, ◌++◌, ◌≡◌, refl, some, In}
use open_stack_cnf.Prelude.Dict.{lookup}
use open_stack_cnf.Db.Models.{MigrationEvent, MigrationState, pending, done, cold, live}
use open_stack_cnf.Effect.Exceptions.{ok, external}
use open_stack_cnf.Effect.Action.{◌>>=◌, with_state, attempt, finally, for_each}
use open_stack_cnf.Effect.Session.{with_session}
use open_stack_cnf.Effect.Trace.{Since}
use open_stack_cnf.OpenStack.{get_vm, fetch_server, describe, fetch_texts, delete_vm, run_command}
use open_stack_cnf.Bgp.{
  handoff, announce_all, announce, vtysh, add_kernel_route, withdraw_at, call_stub, wait_for,
  wait_convergence,
}
use open_stack_cnf.Effect.Env.{Env}
use open_stack_cnf.Migration.Steps.{
  run_with, preflight_images, promote_images, delete_source_vm, succeed,
}
use open_stack_cnf.Migration.Context.{
  Engine, rollback_disk, rollback_cutover, transition, engine_session, record_state,
  register_rollback,
}
use open_stack_cnf.Migration.Cold
use open_stack_cnf.Migration.Live
use open_stack_cnf.Migration.Rollback.{run_rollback}
use open_stack_cnf.Migration.Row.{row_state}
use open_stack_cnf.Migration.Outcome.{runs_outcome, final}
use open_stack_cnf.Migration.Returns.{runs_return}
use open_stack_cnf.Migration.Deletion.{runs_deletion, IsNoDeletion}
use open_stack_cnf.Migration.Gauge.{runs-IsBalanced, IsBalanced}
use open_stack_cnf.Migration.Protocol.{engines-follow_protocol, Walk}
use open_stack_cnf.Migration.Promotion.{run_rollback-promotes, forced}
use open_stack_cnf.Tests.Setting.{test_env, lost_env, test_engine, test_server}

-- The machine has no volume.
abbrev diskless_env : Env
diskless_env = record test_env {
  server = λ h side i. ok (some (record (test_server "SHUTOFF") { volumes_attached = [] }));
}

cold_run_test : (Cold.run diskless_env (test_engine cold)).0 ≡ ok true
unfolding Cold.run run_with finally attempt ◌>>=◌ Cold.steps Cold.step_preflight transition
    with_state engine_session with_session record_state get_vm fetch_server describe fetch_texts
    preflight_images for_each Cold.steps_after_preflight Cold.step_disk Cold.stop_if_active
    Cold.sync_and_demote register_rollback promote_images Cold.step_cutover Cold.register_images
    Cold.step_bgp Cold.hand_over handoff announce_all announce vtysh add_kernel_route withdraw_at
    call_stub wait_for wait_convergence Cold.step_cleanup delete_source_vm delete_vm run_command
    succeed
cold_run_test = refl

runs_outcome_example :
    row_state "m1" (Cold.run diskless_env (test_engine cold)).1.world.db ≡ some (final true)
unfolding lookup
runs_outcome_example =
    runs_outcome diskless_env false (test_engine cold) true refl refl cold_run_test

runs_deletion_example :
    Since IsNoDeletion
      (test_engine live).world.history
      (Live.run lost_env (test_engine live)).1.world.history
unfolding Live.step_preflight transition ◌>>=◌ with_state engine_session with_session record_state
    get_vm fetch_server
runs_deletion_example =
    runs_deletion lost_env true (test_engine live) (external "ConnectionError") refl

runs_return_example :
    ((b : Bool) × ((Cold.run test_env (test_engine cold)).0 ≡ ok b))
    × ((c : Bool) × ((Live.run test_env (test_engine cold)).0 ≡ ok c))
runs_return_example = runs_return test_env (test_engine cold) (λ h. refl)

runs-IsBalanced_example :
    IsBalanced cold (Cold.run lost_env) (test_engine cold)
    × IsBalanced live (Live.run lost_env) (test_engine cold)
runs-IsBalanced_example = runs-IsBalanced lost_env (test_engine cold)

engines-follow_protocol_example :
    ((ys : List MigrationEvent) × ((Cold.run test_env (test_engine cold)).1.world.db.events
        ≡ [] ++ ys)
      × ((t : MigrationState) × Walk cold pending ys t)
      × ((Cold.run test_env (test_engine cold)).0 ≡ ok true → Walk cold pending ys done))
    × ((ys : List MigrationEvent) × ((Live.run test_env (test_engine cold)).1.world.db.events
          ≡ [] ++ ys)
        × ((t : MigrationState) × Walk live pending ys t)
        × ((Live.run test_env (test_engine cold)).0 ≡ ok true → Walk live pending ys done))
engines-follow_protocol_example = engines-follow_protocol test_env (test_engine cold)

-- An engine that has demoted one image.
abbrev demoted_engine : Engine
demoted_engine = record (test_engine cold) {
  ctx = record (test_engine cold).ctx { rbd_images = "volume-v1" ∷ [] };
}

run_rollback-promotes_example :
    ((run_rollback test_env rollback_disk demoted_engine).0 ≡ ok tt)
    × ((run_rollback test_env rollback_cutover demoted_engine).0 ≡ ok tt)
    × ((image : String)
        → In image ("volume-v1" ∷ [])
        → In
            (forced test_env image)
            (run_rollback test_env rollback_disk demoted_engine).1.world.history
          × In
              (forced test_env image)
              (run_rollback test_env rollback_cutover demoted_engine).1.world.history)
run_rollback-promotes_example = run_rollback-promotes test_env demoted_engine
