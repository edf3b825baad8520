-- ===== src/Migration/ColdCalls.antt =====
-- The calls that the steps of `ColdMigrationEngine` make before the cleanup.
use open_stack_cnf.Prelude.{String, Option, none, some, List, [], ◌∷◌}
use open_stack_cnf.Prelude.Text.{contains}
use open_stack_cnf.Effect.Env.{Env}
use open_stack_cnf.Effect.Trace.{Keeps, calls, calls_rules, Keeps-if}
use open_stack_cnf.OpenStack.{VmDetails}
use open_stack_cnf.OpenStack.Calls.{
  get_vm-calls, stop_vm-calls, get_volume_details-calls, create_volume_from_rbd-calls,
}
use open_stack_cnf.Ceph.Calls.{wait_for_sync-calls}
use open_stack_cnf.Bgp.Calls.{handoff-calls}
use open_stack_cnf.Migration.Calls.{
  engine_calls, engine_rules, client_calls, client_rules, engine-of-client, transition-calls,
}
use open_stack_cnf.Migration.Cold
use open_stack_cnf.Migration.StepCalls.{
  IsStep, runs, sleeps, rpcs, servers, addresses, stops, volumes, creates, announced, sessions,
  preflight_images-calls, promote_images-calls, demote_image-calls,
}

module _ (env : Env) where
  pub preflight_cold-calls : Keeps (engine_calls IsStep) (Cold.step_preflight env)
  unfolding Cold.step_preflight
  preflight_cold-calls =
      search
        (
          engine_rules, engine-of-client, client_rules, transition-calls, get_vm-calls,
          preflight_images-calls, servers, addresses, sessions,
        )
        depth 12

  pub stop_if_active-calls : Keeps (client_calls IsStep) (Cold.stop_if_active env)
  unfolding Cold.stop_if_active
  stop_if_active-calls = search (client_rules, stop_vm-calls, servers, sleeps, stops) depth 8

  pub wait_image-calls : (image : String) → Keeps (calls IsStep) (Cold.wait_image env image)
  unfolding Cold.wait_image
  wait_image-calls image = search (calls_rules, wait_for_sync-calls, runs, sleeps)

  pub disk_cold-calls : Keeps (engine_calls IsStep) (Cold.step_disk env)
  unfolding Cold.step_disk Cold.sync_and_demote
  disk_cold-calls =
      search
        (
          engine_rules, engine-of-client, client_rules, calls_rules, transition-calls, sessions,
          stop_if_active-calls, wait_image-calls, demote_image-calls, promote_images-calls,
        )
        depth 20

  find_volume-calls :
      (vs : List String) (image : String) → Keeps (calls IsStep) (Cold.find_volume env vs image)
  unfolding Cold.find_volume
  find_volume-calls [] image = search calls_rules
  find_volume-calls (v ∷ vs) image =
      Keeps-if (contains v image) _ _
        (search (calls_rules, get_volume_details-calls, volumes) depth 8)
        (find_volume-calls vs image)

  register_image-calls :
      (vs : List String) (image : String) → Keeps (calls IsStep) (Cold.register_image env vs image)
  unfolding Cold.register_image
  register_image-calls vs image =
      search (calls_rules, find_volume-calls, create_volume_from_rbd-calls, creates) depth 8

  pub register_images-calls :
      (vm : Option VmDetails) → Keeps (client_calls IsStep) (Cold.register_images env vm)
  unfolding Cold.register_images
  register_images-calls none = search client_rules
  register_images-calls (some vm) = search (client_rules, register_image-calls) depth 8

  pub cutover_cold-calls : Keeps (engine_calls IsStep) (Cold.step_cutover env)
  unfolding Cold.step_cutover
  cutover_cold-calls =
      search
        (
          engine_rules, engine-of-client, client_rules, transition-calls, sessions,
          register_images-calls,
        )
        depth 8

  pub bgp_cold-calls : Keeps (engine_calls IsStep) (Cold.step_bgp env)
  unfolding Cold.step_bgp Cold.hand_over
  bgp_cold-calls =
      search
        (
          engine_rules, engine-of-client, client_rules, transition-calls, sessions, handoff-calls,
          runs, announced, rpcs, sleeps,
        )
        depth 20
