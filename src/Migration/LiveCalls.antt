-- ===== src/Migration/LiveCalls.antt =====
-- The calls that the steps of `LiveMigrationEngine` make before the cleanup.
use open_stack_cnf.Prelude.{String, Option, none, some}
use open_stack_cnf.Prelude.Percent.{Percent}
use open_stack_cnf.Effect.Env.{Env}
use open_stack_cnf.Effect.Trace.{Keeps, calls, calls_rules}
use open_stack_cnf.OpenStack.{VmDetails}
use open_stack_cnf.OpenStack.Calls.{get_vm-calls}
use open_stack_cnf.Ceph.Calls.{wait_for_sync-calls, get_mirror_status-calls}
use open_stack_cnf.Bgp.Calls.{handoff-calls}
use open_stack_cnf.Migration.Calls.{
  Keeps-on_world, engine_calls, engine_rules, client_rules, engine-of-client, transition-calls,
}
use open_stack_cnf.Migration.Live
use open_stack_cnf.Migration.Context.{Tunnel}
use open_stack_cnf.Migration.Tunnel.{run_tunnel}
use open_stack_cnf.Migration.StepCalls.{
  IsStep, runs, sleeps, rpcs, servers, addresses, announced, sessions, preflight_images-calls,
  promote_images-calls, demote_image-calls, run_tunnel-kept,
}

module _ (env : Env) where
  pub preflight_live-calls : Keeps (engine_calls IsStep) (Live.step_preflight env)
  unfolding Live.step_preflight
  preflight_live-calls =
      search
        (
          engine_rules, engine-of-client, client_rules, transition-calls, get_vm-calls,
          preflight_images-calls, servers, addresses, sessions,
        )
        depth 12

  pub check_image-calls : (image : String) → Keeps (calls IsStep) (Live.check_image env image)
  unfolding Live.check_image
  check_image-calls image = search (calls_rules, get_mirror_status-calls, runs)

  pub disk_live-calls : Keeps (engine_calls IsStep) (Live.step_disk_sync env)
  unfolding Live.step_disk_sync
  disk_live-calls =
      search
        (
          engine_rules, engine-of-client, client_rules, transition-calls, sessions,
          check_image-calls,
        )
        depth 12

  progress_cb-calls : (p : Percent) → Keeps (engine_calls IsStep) (Live.progress_cb env p)
  unfolding Live.progress_cb
  progress_cb-calls p = search (transition-calls, sessions)

  tunnel-calls :
      (t : Tunnel) → Keeps (engine_calls IsStep) (run_tunnel env (Live.progress_cb env) t)
  tunnel-calls t =
      run_tunnel-kept env (engine_calls IsStep) (λ A m k. Keeps-on_world m k) (Live.progress_cb env)
        (λ p reported. progress_cb-calls p) t

  copy_memory-calls :
      (vm : VmDetails) (host : Option String)
      → Keeps (engine_calls IsStep) (Live.copy_memory env vm host)
  unfolding Live.copy_memory Live.open_tunnel
  copy_memory-calls vm none = search engine_rules
  copy_memory-calls vm (some host) =
      search (engine_rules, engine-of-client, client_rules, tunnel-calls) depth 12

  copy_memory_of-calls :
      (vm : Option VmDetails) → Keeps (engine_calls IsStep) (Live.copy_memory_of env vm)
  unfolding Live.copy_memory_of
  copy_memory_of-calls none = search engine_rules
  copy_memory_of-calls (some vm) =
      search (engine_rules, engine-of-client, client_rules, copy_memory-calls)

  pub memory_live-calls : Keeps (engine_calls IsStep) (Live.step_memory env)
  unfolding Live.step_memory
  memory_live-calls =
      search
        (
          engine_rules, engine-of-client, client_rules, transition-calls, sessions,
          copy_memory_of-calls,
        )
        depth 8

  pub flush_and_demote-calls :
      (image : String) → Keeps (calls IsStep) (Live.flush_and_demote env image)
  unfolding Live.flush_and_demote
  flush_and_demote-calls image =
      search (calls_rules, wait_for_sync-calls, demote_image-calls, runs, sleeps)

  pub cutover_live-calls : Keeps (engine_calls IsStep) (Live.step_cutover env)
  unfolding Live.step_cutover Live.demote_images
  cutover_live-calls =
      search
        (
          engine_rules, engine-of-client, client_rules, transition-calls, sessions,
          flush_and_demote-calls, promote_images-calls,
        )
        depth 20

  pub bgp_live-calls : Keeps (engine_calls IsStep) (Live.step_bgp env)
  unfolding Live.step_bgp Live.hand_over
  bgp_live-calls =
      search
        (
          engine_rules, engine-of-client, client_rules, transition-calls, sessions, handoff-calls,
          runs, announced, rpcs, sleeps,
        )
        depth 20
