-- ===== src/Migration/Live.antt =====
-- cnf/migration/engine.py: `LiveMigrationEngine`.
use open_stack_cnf.Prelude.{
  ℕ, ◌+◌, ◌*◌, String, ◌⧺◌, Bool, false, not, Option, none, some, List, if◌then◌else◌, str_eq,
  is_empty,
}
use open_stack_cnf.Prelude.Int.{pos}
use open_stack_cnf.Prelude.Percent.{Percent, whole}
use open_stack_cnf.Db.Models.{live, preflight, disk, memory, cutover, bgp, cleanup}
use open_stack_cnf.Effect.Exceptions.{migration_error}
use open_stack_cnf.Effect.Call.{source}
use open_stack_cnf.Effect.Env.{Env}
use open_stack_cnf.Effect.Action.{
  Action, pure, with_state, raise, gets, modify, for_each, when, ◌>>=◌, ◌>>◌,
}
use open_stack_cnf.Effect.Session.{World}
use open_stack_cnf.OpenStack
use open_stack_cnf.OpenStack.{VmDetails}
use open_stack_cnf.Ceph
use open_stack_cnf.Bgp
use open_stack_cnf.Migration.Context.{
  Engine, Tunnel, rollback_cutover, abort_tunnel, on_world, transition, register_rollback,
}
use open_stack_cnf.Migration.Tunnel.{run_tunnel, default_port}
use open_stack_cnf.Migration.Steps.{
  option, set_vm, preflight_images, demote_image, promote_images, delete_source_vm, prefixes_of,
  succeed, run_with,
}

-- `25.0 + pct * 0.50`
abbrev pub memory_progress : Percent → Percent
memory_progress p = record { num = 50 * p.den + p.num; den = 2 * p.den }

module _ (env : Env) where
  -- `_step_preflight`
  unfoldable pub step_preflight : Action Engine (Unit {0})
  step_preflight = do
    transition env preflight (whole 5)
    vm_id ← gets (λ e. e.ctx.vm_id)
    vm ← on_world (OpenStack.get_vm env source vm_id)
    modify (set_vm vm)
    if str_eq vm.status "ACTIVE"
        then preflight_images env vm
        else raise (migration_error ("Live migration requires VM to be ACTIVE, got " ⧺ vm.status))

  unfoldable pub check_image : String → Action World (Unit {0})
  check_image image = do Ceph.get_mirror_status env env.settings.ceph.pool image; pure tt

  -- `_step_disk_sync`
  unfoldable pub step_disk_sync : Action Engine (Unit {0})
  step_disk_sync = do
    transition env disk (whole 15)
    with_state λ e. on_world (for_each e.ctx.rbd_images check_image)

  -- `_progress_cb`
  unfoldable pub progress_cb : Percent → Action Engine (Unit {0})
  progress_cb pct = transition env memory (memory_progress pct)

  abbrev pub tunnel_of : String → VmDetails → String → Tunnel
  tunnel_of vm_id vm dest_host = record {
    vm_id = vm_id;
    source_host = vm.host;
    dest_host = dest_host;
    port = default_port;
  }

  -- `_step_memory` from the destination host on.
  unfoldable pub open_tunnel : Tunnel → Action Engine (Unit {0})
  open_tunnel t = do register_rollback (abort_tunnel t); run_tunnel env progress_cb t

  -- `if not dest_host` holds of None and of the empty text.
  unfoldable pub copy_memory : VmDetails → Option String → Action Engine (Unit {0})
  copy_memory vm none = raise (migration_error "dest_host must be specified for live migration")
  copy_memory vm (some host) =
      if str_eq host ""
      then raise (migration_error "dest_host must be specified for live migration")
      else with_state λ e. open_tunnel (tunnel_of e.ctx.vm_id vm host)

  unfoldable pub copy_memory_of : Option VmDetails → Action Engine (Unit {0})
  copy_memory_of none = pure tt
  copy_memory_of (some vm) = with_state λ e. copy_memory vm (option "dest_host" e.ctx)

  -- `_step_memory`
  unfoldable pub step_memory : Action Engine (Unit {0})
  step_memory = do transition env memory (whole 25); vm ← gets (λ e. e.ctx.vm); copy_memory_of vm

  -- One round of the first loop of `_step_cutover`.
  unfoldable pub flush_and_demote : String → Action World (Unit {0})
  flush_and_demote image = do
    Ceph.wait_for_sync env env.settings.ceph.pool image (some (pos 0)) 60 5
    demote_image env image

  unfoldable pub demote_images : Action Engine (Unit {0})
  demote_images = with_state λ e. on_world (for_each e.ctx.rbd_images flush_and_demote)

  -- `_step_cutover`
  unfoldable pub step_cutover : Action Engine (Unit {0})
  step_cutover = do
    transition env cutover (whole 80)
    demote_images
    register_rollback rollback_cutover
    promote_images env

  unfoldable pub hand_over : List String → Action Engine (Unit {0})
  hand_over ips = with_state λ e.
      on_world
        (Bgp.handoff env (prefixes_of ips) (option "dest_next_hop" e.ctx) e.ctx.source_grpc_client)

  -- `_step_bgp`
  unfoldable pub step_bgp : Action Engine (Unit {0})
  step_bgp = do
    transition env bgp (whole 90)
    ips ← gets (λ e. e.ctx.vm_ips)
    when (not (is_empty ips)) (hand_over ips)

  -- `_step_cleanup`
  unfoldable pub step_cleanup : Action Engine (Unit {0})
  step_cleanup = do transition env cleanup (whole 96); delete_source_vm env

  -- The `try` of `run` after the preflight.
  unfoldable pub steps_after_preflight : ℕ → Action Engine Bool
  steps_after_preflight t0 = do
    step_disk_sync
    step_memory
    step_cutover
    step_bgp
    step_cleanup
    succeed env live t0

  unfoldable pub steps : ℕ → Action Engine Bool
  steps t0 = do
    step_preflight
    stop ← gets (λ e. e.aborted)
    if stop then pure false else steps_after_preflight t0

  -- `run`
  unfoldable pub run : Action Engine Bool
  run = run_with env live steps
