-- ===== src/Migration/Cold.antt =====
-- cnf/migration/engine.py: `ColdMigrationEngine`.
use open_stack_cnf.Prelude.{
  ℕ, String, ◌⧺◌, Bool, false, not, ◌||◌, Option, none, some, List, [], ◌∷◌, if◌then◌else◌, str_eq,
  is_empty,
}
use open_stack_cnf.Prelude.Text.{contains}
use open_stack_cnf.Prelude.Percent.{whole}
use open_stack_cnf.Db.Models.{cold, preflight, disk, cutover, bgp, cleanup}
use open_stack_cnf.Effect.Exceptions.{migration_error}
use open_stack_cnf.Effect.Call.{source, dest}
use open_stack_cnf.Effect.Env.{Env}
use open_stack_cnf.Effect.Action.{
  Action, pure, with_state, raise, gets, modify, attempt, for_each, when, ◌>>=◌, ◌>>◌,
}
use open_stack_cnf.Effect.Session.{World}
use open_stack_cnf.OpenStack
use open_stack_cnf.OpenStack.{VmDetails, VolumeDetails}
use open_stack_cnf.Ceph
use open_stack_cnf.Bgp
use open_stack_cnf.Migration.Context.{
  Engine, rollback_disk, rollback_bgp, on_world, transition, register_rollback,
}
use open_stack_cnf.Migration.Steps.{
  set_vm, preflight_images, demote_image, promote_images, delete_source_vm, prefixes_of, succeed,
  run_with,
}

module _ (env : Env) where
  abbrev wrong_status : VmDetails → String → Action Engine (Unit {0})
  wrong_status vm vm_id = raise (
      migration_error
        ("VM " ⧺ vm_id ⧺ " is in state " ⧺ vm.status ⧺ ", expected ACTIVE or SHUTOFF"))

  -- `self.ctx.vm.status in ("ACTIVE", "SHUTOFF")`
  abbrev pub may_move : VmDetails → Bool
  may_move vm = str_eq vm.status "ACTIVE" || str_eq vm.status "SHUTOFF"

  -- `_step_preflight`
  unfoldable pub step_preflight : Action Engine (Unit {0})
  step_preflight = do
    transition env preflight (whole 5)
    vm_id ← gets (λ e. e.ctx.vm_id)
    vm ← on_world (OpenStack.get_vm env source vm_id)
    modify (set_vm vm)
    if may_move vm then preflight_images env vm else wrong_status vm vm_id

  -- `self.ctx.vm and self.ctx.vm.status == "ACTIVE"`
  abbrev is_active : Option VmDetails → Bool
  is_active none = false
  is_active (some vm) = str_eq vm.status "ACTIVE"

  unfoldable pub stop_if_active : Action Engine (Unit {0})
  stop_if_active =
      with_state
        λ e. when (is_active e.ctx.vm) (on_world (OpenStack.stop_vm env source e.ctx.vm_id))

  unfoldable pub wait_image : String → Action World (Unit {0})
  wait_image image = do Ceph.wait_for_sync env env.settings.ceph.pool image none 300 5; pure tt

  -- The two loops before the promotion.
  unfoldable pub sync_and_demote : Action Engine (Unit {0})
  sync_and_demote = with_state λ e.
      on_world
        (for_each e.ctx.rbd_images wait_image >> for_each e.ctx.rbd_images (demote_image env))

  -- `_step_disk`
  unfoldable pub step_disk : Action Engine (Unit {0})
  step_disk = do
    transition env disk (whole 20)
    stop_if_active
    sync_and_demote
    register_rollback rollback_disk
    promote_images env
    transition env disk (whole 50)

  -- The inner loop of `_step_cutover`: the first volume whose id is in the image's name.
  unfoldable pub find_volume : List String → String → Action World (Option VolumeDetails)
  find_volume [] image = pure none
  find_volume (v ∷ vs) image =
      let here =
        attempt (do info ← OpenStack.get_volume_details env source v; pure (some info))
          (λ e. pure none) in
      let rest = find_volume vs image in if contains v image then here else rest

  -- `vol_info["size_gb"] if vol_info else 10`
  abbrev size_or_default : Option VolumeDetails → ℕ
  size_or_default none = 10
  size_or_default (some info) = info.size_gb

  -- One round of `_step_cutover`.
  unfoldable pub register_image : List String → String → Action World (Unit {0})
  register_image volume_ids image = do
    vol_info ← find_volume volume_ids image
    OpenStack.create_volume_from_rbd env dest env.settings.ceph.pool image
        (size_or_default vol_info) ("cnf-migrated-" ⧺ image) ""
    pure tt

  unfoldable pub register_images : Option VmDetails → Action Engine (Unit {0})
  register_images none = pure tt
  register_images (some vm) =
      with_state λ e. on_world (for_each e.ctx.rbd_images (register_image vm.volume_ids))

  -- `_step_cutover`
  unfoldable pub step_cutover : Action Engine (Unit {0})
  step_cutover = do transition env cutover (whole 70); vm ← gets (λ e. e.ctx.vm); register_images vm

  -- `_step_bgp` after its early return.
  unfoldable pub hand_over : List String → Action Engine (Unit {0})
  hand_over ips = do
    with_state λ e. on_world (Bgp.handoff env (prefixes_of ips) (some "") e.ctx.source_grpc_client)
    register_rollback (rollback_bgp (prefixes_of ips))

  -- `_step_bgp`
  unfoldable pub step_bgp : Action Engine (Unit {0})
  step_bgp = do
    transition env bgp (whole 85)
    ips ← gets (λ e. e.ctx.vm_ips)
    when (not (is_empty ips)) (hand_over ips)

  -- `_step_cleanup`
  unfoldable pub step_cleanup : Action Engine (Unit {0})
  step_cleanup = do transition env cleanup (whole 95); delete_source_vm env

  -- The `try` of `run` after the preflight.
  unfoldable pub steps_after_preflight : ℕ → Action Engine Bool
  steps_after_preflight t0 = do step_disk; step_cutover; step_bgp; step_cleanup; succeed env cold t0

  unfoldable pub steps : ℕ → Action Engine Bool
  steps t0 = do
    step_preflight
    stop ← gets (λ e. e.aborted)
    if stop then pure false else steps_after_preflight t0

  -- `run`
  unfoldable pub run : Action Engine Bool
  run = run_with env cold steps
