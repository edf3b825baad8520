-- ===== src/Migration/Steps.antt =====
-- cnf/migration/engine.py: what the steps of the two engines share, and the frame of `run`.
use open_stack_cnf.Prelude.{
  ℕ, ◌-◌, String, ◌⧺◌, Bool, true, false, Option, none, some, List, ◌++◌, map, if◌then◌else◌,
  is_empty,
}
use open_stack_cnf.Prelude.Int.{pos}
use open_stack_cnf.Prelude.Dict.{lookup}
use open_stack_cnf.Prelude.Percent.{whole}
use open_stack_cnf.Db.Models.{MigrationType, done}
use open_stack_cnf.Effect.Exceptions.{Exception, migration_error, text}
use open_stack_cnf.Effect.Call.{
  Side, source, metric, active_inc, active_dec, migration_total, migration_duration,
  promote_rbd_image,
}
use open_stack_cnf.Effect.Env.{Env}
use open_stack_cnf.Effect.Action.{
  Action, pure, with_state, raise, gets, modify, attempt, finally, for_each, ◌>>=◌, ◌>>◌,
}
use open_stack_cnf.Effect.Session.{World, tell}
use open_stack_cnf.OpenStack
use open_stack_cnf.OpenStack.{VmDetails}
use open_stack_cnf.Ceph
use open_stack_cnf.Ceph.{Verdict}
use open_stack_cnf.Bgp
use open_stack_cnf.Migration.Context.{Engine, MigrationContext, on_world, transition, fail}
use open_stack_cnf.Migration.Rollback.{run_rollbacks}

-- `self.ctx.options.get(key, "")`: the value under the key may be None.
abbrev pub option : String → MigrationContext → Option String
unfolding lookup
option key ctx = elim (lookup key ctx.options) [ none ↦ some "" | some v ↦ v ]

-- The images named after the volumes.
abbrev pub image_names : List String → List String
image_names = map (λ v. "volume-" ⧺ v)

-- `floating_ips or ips`
abbrev pub ips_of : VmDetails → List String
ips_of vm = if is_empty vm.floating_ips then vm.ips else vm.floating_ips

abbrev pub set_vm : VmDetails → Engine → Engine
set_vm vm e = record e { ctx = record e.ctx { vm = some vm } }

-- The volumes' images are appended to those that the context has.
abbrev pub collect : VmDetails → Engine → Engine
collect vm e = record e {
  ctx = record e.ctx {
    rbd_images = e.ctx.rbd_images ++ image_names vm.volume_ids;
    vm_ips = ips_of vm;
  };
}

-- `[f"{ip}/32" for ip in self.ctx.vm_ips]`
abbrev pub prefixes_of : List String → List String
prefixes_of = map (λ ip. ip ⧺ "/32")

module _ (env : Env) where
  abbrev pub verdict_error : String → Verdict → Action World (Unit {0})
  verdict_error image (true, reason) = pure tt
  verdict_error image (false, reason) =
      raise (migration_error ("RBD preflight failed for " ⧺ image ⧺ ": " ⧺ reason))

  -- One round of the preflight loop.
  unfoldable pub preflight_image : String → Action World (Unit {0})
  preflight_image image = do
    verdict ←
        Ceph.preflight_check env env.settings.ceph.pool image
          (some (pos env.settings.migration_max_lag_bytes))
    verdict_error image verdict

  -- `_step_preflight` after the status test.
  unfoldable pub preflight_images : VmDetails → Action Engine (Unit {0})
  preflight_images vm = do
    modify (collect vm)
    with_state λ e. on_world (for_each e.ctx.rbd_images preflight_image)

  unfoldable pub demote_image : String → Action World (Unit {0})
  demote_image image = Ceph.demote env env.settings.ceph.pool image

  -- Promotion by the stub of the destination, whose answer is not read, or else directly.
  unfoldable pub promote_image : Option Side → String → Action World (Unit {0})
  promote_image none image = Ceph.promote env env.settings.ceph.pool image false
  promote_image (some side) image =
      Bgp.call_stub env (some side) (promote_rbd_image env.settings.ceph.pool image)

  unfoldable pub promote_images : Action Engine (Unit {0})
  promote_images =
      with_state λ e. on_world (for_each e.ctx.rbd_images (promote_image e.ctx.dest_grpc_client))

  -- The `try` of `_step_cleanup`: a failure is logged.
  unfoldable pub delete_source_vm : Action Engine (Unit {0})
  delete_source_vm =
      with_state
        λ e. on_world (attempt (OpenStack.delete_vm env source e.ctx.vm_id false) (λ x. pure tt))

  module _ (type : MigrationType) where
    -- The `try` of `run` after its last step.
    unfoldable pub succeed : ℕ → Action Engine Bool
    succeed t0 = do
      transition env done (whole 100)
      with_state λ e. on_world (
          tell
            (metric (migration_total type e.ctx.source_cluster_id e.ctx.dest_cluster_id "success"))
          >> tell (metric (migration_duration type (env.monotonic e.world.history - t0))))
      pure true

    -- The `except` of `run`.
    unfoldable pub give_up : Exception → Action Engine Bool
    give_up x = do fail env (text x); run_rollbacks env; pure false

    abbrev pub start_clock : Engine → Engine
    start_clock e = record e { ctx = record e.ctx { started_at = some (env.now e.world.history) } }

    -- `run`, for the steps that its `try` makes; they are given the time at which it began.
    unfoldable pub run_with : (ℕ → Action Engine Bool) → Action Engine Bool
    run_with steps = do
      modify start_clock
      on_world (tell (metric (active_inc type)))
      t0 ← gets (λ e. env.monotonic e.world.history)
      finally (attempt (steps t0) give_up) (on_world (tell (metric (active_dec type))))
