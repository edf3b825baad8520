-- ===== src/Migration/Rollback.antt =====
-- cnf/migration/engine.py: the rollback handlers, and the methods that run them.
use open_stack_cnf.Prelude.{String, ◌⧺◌, true}
use mathlib.Core.List.{reverse}
use open_stack_cnf.Effect.Env.{Env}
use open_stack_cnf.Effect.Action.{Action, pure, with_state, modify, attempt, for_each, ◌>>◌}
use open_stack_cnf.Effect.Session.{World}
use open_stack_cnf.Ceph
use open_stack_cnf.Bgp
use open_stack_cnf.Migration.Context.{
  Engine, Rollback, rollback_disk, rollback_cutover, rollback_bgp, abort_tunnel, on_world, fail,
}
use open_stack_cnf.Migration.Tunnel.{abort_migration}

module _ (env : Env) where
  -- One round of `_rollback_disk` and of `_rollback_cutover`: a failure is logged.
  unfoldable pub promote_back : String → Action World (Unit {0})
  promote_back image = attempt (Ceph.promote env env.settings.ceph.pool image true) (λ e. pure tt)

  -- `_rollback_disk` and `_rollback_cutover`, whose bodies are the same.
  unfoldable pub promote_all_back : Action Engine (Unit {0})
  promote_all_back = with_state λ e. on_world (for_each e.ctx.rbd_images promote_back)

  unfoldable pub run_rollback : Rollback → Action Engine (Unit {0})
  run_rollback rollback_disk = promote_all_back
  run_rollback rollback_cutover = promote_all_back
  run_rollback (rollback_bgp prefixes) =
      with_state λ e. on_world (Bgp.rollback env prefixes e.ctx.dest_grpc_client)
  run_rollback (abort_tunnel t) = abort_migration env t

  -- One round of `_run_rollbacks`.
  unfoldable pub try_rollback : Rollback → Action Engine (Unit {0})
  try_rollback r = attempt (run_rollback r) (λ e. pure tt)

  -- `_run_rollbacks`
  unfoldable pub run_rollbacks : Action Engine (Unit {0})
  run_rollbacks = with_state λ e. for_each (reverse e.rollbacks) try_rollback

  -- `abort`
  unfoldable pub abort : String → Action Engine (Unit {0})
  abort reason = do
    modify (λ e. record e { aborted = true })
    fail env ("Aborted: " ⧺ reason)
    run_rollbacks
