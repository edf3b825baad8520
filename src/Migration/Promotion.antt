-- ===== src/Migration/Promotion.antt =====
-- cnf/migration/engine.py: the rollbacks that promote the images at the source again.
use mathlib.Core.Path.{subst}
use open_stack_cnf.Prelude.{String, true, List, ◌≡◌, refl, sym, inl, In}
use open_stack_cnf.Effect.Exceptions.{ok}
use open_stack_cnf.Effect.Call.{Call, subprocess}
use open_stack_cnf.Effect.Env.{Env}
use open_stack_cnf.Effect.Action.{pure, with_state, for_each}
use open_stack_cnf.Effect.Session.{World}
use open_stack_cnf.Effect.Laws.{attempt_returns, attempt-pure-state, for_each_returns}
use open_stack_cnf.Effect.Trace.{calls_rules}
use open_stack_cnf.Effect.Visits.{bind-In, for_each-In}
use open_stack_cnf.Ceph.{promote, promote_args, run_plain, plain_cmd}
use open_stack_cnf.Migration.Context.{Engine, rollback_disk, rollback_cutover}
use open_stack_cnf.Migration.Rollback.{promote_back, promote_all_back, run_rollback}
use open_stack_cnf.Migration.StepCalls.{IsStep, promote_back-calls}

module _ (env : Env) where
  promote_back_returns : (image : String) (w : World) → (promote_back env image w).0 ≡ ok tt
  unfolding promote_back
  promote_back_returns image w =
      let (a, p) =
        attempt_returns (promote env env.settings.ceph.pool image true) (λ e. pure tt)
          (λ e s. (tt, refl)) w in
      p

  -- The command that promotes an image by force.
  abbrev pub forced : String → Call
  forced image =
      subprocess (plain_cmd env.settings.ceph (promote_args env.settings.ceph.pool image true))

  promote_back-In :
      (image : String) (w : World) → In (forced image) (promote_back env image w).1.history
  unfolding promote_back promote run_plain
  promote_back-In image w =
      subst (λ w'. In (forced image) w'.history)
        (sym (attempt-pure-state (promote env env.settings.ceph.pool image true) tt w))
        (bind-In {Q = IsStep} (forced image) _ _ w
          (bind-In {Q = IsStep} (forced image) _ _ w (inl refl) (λ r. search calls_rules))
          (λ a. search calls_rules))

  promote_all-In :
      (images : List String) (image : String) (w : World)
      → In image images
      → In (forced image) (for_each images (promote_back env) w).1.history
  promote_all-In =
      for_each-In (promote_back env) forced promote_back_returns (promote_back-calls env)
        promote_back-In

-- The rollback of the disk step and that of the cutover return, and each has run the command that
-- promotes by force for every image of the migration, whatever the commands before it did.
pub run_rollback-promotes :
    (env : Env) (e : Engine)
    → ((run_rollback env rollback_disk e).0 ≡ ok tt)
      × ((run_rollback env rollback_cutover e).0 ≡ ok tt)
      × ((image : String)
          → In image e.ctx.rbd_images
          → In (forced env image) (run_rollback env rollback_disk e).1.world.history
            × In (forced env image) (run_rollback env rollback_cutover e).1.world.history)
unfolding run_rollback promote_all_back with_state
run_rollback-promotes env e =
    let returns =
      for_each_returns e.ctx.rbd_images (promote_back env) (promote_back_returns env) e.world in
    (
      returns,
      returns,
      λ image i. (
        promote_all-In env e.ctx.rbd_images image e.world i,
        promote_all-In env e.ctx.rbd_images image e.world i,
      ),
    )
