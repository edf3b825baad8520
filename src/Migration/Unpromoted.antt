-- ===== src/Migration/Unpromoted.antt =====
-- cnf/migration/engine.py: the disk step of a cold migration that raises before its rollback is
-- registered.
use mathlib.Core.Path.{subst}
use open_stack_cnf.Prelude.{ℕ, Bool, false, [], ◌≡◌, refl, sym, ap, ◌∙◌}
use open_stack_cnf.Prelude.Percent.{whole}
use open_stack_cnf.Db.Models.{cold, disk}
use open_stack_cnf.Effect.Exceptions.{Exception, Result, ok, err, text}
use open_stack_cnf.Effect.Env.{Env}
use open_stack_cnf.Effect.Action.{
  Action, with_state, attempt, for_each, continue, pure, ◌>>=◌, ◌>>◌,
}
use open_stack_cnf.Effect.Trace.{Since, Since-trans}
use open_stack_cnf.Migration.Context.{Engine, transition, fail, register_rollback, rollback_disk}
use open_stack_cnf.Migration.Steps.{promote_images, give_up, succeed}
use open_stack_cnf.Migration.Rollback.{run_rollbacks}
use open_stack_cnf.Migration.Deletion.{>>=-assoc, gated_before_end}
use open_stack_cnf.Migration.Frame.{run_with_frame, started}
use open_stack_cnf.Migration.NoPromotion.{
  IsNoPromotion, unpromoted, demotion, fail-Keeps, preflight-Keeps, demotion-Keeps,
}
use open_stack_cnf.Migration.Cold

-- Four steps and what follows, bracketed after the third.
regroup :
    (a b c d : Action Engine (Unit {0})) (k : Action Engine Bool) (s : Engine)
    → ((a >> (b >> (c >> d))) >>= λ _. k) s ≡ ((a >> b >> c) >>= λ _. (d >>= λ _. k)) s
regroup a b c d k s =
    let inner : (s' : Engine) → ((c >> d) >>= λ _. k) s' ≡ (c >>= λ _. (d >>= λ _. k)) s' =
      λ s'. >>=-assoc c (λ _. d) (λ _. k) s' in
    let middle : (s' : Engine)
        → ((b >> (c >> d)) >>= λ _. k) s' ≡ (b >>= λ _. (c >>= λ _. (d >>= λ _. k))) s' =
      λ s'.
        >>=-assoc b (λ _. c >> d) (λ _. k) s'
        ∙ ap (λ f. (b >>= λ _. f) s') (λ i s''. inner s'' i) in
    >>=-assoc a (λ _. b >> (c >> d)) (λ _. k) s
    ∙ ap (λ f. (a >>= λ _. f) s) (λ i s'. middle s' i)
    ∙ sym (
        >>=-assoc (a >> b) (λ _. c) (λ _. d >>= λ _. k) s
        ∙ >>=-assoc a (λ _. b) (λ _. c >>= λ _. (d >>= λ _. k)) s)

module _ (env : Env) where
  -- The disk step after that, and the steps after it.
  abbrev rest_of_disk : Action Engine (Unit {0})
  rest_of_disk = do
    register_rollback rollback_disk
    promote_images env
    transition env disk (whole 50)

  abbrev rest_of_run : ℕ → Action Engine Bool
  rest_of_run t0 = do
    Cold.step_cutover env
    Cold.step_bgp env
    Cold.step_cleanup env
    succeed env cold t0

  after_demotion :
      (t0 : ℕ) (s : Engine)
      → Cold.steps_after_preflight env t0 s
        ≡ (demotion env >>= λ _. (rest_of_disk >>= λ _. rest_of_run t0)) s
  unfolding Cold.steps_after_preflight Cold.step_disk
  after_demotion t0 s =
      regroup (transition env disk (whole 20)) (Cold.stop_if_active env) (Cold.sync_and_demote env)
        rest_of_disk (rest_of_run t0) s

  no_rollbacks : (s : Engine) → s.rollbacks ≡ [] → run_rollbacks env s ≡ (ok tt, s)
  unfolding run_rollbacks with_state for_each
  no_rollbacks s empty = rw empty refl

  rest-Keeps :
      (r : Result (Unit {0})) (s : Engine)
      → s.rollbacks ≡ []
      → unpromoted.rel s (continue r (λ _. run_rollbacks env >>= λ _. pure false) s).1
  unfolding ◌>>=◌
  rest-Keeps (err x) s empty = unpromoted.same s
  rest-Keeps (ok tt) s empty =
      subst (λ r. unpromoted.rel s (continue r.0 (λ _. pure false) r.1).1)
        (sym (no_rollbacks s empty)) (unpromoted.same s)

  given_up :
      (x : Exception) (s : Engine) → s.rollbacks ≡ [] → unpromoted.rel s (give_up env cold x s).1
  unfolding give_up ◌>>=◌
  given_up x s empty =
      let k = (fail-Keeps env (text x)).at s in
      let (r, s') = fail env (text x) s in
      unpromoted.join s s' (continue r (λ _. run_rollbacks env >>= λ _. pure false) s').1 k
        (rest-Keeps r s' (k.1 ∙ empty))

  -- A run whose steps end without a promotion, for an engine with no rollbacks.
  handled-IsNoPromotion :
      (e : Engine) (r : Result Bool × Engine)
      → e.rollbacks ≡ []
      → unpromoted.rel e r.1
      → Since IsNoPromotion e.world.history (attempt (λ _. r) (give_up env cold) e).1.world.history
  unfolding attempt
  handled-IsNoPromotion e (ok b, e') none_yet h = h.0
  handled-IsNoPromotion e (err x, e') none_yet h =
      (unpromoted.join e e' (give_up env cold x e').1 h (given_up x e' (h.1 ∙ none_yet))).0

-- A cold migration with no rollbacks whose preflight raises, or whose disk step raises before it
-- registers its rollback, for one of the images or before them, has no promotion that returns
-- anywhere in its run, and asks no peer for one, whatever images it has demoted before.
pub run-cold_unpromoted :
    (env : Env) (e : Engine) (x : Exception)
    → e.rollbacks ≡ []
    → ((Cold.step_preflight env >> demotion env) (started env cold e)).0 ≡ err x
    → Since IsNoPromotion e.world.history (Cold.run env e).1.world.history
unfolding Cold.run Cold.steps attempt
run-cold_unpromoted env e x none_yet h =
    let gated =
      gated_before_end unpromoted (Cold.step_preflight env) (demotion env)
        (Cold.steps_after_preflight env _) _ (after_demotion env _) (preflight-Keeps env)
        (demotion-Keeps env) (started env cold e) h in
    subst (λ r. Since IsNoPromotion e.world.history r.1.world.history)
      (sym (run_with_frame env cold (Cold.steps env) e))
      (Since.more tt (
        Since-trans {b = (started env cold e).world.history} (Since.more tt Since.same)
          (handled-IsNoPromotion env (started env cold e) _ none_yet gated)))
