-- ===== src/Migration/Deletion.antt =====
-- cnf/migration/engine.py: when the virtual machine on the source is deleted.
use mathlib.Core.Path.{subst}
use open_stack_cnf.Prelude.{
  ℕ, arith, Bool, true, false, inl, inr, ◌≡◌, refl, sym, ◌∙◌, if◌then◌else◌,
}
use open_stack_cnf.Db.Models.{MigrationType, cold, live}
use open_stack_cnf.Effect.Exceptions.{Exception, Result, ok, err}
use open_stack_cnf.Effect.Call.{Call, sdk, delete_server, force_delete_server}
use open_stack_cnf.Effect.Env.{Env}
use open_stack_cnf.Effect.Action.{Action, attempt, continue, gets, pure, ◌>>=◌, ◌>>◌}
use open_stack_cnf.Effect.Laws.{Result-cases, >>=-of-ok, >>=-of-err}
use open_stack_cnf.Effect.Trace.{Preorder, Keeps, Since, Since-map, Since-trans, same, more}
use open_stack_cnf.Migration.Context.{Engine}
use open_stack_cnf.Migration.Steps.{succeed, give_up, run_with}
use open_stack_cnf.Migration.Calls.{engine_calls, engine_rules}
use open_stack_cnf.Migration.StepCalls.{IsStep, give_up-calls}
use open_stack_cnf.Migration.ColdCalls.{
  preflight_cold-calls, disk_cold-calls, cutover_cold-calls, bgp_cold-calls,
}
use open_stack_cnf.Migration.LiveCalls.{
  preflight_live-calls, disk_live-calls, memory_live-calls, cutover_live-calls, bgp_live-calls,
}
use open_stack_cnf.Migration.Frame.{run_with_frame, started}
use open_stack_cnf.Migration.Cold
use open_stack_cnf.Migration.Live

abbrev pub IsNoDeletion : Call → Type 0
IsNoDeletion (sdk side (delete_server i)) = ⊥
IsNoDeletion (sdk side (force_delete_server i)) = ⊥
IsNoDeletion _ = Unit {0}

step_deletes_not : (c : Call) → IsStep c → IsNoDeletion c
step_deletes_not c h = ground arith

module _ {S A B C : Type 0} where
  continue_assoc :
      (r : Result A) (f : A → Action S B) (g : B → Action S C) (s : S)
      → continue (continue r f s).0 g (continue r f s).1 ≡ continue r (λ a. f a >>= g) s
  unfolding ◌>>=◌
  continue_assoc (ok a) f g s = refl
  continue_assoc (err x) f g s = refl

  pub >>=-assoc :
      (m : Action S A) (f : A → Action S B) (g : B → Action S C) (s : S)
      → ((m >>= f) >>= g) s ≡ (m >>= (λ a. f a >>= g)) s
  unfolding ◌>>=◌
  >>=-assoc m f g s = continue_assoc (m s).0 f g (m s).1

module _ (P : Preorder Engine) (pre mid : Action Engine (Unit {0}))
    (after rest : Action Engine Bool) (splits : (s : Engine) → after s ≡ (mid >>= λ _. rest) s)
    (pre_keeps : Keeps P pre) (mid_keeps : Keeps P mid) where
  -- The steps of a run: after the preflight, those of an aborted engine end.
  abbrev pub gated : Action Engine Bool
  gated = pre >>= λ _. (gets (λ e. e.aborted) >>= λ stop. if stop then pure false else after)

  unless_aborted :
      (stop : Bool) (s : Engine) {x : Exception}
      → (mid s).0 ≡ err x
      → P.rel s ((if stop then pure false else after) s).1
  unless_aborted true s h = P.same s
  unless_aborted false s h =
      subst (λ r. P.rel s r.1) (sym (splits s ∙ >>=-of-err mid (λ _. rest) s h)) (mid_keeps.at s)

  pub gated_before_end :
      (s : Engine) {x : Exception} → ((pre >> mid) s).0 ≡ err x → P.rel s (gated s).1
  unfolding ◌>>=◌
  gated_before_end s {x} h = elim (Result-cases (pre s).0) [
    | inl (a, p) ↦
        subst (λ r. P.rel s r.1) (sym (>>=-of-ok pre _ s p))
          (P.join s (pre s).1 _ (pre_keeps.at s) (
            unless_aborted (pre s).1.aborted (pre s).1
              (subst (λ r. r.0 ≡ err x) (>>=-of-ok pre _ s p) h)))
    | inr (y, p) ↦ subst (λ r. P.rel s r.1) (sym (>>=-of-err pre _ s p)) (pre_keeps.at s)
  ]

module _ (env : Env) where
  -- The steps of a cold migration between its preflight and its cleanup.
  abbrev cold_middle : Action Engine (Unit {0})
  cold_middle = Cold.step_disk env >> Cold.step_cutover env >> Cold.step_bgp env

  cold_middle-steps :
      (t0 : ℕ) (s : Engine)
      → Cold.steps_after_preflight env t0 s
        ≡ (cold_middle >>= λ _. (Cold.step_cleanup env >>= λ _. succeed env cold t0)) s
  unfolding Cold.steps_after_preflight
  cold_middle-steps t0 s = sym (
      >>=-assoc (Cold.step_disk env >> Cold.step_cutover env) _ _ s
      ∙ >>=-assoc (Cold.step_disk env) _ _ s)

  cold_middle-calls : Keeps (engine_calls IsStep) cold_middle
  cold_middle-calls = search (engine_rules, disk_cold-calls, cutover_cold-calls, bgp_cold-calls)

  -- The steps of a live migration between its preflight and its cleanup.
  abbrev live_middle : Action Engine (Unit {0})
  live_middle =
      Live.step_disk_sync env >> Live.step_memory env >> Live.step_cutover env >> Live.step_bgp env

  live_middle-steps :
      (t0 : ℕ) (s : Engine)
      → Live.steps_after_preflight env t0 s
        ≡ (live_middle >>= λ _. (Live.step_cleanup env >>= λ _. succeed env live t0)) s
  unfolding Live.steps_after_preflight
  live_middle-steps t0 s = sym (
      >>=-assoc (Live.step_disk_sync env >> Live.step_memory env >> Live.step_cutover env) _ _ s
      ∙ >>=-assoc (Live.step_disk_sync env >> Live.step_memory env) _ _ s
      ∙ >>=-assoc (Live.step_disk_sync env) _ _ s)

  live_middle-calls : Keeps (engine_calls IsStep) live_middle
  live_middle-calls =
      search (engine_rules, disk_live-calls, memory_live-calls, cutover_live-calls, bgp_live-calls)

  module _ (t : MigrationType) (steps : ℕ → Action Engine Bool) where
    handled_calls :
        (e : Engine) (r : Result Bool × Engine)
        → Since IsStep e.world.history r.1.world.history
        → Since IsStep e.world.history (attempt (λ _. r) (give_up env t) e).1.world.history
    unfolding attempt
    handled_calls e (ok b, e') h = h
    handled_calls e (err x, e') h = Since-trans h ((give_up-calls env t x).at e').0

    -- A run whose steps delete no machine deletes none.
    IsNoDeletion-run_with :
        (e : Engine)
        → ((t0 : ℕ)
            → Since IsStep
                (started env t e).world.history
                (steps t0 (started env t e)).1.world.history)
        → Since IsNoDeletion e.world.history (run_with env t steps e).1.world.history
    unfolding attempt
    IsNoDeletion-run_with e h =
        subst (λ r. Since IsNoDeletion e.world.history r.1.world.history)
          (sym (run_with_frame env t steps e))
          (more tt (
            Since-trans {b = (started env t e).world.history} (more tt same)
              (Since-map step_deletes_not (handled_calls (started env t e) _ (h _)))))

-- A cold migration whose preflight, disk, cutover or BGP step raises makes no call that deletes a
-- virtual machine, in those steps, in its rollbacks, or anywhere else in its run.
pub run-cold_deletion :
    (env : Env) (e : Engine) (x : Exception)
    → ((Cold.step_preflight env
          >> (Cold.step_disk env >> Cold.step_cutover env >> Cold.step_bgp env))
        (started env cold e)).0
      ≡ err x
    → Since IsNoDeletion e.world.history (Cold.run env e).1.world.history
unfolding Cold.run Cold.steps
run-cold_deletion env e x h = IsNoDeletion-run_with env cold (Cold.steps env) e λ t0.
    (gated_before_end (engine_calls IsStep) (Cold.step_preflight env) (cold_middle env)
      (Cold.steps_after_preflight env t0) (Cold.step_cleanup env >>= λ _. succeed env cold t0)
      (cold_middle-steps env t0) (preflight_cold-calls env) (cold_middle-calls env)
      (started env cold e) h).0

-- A live migration whose preflight, disk, memory, cutover or BGP step raises makes no call that
-- deletes a virtual machine, in those steps, in its rollbacks, or anywhere else in its run.
pub run-live_deletion :
    (env : Env) (e : Engine) (x : Exception)
    → ((Live.step_preflight env
          >> (Live.step_disk_sync env
              >> Live.step_memory env
              >> Live.step_cutover env
              >> Live.step_bgp env))
        (started env live e)).0
      ≡ err x
    → Since IsNoDeletion e.world.history (Live.run env e).1.world.history
unfolding Live.run Live.steps
run-live_deletion env e x h = IsNoDeletion-run_with env live (Live.steps env) e λ t0.
    (gated_before_end (engine_calls IsStep) (Live.step_preflight env) (live_middle env)
      (Live.steps_after_preflight env t0) (Live.step_cleanup env >>= λ _. succeed env live t0)
      (live_middle-steps env t0) (preflight_live-calls env) (live_middle-calls env)
      (started env live e) h).0

-- The steps of a migration, live or cold, before its cleanup.
abbrev pub steps_before_cleanup : Env → Bool → Action Engine (Unit {0})
steps_before_cleanup env true =
    Live.step_preflight env
    >> (Live.step_disk_sync env
        >> Live.step_memory env
        >> Live.step_cutover env
        >> Live.step_bgp env)
steps_before_cleanup env false =
    Cold.step_preflight env >> (Cold.step_disk env >> Cold.step_cutover env >> Cold.step_bgp env)

-- A migration, live or cold, one of whose steps before the cleanup raises makes no call that deletes
-- a virtual machine, in those steps, in its rollbacks, or anywhere else in its run.
pub runs_deletion :
    (env : Env) (is_live : Bool) (e : Engine) (x : Exception)
    → (steps_before_cleanup env is_live (started env (if is_live then live else cold) e)).0 ≡ err x
    → Since IsNoDeletion e.world.history
        ((if is_live then Live.run env else Cold.run env) e).1.world.history
runs_deletion env true e x = run-live_deletion env e x
runs_deletion env false e x = run-cold_deletion env e x
