-- ===== src/Migration/ColdEvents.antt =====
-- cnf/migration/engine.py: the events that the steps of `ColdMigrationEngine` record.
use mathlib.Core.List.{append-nil}
use open_stack_cnf.Prelude.{
  ℕ, String, Bool, true, false, List, [], ◌∷◌, ◌++◌, ◌≡◌, refl, sym, ◌∙◌, ap, inl, inr,
  if◌then◌else◌,
}
use open_stack_cnf.Prelude.Percent.{whole}
use open_stack_cnf.Db.Models.{
  MigrationType, MigrationEvent, preflight, disk, cutover, bgp, cleanup, done, cold,
}
use open_stack_cnf.Effect.Exceptions.{Exception, Result, ok, text}
use open_stack_cnf.Effect.Env.{Env}
use open_stack_cnf.Effect.Action.{Action, pure, with_state, attempt, ◌>>=◌}
use open_stack_cnf.Effect.Laws.{
  Result-cases, >>=-eq-ok, >>=-of-ok, >>=-of-err, attempt-of-ok, attempt-of-err,
}
use open_stack_cnf.Effect.Trace.{
  Preorder, Keeps, Keeps-bind, Keeps-pure, calls_rules, with_session-db,
}
use open_stack_cnf.OpenStack.Calls.{get_vm-calls}
use open_stack_cnf.Bgp.Calls.{handoff-calls}
use open_stack_cnf.Migration.Context.{
  Engine, fail, event_of, engine_session, record_failure, set_error, count_failure,
}
use open_stack_cnf.Migration.Rollback.{run_rollbacks}
use open_stack_cnf.Migration.Steps.{succeed, give_up}
use open_stack_cnf.Migration.Calls.{client_rules}
use open_stack_cnf.Migration.StepCalls.{
  IsStep, runs, rpcs, announced, sleeps, servers, addresses, preflight_images-calls,
  promote_images-calls, demote_image-calls, run_rollbacks-calls,
}
use open_stack_cnf.Migration.ColdCalls.{
  stop_if_active-calls, wait_image-calls, register_images-calls,
}
use open_stack_cnf.Migration.Gauge.{delete_source_vm-calls}
use open_stack_cnf.Migration.Frame.{run_with_frame, started}
use open_stack_cnf.Migration.Events.{
  Prefix, start, Records, Records-client, Records-bind, Records-transition, always,
}
use open_stack_cnf.Migration.Cold

-- The events of a cold migration that succeeds.
abbrev pub milestones : String → List MigrationEvent
milestones id =
    event_of id preflight (whole 5)
    ∷ event_of id disk (whole 20)
    ∷ event_of id disk (whole 50)
    ∷ event_of id cutover (whole 70)
    ∷ event_of id bgp (whole 85)
    ∷ event_of id cleanup (whole 95)
    ∷ event_of id done (whole 100)
    ∷ []

abbrev pub self : Bool → Bool
self b = b

module _ (env : Env) (id : String) where
  preflight-Records :
      Records id (event_of id preflight (whole 5) ∷ []) always (Cold.step_preflight env)
  unfolding Cold.step_preflight
  preflight-Records = Records-bind id _ _ (Records-transition env preflight (whole 5) id) λ _.
      Records-client id {Q = IsStep} _
        (search (client_rules, get_vm-calls, preflight_images-calls, servers, addresses) depth 12)

  disk-Records :
      Records id
        (event_of id disk (whole 20) ∷ event_of id disk (whole 50) ∷ [])
        always
        (Cold.step_disk env)
  unfolding Cold.step_disk Cold.sync_and_demote
  disk-Records = Records-bind id _ _ (Records-transition env disk (whole 20) id) λ _.
      Records-bind id _ _ (Records-client id (Cold.stop_if_active env) (stop_if_active-calls env))
        λ _.
          Records-bind id _ _
            (Records-client id {Q = IsStep} (Cold.sync_and_demote env)
              (search (client_rules, calls_rules, wait_image-calls, demote_image-calls) depth 12))
            λ _. Records-bind id _ _ (Records-client id {Q = IsStep} _ (search client_rules)) λ _.
              Records-bind id _ _ (Records-client id _ (promote_images-calls env))
                λ _. Records-transition env disk (whole 50) id

  cutover-Records : Records id (event_of id cutover (whole 70) ∷ []) always (Cold.step_cutover env)
  unfolding Cold.step_cutover
  cutover-Records =
      Records-bind id _ _ (Records-transition env cutover (whole 70) id)
        λ _. Records-client id {Q = IsStep} _ (search (client_rules, register_images-calls))

  bgp-Records : Records id (event_of id bgp (whole 85) ∷ []) always (Cold.step_bgp env)
  unfolding Cold.step_bgp Cold.hand_over
  bgp-Records = Records-bind id _ _ (Records-transition env bgp (whole 85) id) λ _.
      Records-client id {Q = IsStep} _
        (search (client_rules, handoff-calls, runs, announced, rpcs, sleeps) depth 20)

  cleanup-Records : Records id (event_of id cleanup (whole 95) ∷ []) always (Cold.step_cleanup env)
  unfolding Cold.step_cleanup
  cleanup-Records =
      Records-bind id _ _ (Records-transition env cleanup (whole 95) id)
        λ _. Records-client id _ (delete_source_vm-calls env)

  succeed-Records :
      (t0 : ℕ) → Records id (event_of id done (whole 100) ∷ []) self (succeed env cold t0)
  unfolding succeed
  succeed-Records t0 =
      Records-bind id _ _ (Records-transition env done (whole 100) id)
        λ _. Records-client id {Q = λ _. Unit {0}} _ (search (client_rules, calls_rules) depth 12)

  stop-Records :
      (xs : List MigrationEvent) (m : Action Engine Bool)
      → Records id xs self m
      → (stop : Bool) → Records id xs self (if stop then pure false else m)
  stop-Records xs m r true = record {
    at = λ s here. (here, [], sym (append-nil s.world.db.events), start, λ a p f. cc);
  }
  stop-Records xs m r false = r

  steps-Records : (t0 : ℕ) → Records id (milestones id) self (Cold.steps env t0)
  unfolding Cold.steps Cold.steps_after_preflight
  steps-Records t0 = Records-bind id _ _ preflight-Records λ _.
      Records-bind id _ _ (Records-client id {Q = IsStep} _ (search client_rules)) (
        stop-Records _ _ (
          Records-bind id _ _ disk-Records λ _. Records-bind id _ _ cutover-Records λ _.
            Records-bind id _ _ bgp-Records
              λ _. Records-bind id _ _ cleanup-Records λ _. succeed-Records t0))

abbrev pub same_events : Preorder Engine
same_events = record {
  rel = λ e e'. e'.world.db.events ≡ e.world.db.events;
  same = λ e. refl;
  join = λ a b c p q. q ∙ p;
}

module _ (env : Env) where
  -- `_fail` records no event.
  fail_events :
      (error : String) (s : Engine) → (fail env error s).1.world.db.events ≡ s.world.db.events
  unfolding fail ◌>>=◌ with_state engine_session record_failure
  fail_events error s = elim (Result-cases (write.0)) [
    | inl (a, p) ↦ ap (λ r. r.1.world.db.events) (>>=-of-ok m count s' p) ∙ kept
    | inr (x, p) ↦ ap (λ r. r.1.world.db.events) (>>=-of-err m count s' p) ∙ kept
  ]
    where
      s' : Engine
      s' = set_error env error s

      m : Action Engine (Unit {0})
      m = with_state (λ e. engine_session env (record_failure e.ctx.migration_id error))

      count : Unit {0} → Action Engine (Unit {0})
      count _ = count_failure env

      write : Result (Unit {0}) × Engine
      write = m s'

      kept : write.1.world.db.events ≡ s.world.db.events
      kept = with_session-db env _ s.world (λ d. d.events ≡ s.world.db.events) refl refl

  pub give_up_events : (t : MigrationType) (x : Exception) → Keeps same_events (give_up env t x)
  unfolding give_up
  give_up_events t x =
      Keeps-bind (fail env (text x)) _ (record { at = fail_events (text x) })
        λ _.
          Keeps-bind (run_rollbacks env) _
            (record { at = λ s. ap (λ d. d.events) ((run_rollbacks-calls env).at s).2 })
            λ _. Keeps-pure false

  pub give_up-ne-true :
      (t : MigrationType) (x : Exception) (s : Engine) → (give_up env t x s).0 ≡ ok true → ⊥
  unfolding give_up
  give_up-ne-true t x s h =
      let (a, p, q) = >>=-eq-ok (fail env (text x)) _ s h in
      let (a', p', q') = >>=-eq-ok (run_rollbacks env) (λ _. pure false) _ q in cc

  handled-Records :
      (t : MigrationType) (id : String) (xs : List MigrationEvent) (m : Action Engine Bool)
      → Records id xs self m
      → (s : Engine) → s.ctx.migration_id ≡ id
      → let s' = (attempt m (give_up env t) s) in
        (ys : List MigrationEvent) × (s'.1.world.db.events ≡ s.world.db.events ++ ys)
        × Prefix ys xs
        × (s'.0 ≡ ok true → ys ≡ xs)
  handled-Records t id xs m r s here =
      let (_, ys, eq, pre, all) = r.at s here in
      elim (Result-cases (m s).0) [
        | inl (b, p) ↦
            let q = attempt-of-ok m (give_up env t) s p in
            (
              ys,
              ap (λ r. r.1.world.db.events) q ∙ eq,
              pre,
              λ h. all true (p ∙ sym (ap (λ r. r.0) q) ∙ h) refl,
            )
        | inr (x, p) ↦
            let q = attempt-of-err m (give_up env t) s p in
            (
              ys,
              ap (λ r. r.1.world.db.events) q ∙ (give_up_events t x).at (m s).1 ∙ eq,
              pre,
              λ h. absurd (give_up-ne-true t x (m s).1 (sym (ap (λ r. r.0) q) ∙ h)),
            )
      ]

-- The events that `run` of a cold migration records are the first of PREFLIGHT, DISK, DISK, CUTOVER,
-- BGP, CLEANUP and DONE with their progress, in this order, and if it returns true they are all of
-- these.
pub run-cold_events :
    (env : Env) (e : Engine)
    → (ys : List MigrationEvent) × ((Cold.run env e).1.world.db.events ≡ e.world.db.events ++ ys)
      × Prefix ys (milestones e.ctx.migration_id)
      × ((Cold.run env e).0 ≡ ok true → ys ≡ milestones e.ctx.migration_id)
unfolding Cold.run
run-cold_events env e =
    let id = e.ctx.migration_id in
    let q = run_with_frame env cold (Cold.steps env) e in
    let (ys, eq, pre, all) =
      handled-Records env cold id (milestones id) _ (steps-Records env id _) (started env cold e)
        refl in
    (ys, ap (λ r. r.1.world.db.events) q ∙ eq, pre, λ h. all (sym (ap (λ r. r.0) q) ∙ h))
