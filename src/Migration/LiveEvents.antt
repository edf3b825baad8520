-- ===== src/Migration/LiveEvents.antt =====
-- cnf/migration/engine.py: the events that `LiveMigrationEngine` records.
use mathlib.Core.Path.{subst}
use mathlib.Core.List.{append-nil}
use open_stack_cnf.Prelude.{
  ℕ, String, Bool, true, false, List, [], ◌∷◌, ◌++◌, ◌≡◌, refl, sym, ◌∙◌, ap, inl, inr,
  if◌then◌else◌, All,
}
use open_stack_cnf.Prelude.Percent.{whole}
use open_stack_cnf.Db.Models.{
  MigrationEvent, MigrationType, preflight, disk, memory, cutover, bgp, cleanup, done, live,
}
use open_stack_cnf.Effect.Exceptions.{ok}
use open_stack_cnf.Effect.Env.{Env}
use open_stack_cnf.Effect.Action.{Action, pure, attempt}
use open_stack_cnf.Effect.Laws.{Result-cases, attempt-of-ok, attempt-of-err}
use open_stack_cnf.Effect.Trace.{Keeps, keeps_rules, calls_rules}
use open_stack_cnf.OpenStack.Calls.{get_vm-calls}
use open_stack_cnf.Bgp.Calls.{handoff-calls}
use open_stack_cnf.Migration.Context.{Engine, event_of}
use open_stack_cnf.Migration.Steps.{succeed, give_up}
use open_stack_cnf.Migration.Calls.{client_rules}
use open_stack_cnf.Migration.StepCalls.{
  IsStep, runs, rpcs, announced, sleeps, servers, addresses, preflight_images-calls,
  promote_images-calls,
}
use open_stack_cnf.Migration.LiveCalls.{check_image-calls, flush_and_demote-calls}
use open_stack_cnf.Migration.Gauge.{delete_source_vm-calls}
use open_stack_cnf.Migration.Frame.{run_with_frame, started}
use open_stack_cnf.Migration.Events.{
  Records, Records-client, Records-bind, Records-transition, always,
}
use open_stack_cnf.Migration.ColdEvents.{self, give_up_events, give_up-ne-true}
use open_stack_cnf.Migration.Stages.{
  Stage, once, many, Covers, Begins, stopped, Passes, Passes-Records, Passes-bind, All-Begins,
  All-Covers,
}
use open_stack_cnf.Migration.Live
use open_stack_cnf.Migration.MemoryEvents.{IsMemory, memory_events, copy_memory_of-memory}

-- The stages of a live migration.
abbrev pub live_stages : Env → String → List Stage
live_stages env id =
    once (event_of id preflight (whole 5))
    ∷ once (event_of id disk (whole 15))
    ∷ once (event_of id memory (whole 25))
    ∷ many (IsMemory env id)
    ∷ once (event_of id cutover (whole 80))
    ∷ once (event_of id bgp (whole 90))
    ∷ once (event_of id cleanup (whole 96))
    ∷ once (event_of id done (whole 100))
    ∷ []

module _ (env : Env) where
  module _ (id : String) where
    preflight-Records :
        Records id (event_of id preflight (whole 5) ∷ []) always (Live.step_preflight env)
    unfolding Live.step_preflight
    preflight-Records = Records-bind id _ _ (Records-transition env preflight (whole 5) id) λ _.
        Records-client id {Q = IsStep} _
          (search (client_rules, get_vm-calls, preflight_images-calls, servers, addresses) depth 12)

    disk-Records : Records id (event_of id disk (whole 15) ∷ []) always (Live.step_disk_sync env)
    unfolding Live.step_disk_sync
    disk-Records =
        Records-bind id _ _ (Records-transition env disk (whole 15) id)
          λ _. Records-client id {Q = IsStep} _ (search (client_rules, check_image-calls) depth 8)

    cutover-Records :
        Records id (event_of id cutover (whole 80) ∷ []) always (Live.step_cutover env)
    unfolding Live.step_cutover Live.demote_images
    cutover-Records = Records-bind id _ _ (Records-transition env cutover (whole 80) id) λ _.
        Records-client id {Q = IsStep} _
          (search (client_rules, flush_and_demote-calls, promote_images-calls) depth 12)

    bgp-Records : Records id (event_of id bgp (whole 90) ∷ []) always (Live.step_bgp env)
    unfolding Live.step_bgp Live.hand_over
    bgp-Records = Records-bind id _ _ (Records-transition env bgp (whole 90) id) λ _.
        Records-client id {Q = IsStep} _
          (search (client_rules, handoff-calls, runs, announced, rpcs, sleeps) depth 20)

    cleanup-Records :
        Records id (event_of id cleanup (whole 96) ∷ []) always (Live.step_cleanup env)
    unfolding Live.step_cleanup
    cleanup-Records =
        Records-bind id _ _ (Records-transition env cleanup (whole 96) id)
          λ _. Records-client id _ (delete_source_vm-calls env)

    succeed-Records :
        (t0 : ℕ) → Records id (event_of id done (whole 100) ∷ []) self (succeed env live t0)
    unfolding succeed
    succeed-Records t0 =
        Records-bind id _ _ (Records-transition env done (whole 100) id)
          λ _. Records-client id {Q = λ _. Unit {0}} _ (search (client_rules, calls_rules) depth 12)

    Passes-IsMemory :
        {A : Type 0} (m : Action Engine A)
        → Keeps (memory_events env) m
        → Passes id (many (IsMemory env id) ∷ []) always m
    Passes-IsMemory m k = record {
      at = λ s here.
          let (same, ys, eq, all) = k.at s in
          let all' = subst (λ i. All (IsMemory env i) ys) here all in
          (
            same ∙ here,
            ys,
            eq,
            All-Begins (IsMemory env id) ys all',
            λ a p f. All-Covers (IsMemory env id) ys all',
          );
    }

    memory-Passes :
        Passes id
          (once (event_of id memory (whole 25)) ∷ many (IsMemory env id) ∷ [])
          always
          (Live.step_memory env)
    unfolding Live.step_memory
    memory-Passes =
        Passes-bind id _ _ (Passes-Records id _ (Records-transition env memory (whole 25) id))
          λ _. Passes-IsMemory _ (search (keeps_rules, copy_memory_of-memory))

    stop-Passes :
        (ss : List Stage) (m : Action Engine Bool)
        → Passes id ss self m
        → (stop : Bool) → Passes id ss self (if stop then pure false else m)
    stop-Passes ss m r true = record {
      at = λ s here.
          (here, [], sym (append-nil s.world.db.events), stopped, λ a p f. absurd (ff p f));
    }
      where
        ff : {a : Bool} → ok false ≡ ok a → a ≡ true → ⊥
        ff p f = cc
    stop-Passes ss m r false = r

    steps-Passes : (t0 : ℕ) → Passes id (live_stages env id) self (Live.steps env t0)
    unfolding Live.steps Live.steps_after_preflight
    steps-Passes t0 = Passes-bind id _ _ (Passes-Records id _ preflight-Records) λ _.
        Passes-bind id _ _
          (Passes-Records id _ (Records-client id {Q = IsStep} _ (search client_rules)))
          (stop-Passes _ _ (
            Passes-bind id _ _ (Passes-Records id _ disk-Records) λ _.
              Passes-bind id _ _ memory-Passes λ _.
                Passes-bind id _ _ (Passes-Records id _ cutover-Records) λ _.
                  Passes-bind id _ _ (Passes-Records id _ bgp-Records) λ _.
                    Passes-bind id _ _ (Passes-Records id _ cleanup-Records)
                      λ _. Passes-Records id _ (succeed-Records t0)))

  handled-Passes :
      (t : MigrationType) (id : String) (ss : List Stage) (m : Action Engine Bool)
      → Passes id ss self m
      → (s : Engine) → s.ctx.migration_id ≡ id
      → let s' = (attempt m (give_up env t) s) in
        (ys : List MigrationEvent) × (s'.1.world.db.events ≡ s.world.db.events ++ ys)
        × Begins ss ys
        × (s'.0 ≡ ok true → Covers ss ys)
  handled-Passes t id ss m r s here =
      let (_, ys, eq, pre, all) = r.at s here in
      elim (Result-cases (m s).0) [
        | inl (b, p) ↦
            let q = attempt-of-ok m (give_up env t) s p in
            (
              ys,
              ap (λ r. r.1.world.db.events) q ∙ eq,
              pre,
              λ h. all true (p ∙ sym (ap (λ r. r.0) q) ∙ h) refl,
            )
        | inr (x, p) ↦
            let q = attempt-of-err m (give_up env t) s p in
            (
              ys,
              ap (λ r. r.1.world.db.events) q ∙ (give_up_events env t x).at (m s).1 ∙ eq,
              pre,
              λ h. absurd (give_up-ne-true env t x (m s).1 (sym (ap (λ r. r.0) q) ∙ h)),
            )
      ]

-- The events that `run` of a live migration records go through PREFLIGHT, DISK, MEMORY, any number
-- of further events of MEMORY with 25 and the half of a share that the tunnel reports, CUTOVER, BGP, CLEANUP and DONE in this
-- order, and stop at any point of it; if it returns true they go through all of these.
pub run-live_events :
    (env : Env) (e : Engine)
    → (ys : List MigrationEvent) × ((Live.run env e).1.world.db.events ≡ e.world.db.events ++ ys)
      × Begins (live_stages env e.ctx.migration_id) ys
      × ((Live.run env e).0 ≡ ok true → Covers (live_stages env e.ctx.migration_id) ys)
unfolding Live.run
run-live_events env e =
    let id = e.ctx.migration_id in
    let q = run_with_frame env live (Live.steps env) e in
    let (ys, eq, pre, all) =
      handled-Passes env live id (live_stages env id) _ (steps-Passes env id _) (started env live e)
        refl in
    (ys, ap (λ r. r.1.world.db.events) q ∙ eq, pre, λ h. all (sym (ap (λ r. r.0) q) ∙ h))
