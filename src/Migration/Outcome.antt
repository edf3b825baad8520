-- ===== src/Migration/Outcome.antt =====
-- cnf/migration/engine.py: the result of `run` and the row of the migration.
use mathlib.Core.Path.{subst}
use open_stack_cnf.Prelude.{ℕ, Bool, true, false, some, ◌≡◌, sym, ◌∙◌, ap, inl, inr, if◌then◌else◌}
use open_stack_cnf.Prelude.Percent.{whole}
use open_stack_cnf.Db.Models.{MigrationType, MigrationState, done, failed, cold, live}
use open_stack_cnf.Effect.Exceptions.{Exception, ok, text}
use open_stack_cnf.Effect.Env.{Env}
use open_stack_cnf.Effect.Action.{Action, pure, gets, attempt, ◌>>=◌}
use open_stack_cnf.Effect.Laws.{
  Result-cases, attempt-of-ok, attempt-of-err, ok-injective, >>=-eq-ok, >>=-of-ok,
}
use open_stack_cnf.Effect.Trace.{Keeps, calls_rules}
use open_stack_cnf.Migration.Context.{Engine}
use open_stack_cnf.Migration.Steps.{succeed, give_up, run_with}
use open_stack_cnf.Migration.Calls.{HasRow, engine_calls, client_calls, client_rules}
use open_stack_cnf.Migration.StepCalls.{IsStep, run_rollbacks-calls}
use open_stack_cnf.Migration.Gauge.{
  IsQuiet, cold_steps-IsQuiet, live_steps-IsQuiet, cleanup_cold-IsQuiet, cleanup_live-IsQuiet,
}
use open_stack_cnf.Migration.ColdCalls.{
  preflight_cold-calls, disk_cold-calls, cutover_cold-calls, bgp_cold-calls,
}
use open_stack_cnf.Migration.LiveCalls.{
  preflight_live-calls, disk_live-calls, memory_live-calls, cutover_live-calls, bgp_live-calls,
}
use open_stack_cnf.Migration.Row.{row_state, transition-row, fail-row}
use open_stack_cnf.Migration.Frame.{run_with_frame, started}
use open_stack_cnf.Migration.Cold
use open_stack_cnf.Migration.Live

-- The state in which a run leaves a migration, by its result.
abbrev pub final : Bool → MigrationState
final b = if b then done else failed

-- From an engine that is not aborted and whose migration has a row, an action that returns leaves
-- the row in the state that its result says.
record Ends (m : Action Engine Bool) : Type 0 where
  at :
      (s : Engine) (b : Bool)
      → s.aborted ≡ false
      → HasRow s.ctx.migration_id s.world
      → (m s).0 ≡ ok b
      → row_state s.ctx.migration_id (m s).1.world.db ≡ some (final b)

module _ {Q : _ → Type 0} where
  Ends-bind :
      {A : Type 0} (m : Action Engine A) (f : A → Action Engine Bool)
      → Keeps (engine_calls Q) m
      → ((a : A) → Ends (f a))
      → Ends (m >>= f)
  Ends-bind m f k ends = record {
    at = λ s b live has h.
        let (a, p, q) = >>=-eq-ok m f s h in
        let s' = (m s).1 in
        let (_, same, kept) = k.at s in
        let id = ap (λ i. i.0) same in
        ap (λ r. row_state s.ctx.migration_id r.1.world.db) (>>=-of-ok m f s p)
        ∙ subst (λ i. row_state i (f a s').1.world.db ≡ some (final b)) id
            ((ends a).at s' b (ap (λ i. i.1) same ∙ live)
              (subst (λ i. HasRow i s'.world) (sym id) (kept has)) q);
  }

  -- An action that writes a state, and then has one result and writes no more.
  Ends-write :
      (c : Bool) (m : Action Engine (Unit {0})) (f : Unit {0} → Action Engine Bool)
      → ((s : Engine)
          → HasRow s.ctx.migration_id s.world
          → (m s).0 ≡ ok tt
          → row_state s.ctx.migration_id (m s).1.world.db ≡ some (final c))
      → Keeps (client_calls Q) (f tt)
      → ((s : Engine) (b : Bool) → (f tt s).0 ≡ ok b → c ≡ b)
      → Ends (m >>= f)
  Ends-write c m f wrote rest only = record {
    at = λ s b live has h.
        let (a, p, q) = >>=-eq-ok m f s h in
        ap (λ r. row_state s.ctx.migration_id r.1.world.db) (>>=-of-ok m f s p)
        ∙ ap (row_state s.ctx.migration_id) (rest.at (m s).1).2
        ∙ wrote s has p
        ∙ ap (λ x. some (final x)) (only (m s).1 b q);
  }

Ends-stop :
    (m : Action Engine Bool)
    → Ends m
    → Ends (gets (λ e. e.aborted) >>= λ stop. if stop then pure false else m)
unfolding ◌>>=◌
Ends-stop m ends = record {
  at = λ s b live has h.
      subst
        (λ stop.
          ((if stop then pure false else m) s).0 ≡ ok b
          → row_state s.ctx.migration_id ((if stop then pure false else m) s).1.world.db
            ≡ some (final b))
        (sym live) (ends.at s b live has) h;
}

returns_only :
    {A : Type 0} (c : Bool) (m : Action Engine A) (s : Engine) (b : Bool)
    → ((m >>= λ _. pure c) s).0 ≡ ok b
    → c ≡ b
returns_only c m s b h = let (a, p, q) = >>=-eq-ok m (λ _. pure c) s h in ok-injective q

module _ (env : Env) (t : MigrationType) where
  Ends-succeed : (t0 : ℕ) → Ends (succeed env t t0)
  unfolding succeed
  Ends-succeed t0 =
      Ends-write {Q = λ _. Unit {0}} true _ _
        (λ s has h. transition-row env s has done (whole 100) h)
        (search (client_rules, calls_rules) depth 12) (returns_only true _)

  Ends-give_up : (x : Exception) → Ends (give_up env t x)
  unfolding give_up
  Ends-give_up x =
      Ends-write {Q = IsStep} false _ _ (λ s has h. fail-row env s has (text x) h)
        (search (client_rules, run_rollbacks-calls)) (returns_only false _)

  Ends-attempt :
      (m : Action Engine Bool)
      → Keeps (engine_calls IsQuiet) m
      → Ends m
      → Ends (attempt m (give_up env t))
  Ends-attempt m k ends = record {
    at = λ s b live has h. elim (Result-cases (m s).0) [
      | inl (a, p) ↦
          let q = attempt-of-ok m (give_up env t) s p in
          ap (λ r. row_state s.ctx.migration_id r.1.world.db) q
          ∙ ends.at s b live has (p ∙ sym (ap (λ r. r.0) q) ∙ h)
      | inr (x, p) ↦
          let q = attempt-of-err m (give_up env t) s p in
          let s' = (m s).1 in
          let (_, same, kept) = k.at s in
          let id = ap (λ i. i.0) same in
          ap (λ r. row_state s.ctx.migration_id r.1.world.db) q
          ∙ subst (λ i. row_state i (give_up env t x s').1.world.db ≡ some (final b)) id
              ((Ends-give_up x).at s' b (ap (λ i. i.1) same ∙ live)
                (subst (λ i. HasRow i s'.world) (sym id) (kept has)) (sym (ap (λ r. r.0) q) ∙ h))
    ];
  }

  Ends-run_with :
      (steps : ℕ → Action Engine Bool)
      → ((t0 : ℕ) → Keeps (engine_calls IsQuiet) (steps t0))
      → ((t0 : ℕ) → Ends (steps t0))
      → Ends (run_with env t steps)
  Ends-run_with steps k ends = record {
    at = λ s b live has h.
        let q = run_with_frame env t steps s in
        ap (λ r. row_state s.ctx.migration_id r.1.world.db) q
        ∙ (Ends-attempt (steps _) (k _) (ends _)).at (started env t s) b live has
            (sym (ap (λ r. r.0) q) ∙ h);
  }

module _ (env : Env) where
  cold_steps-Ends : (t0 : ℕ) → Ends (Cold.steps env t0)
  unfolding Cold.steps Cold.steps_after_preflight
  cold_steps-Ends t0 = Ends-bind _ _ (preflight_cold-calls env) λ _. Ends-stop _ (
      Ends-bind _ _ (disk_cold-calls env) λ _. Ends-bind _ _ (cutover_cold-calls env) λ _.
        Ends-bind _ _ (bgp_cold-calls env)
          λ _. Ends-bind _ _ (cleanup_cold-IsQuiet env) λ _. Ends-succeed env cold t0)

  live_steps-Ends : (t0 : ℕ) → Ends (Live.steps env t0)
  unfolding Live.steps Live.steps_after_preflight
  live_steps-Ends t0 = Ends-bind _ _ (preflight_live-calls env) λ _. Ends-stop _ (
      Ends-bind _ _ (disk_live-calls env) λ _. Ends-bind _ _ (memory_live-calls env) λ _.
        Ends-bind _ _ (cutover_live-calls env) λ _.
          Ends-bind _ _ (bgp_live-calls env)
            λ _. Ends-bind _ _ (cleanup_live-IsQuiet env) λ _. Ends-succeed env live t0)

-- When `run` of a cold migration returns, for an engine that was not aborted before and whose
-- migration has a row, the row is in state DONE if the result is true and FAILED if it is false.
pub run-cold_outcome :
    (env : Env) (e : Engine) (b : Bool)
    → e.aborted ≡ false
    → HasRow e.ctx.migration_id e.world
    → (Cold.run env e).0 ≡ ok b
    → row_state e.ctx.migration_id (Cold.run env e).1.world.db ≡ some (final b)
unfolding Cold.run
run-cold_outcome env e =
    (Ends-run_with env cold (Cold.steps env) (cold_steps-IsQuiet env) (cold_steps-Ends env)).at e

-- When `run` of a live migration returns, for an engine that was not aborted before and whose
-- migration has a row, the row is in state DONE if the result is true and FAILED if it is false.
pub run-live_outcome :
    (env : Env) (e : Engine) (b : Bool)
    → e.aborted ≡ false
    → HasRow e.ctx.migration_id e.world
    → (Live.run env e).0 ≡ ok b
    → row_state e.ctx.migration_id (Live.run env e).1.world.db ≡ some (final b)
unfolding Live.run
run-live_outcome env e =
    (Ends-run_with env live (Live.steps env) (live_steps-IsQuiet env) (live_steps-Ends env)).at e

-- When `run` of a migration, live or cold, returns, for an engine that was not aborted before and
-- whose migration has a row, the row is in state DONE if the result is true and FAILED if it is
-- false.
pub runs_outcome :
    (env : Env) (is_live : Bool) (e : Engine) (b : Bool)
    → e.aborted ≡ false
    → HasRow e.ctx.migration_id e.world
    → ((if is_live then Live.run env else Cold.run env) e).0 ≡ ok b
    → row_state e.ctx.migration_id ((if is_live then Live.run env else Cold.run env) e).1.world.db
      ≡ some (final b)
runs_outcome env true e b = run-live_outcome env e b
runs_outcome env false e b = run-cold_outcome env e b
