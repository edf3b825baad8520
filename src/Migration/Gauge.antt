-- ===== src/Migration/Gauge.antt =====
-- cnf/migration/engine.py: the gauge of active migrations around `run`.
use mathlib.Core.Path.{subst}
use open_stack_cnf.Prelude.{
  ℕ, suc, arith, String, Bool, true, false, [], ◌∷◌, ◌≡◌, refl, sym, ◌∙◌, ap, if◌then◌else◌,
}
use open_stack_cnf.Db.Models.{MigrationType, cold, live}
use open_stack_cnf.Effect.Exceptions.{Exception}
use open_stack_cnf.Effect.Call.{
  Call, History, Side, active_inc, active_dec, metric, sdk, delete_server,
}
use open_stack_cnf.Effect.Env.{Env}
use open_stack_cnf.Effect.Action.{Action}
use open_stack_cnf.Effect.Trace.{Keeps, Keeps-attempt, Since, same, more}
use open_stack_cnf.OpenStack.Calls.{delete_vm-calls}
use open_stack_cnf.Migration.Context.{Engine}
use open_stack_cnf.Migration.Steps.{delete_source_vm, give_up, run_with}
use open_stack_cnf.Migration.Calls.{
  client_calls, engine_calls, engine_rules, client_rules, engine-of-client, engine_calls-map,
  transition-calls,
}
use open_stack_cnf.Migration.StepCalls.{IsStep, give_up-calls, succeed-calls}
use open_stack_cnf.Migration.ColdCalls.{
  preflight_cold-calls, disk_cold-calls, cutover_cold-calls, bgp_cold-calls,
}
use open_stack_cnf.Migration.LiveCalls.{
  preflight_live-calls, disk_live-calls, memory_live-calls, cutover_live-calls, bgp_live-calls,
}
use open_stack_cnf.Migration.Frame.{run_with_frame, tried, started}
use open_stack_cnf.Migration.Cold
use open_stack_cnf.Migration.Live

abbrev same_type : MigrationType → MigrationType → Bool
same_type cold cold = true
same_type live live = true
same_type _ _ = false

abbrev pub is_inc : MigrationType → Call → Bool
is_inc t (metric (active_inc u)) = same_type t u
is_inc t _ = false

abbrev pub is_dec : MigrationType → Call → Bool
is_dec t (metric (active_dec u)) = same_type t u
is_dec t _ = false

-- The number of the calls that pass a test.
unfoldable pub count : (Call → Bool) → History → ℕ
count p [] = 0
count p (c ∷ h) = if p c then suc (count p h) else count p h

-- Neither an increment nor a decrement of the gauge.
abbrev pub IsQuiet : Call → Type 0
IsQuiet (metric (active_inc t)) = ⊥
IsQuiet (metric (active_dec t)) = ⊥
IsQuiet _ = Unit {0}

IsQuiet-step : (c : Call) → IsStep c → IsQuiet c
IsQuiet-step c h = ground arith

module _ (t : MigrationType) where
  inc_quiet : (c : Call) → IsQuiet c → is_inc t c ≡ false
  inc_quiet c h = ground arith

  dec_quiet : (c : Call) → IsQuiet c → is_dec t c ≡ false
  dec_quiet c h = ground arith

count-quiet :
    (p : Call → Bool)
    → ((c : Call) → IsQuiet c → p c ≡ false)
    → {a b : History} → Since IsQuiet a b
    → count p b ≡ count p a
unfolding count
count-quiet p hp same = refl
count-quiet p hp (more {c} q s) = rw (hp c q) (count-quiet p hp s)

count_inc :
    (t : MigrationType) (h : History)
    → count (is_inc t) (metric (active_inc t) ∷ h) ≡ suc (count (is_inc t) h)
unfolding count
count_inc cold h = refl
count_inc live h = refl

count_inc_dec :
    (t : MigrationType) (h : History)
    → count (is_dec t) (metric (active_inc t) ∷ h) ≡ count (is_dec t) h
unfolding count
count_inc_dec t h = refl

count_dec_inc :
    (t : MigrationType) (h : History)
    → count (is_inc t) (metric (active_dec t) ∷ h) ≡ count (is_inc t) h
unfolding count
count_dec_inc t h = refl

count_dec :
    (t : MigrationType) (h : History)
    → count (is_dec t) (metric (active_dec t) ∷ h) ≡ suc (count (is_dec t) h)
unfolding count
count_dec cold h = refl
count_dec live h = refl

deletes : (side : Side) (i : String) → IsQuiet (sdk side (delete_server i))
deletes side i = tt

module _ (env : Env) where
  pub delete_source_vm-calls : Keeps (client_calls IsQuiet) (delete_source_vm env)
  unfolding delete_source_vm
  delete_source_vm-calls = search (client_rules, delete_vm-calls, deletes) depth 10

  pub cleanup_cold-IsQuiet : Keeps (engine_calls IsQuiet) (Cold.step_cleanup env)
  unfolding Cold.step_cleanup
  cleanup_cold-IsQuiet =
      search (engine_rules, engine-of-client, transition-calls, delete_source_vm-calls)

  pub cleanup_live-IsQuiet : Keeps (engine_calls IsQuiet) (Live.step_cleanup env)
  unfolding Live.step_cleanup
  cleanup_live-IsQuiet =
      search (engine_rules, engine-of-client, transition-calls, delete_source_vm-calls)

  quiet :
      {A : Type 0} (m : Action Engine A)
      → Keeps (engine_calls IsStep) m
      → Keeps (engine_calls IsQuiet) m
  quiet m k = engine_calls-map m IsQuiet-step k

  pub give_up-IsQuiet :
      (t : MigrationType) (x : Exception) → Keeps (engine_calls IsQuiet) (give_up env t x)
  give_up-IsQuiet t x = quiet (give_up env t x) (give_up-calls env t x)

  pub cold_steps-IsQuiet : (t0 : ℕ) → Keeps (engine_calls IsQuiet) (Cold.steps env t0)
  unfolding Cold.steps Cold.steps_after_preflight
  cold_steps-IsQuiet t0 =
      search
        (
          engine_rules, quiet, preflight_cold-calls, disk_cold-calls, cutover_cold-calls,
          bgp_cold-calls, cleanup_cold-IsQuiet, succeed-calls,
        )
        depth 12

  pub live_steps-IsQuiet : (t0 : ℕ) → Keeps (engine_calls IsQuiet) (Live.steps env t0)
  unfolding Live.steps Live.steps_after_preflight
  live_steps-IsQuiet t0 =
      search
        (
          engine_rules, quiet, preflight_live-calls, disk_live-calls, memory_live-calls,
          cutover_live-calls, bgp_live-calls, cleanup_live-IsQuiet, succeed-calls,
        )
        depth 12

  module _ (t : MigrationType) (steps : ℕ → Action Engine Bool)
      (quiet_steps : (t0 : ℕ) → Keeps (engine_calls IsQuiet) (steps t0)) where
    tried-IsQuiet :
        (e : Engine)
        → Since IsQuiet (started env t e).world.history (tried env t steps e).1.world.history
    tried-IsQuiet e =
        ((Keeps-attempt _ (give_up env t) (quiet_steps _) (give_up-IsQuiet t)).at
          (started env t e)).0

    gauge-run_with :
        (e : Engine)
        → (count (is_inc t) (run_with env t steps e).1.world.history
            ≡ suc (count (is_inc t) e.world.history))
          × (count (is_dec t) (run_with env t steps e).1.world.history
              ≡ suc (count (is_dec t) e.world.history))
    gauge-run_with e =
        subst
          (λ r.
            (count (is_inc t) r.1.world.history ≡ suc (count (is_inc t) e.world.history))
            × (count (is_dec t) r.1.world.history ≡ suc (count (is_dec t) e.world.history)))
          (sym (run_with_frame env t steps e))
          (
            count_dec_inc t _
                ∙ count-quiet (is_inc t) (inc_quiet t) (tried-IsQuiet e)
                ∙ count_inc t e.world.history,
            count_dec t _
                ∙ ap suc (
                    count-quiet (is_dec t) (dec_quiet t) (tried-IsQuiet e)
                    ∙ count_inc_dec t e.world.history),
          )

-- An action raises the gauge of a type once and lowers it once, in a run that may raise.
abbrev pub IsBalanced : MigrationType → Action Engine Bool → Engine → Type 0
IsBalanced t m e =
    (count (is_inc t) (m e).1.world.history ≡ suc (count (is_inc t) e.world.history))
    × (count (is_dec t) (m e).1.world.history ≡ suc (count (is_dec t) e.world.history))

-- A migration, cold or live, raises the gauge of its type once and lowers it once, however its run
-- ends: when it returns true or false, and when it raises.
pub runs-IsBalanced :
    (env : Env) (e : Engine) → IsBalanced cold (Cold.run env) e × IsBalanced live (Live.run env) e
unfolding Cold.run Live.run
runs-IsBalanced env e = (
  gauge-run_with env cold (Cold.steps env) (cold_steps-IsQuiet env) e,
  gauge-run_with env live (Live.steps env) (live_steps-IsQuiet env) e,
)
