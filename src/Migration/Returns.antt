-- ===== src/Migration/Returns.antt =====
-- cnf/migration/engine.py: `run` and `_run_rollbacks` return.
use mathlib.Core.List.{reverse}
use open_stack_cnf.Prelude.{ℕ, String, Bool, false, none, ◌≡◌, refl, ◌∙◌, ap}
use open_stack_cnf.Db.Models.{MigrationType, cold, live}
use open_stack_cnf.Effect.Exceptions.{Exception, ok, text}
use open_stack_cnf.Effect.Call.{History}
use open_stack_cnf.Effect.Env.{Env}
use open_stack_cnf.Effect.Action.{Action, pure, with_state, ◌>>=◌}
use open_stack_cnf.Effect.Session.{with_session}
use open_stack_cnf.Effect.Laws.{attempt_returns, for_each_returns, >>=-of-ok}
use open_stack_cnf.Migration.Context.{Engine, Rollback, engine_session, fail, record_failure}
use open_stack_cnf.Migration.Rollback.{run_rollbacks, try_rollback, run_rollback}
use open_stack_cnf.Migration.Steps.{give_up, run_with}
use open_stack_cnf.Migration.Frame.{run_with_frame, started}
use open_stack_cnf.Migration.Cold
use open_stack_cnf.Migration.Live

module _ (env : Env) where
  try_rollback_returns : (r : Rollback) (s : Engine) → (try_rollback env r s).0 ≡ ok tt
  unfolding try_rollback
  try_rollback_returns r s =
      let (a, p) = attempt_returns (run_rollback env r) (λ e. pure tt) (λ e s'. (tt, refl)) s in p

  -- The rollbacks are all run: `_run_rollbacks` returns whatever their results are.
  run_rollbacks_returns : (s : Engine) → (run_rollbacks env s).0 ≡ ok tt
  unfolding run_rollbacks with_state
  run_rollbacks_returns s =
      for_each_returns (reverse s.rollbacks) (try_rollback env) try_rollback_returns s

  module _ (sound : (h : History) → env.db_fault h ≡ none) where
    fail_returns : (error : String) (s : Engine) → (fail env error s).0 ≡ ok tt
    unfolding fail ◌>>=◌ with_state engine_session record_failure with_session
    fail_returns error s = rw (sound s.world.history) refl

    give_up_returns :
        (t : MigrationType) (x : Exception) (s : Engine)
        → (b : Bool) × ((give_up env t x s).0 ≡ ok b)
    unfolding give_up
    give_up_returns t x s = (
      false,
      ap (λ r. r.0)
          (>>=-of-ok (fail env (text x)) _ s (fail_returns (text x) s)
            ∙ >>=-of-ok (run_rollbacks env) _ _ (run_rollbacks_returns _)),
    )

    run_with_returns :
        (t : MigrationType) (steps : ℕ → Action Engine Bool) (e : Engine)
        → (b : Bool) × ((run_with env t steps e).0 ≡ ok b)
    run_with_returns t steps e =
        let (b, p) =
          attempt_returns (steps _) (give_up env t) (give_up_returns t) (started env t e) in
        (b, ap (λ r. r.0) (run_with_frame env t steps e) ∙ p)

pub run-cold_returns :
    (env : Env) (e : Engine)
    → ((h : History) → env.db_fault h ≡ none)
    → (b : Bool) × ((Cold.run env e).0 ≡ ok b)
unfolding Cold.run
run-cold_returns env e sound = run_with_returns env sound cold (Cold.steps env) e

pub run-live_returns :
    (env : Env) (e : Engine)
    → ((h : History) → env.db_fault h ≡ none)
    → (b : Bool) × ((Live.run env e).0 ≡ ok b)
unfolding Live.run
run-live_returns env e sound = run_with_returns env sound live (Live.steps env) e

-- Where no session of the database fails, `run` of a migration, cold or live, returns true or false:
-- no exception of a step or of a rollback leaves it.
pub runs_return :
    (env : Env) (e : Engine)
    → ((h : History) → env.db_fault h ≡ none)
    → ((b : Bool) × ((Cold.run env e).0 ≡ ok b)) × ((c : Bool) × ((Live.run env e).0 ≡ ok c))
runs_return env e sound = (run-cold_returns env e sound, run-live_returns env e sound)
