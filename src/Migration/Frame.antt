-- ===== src/Migration/Frame.antt =====
-- The frame of `run`: what stands around the steps of both engines.
use open_stack_cnf.Prelude.{ℕ, ◌≡◌, refl, Bool, ◌∷◌}
use open_stack_cnf.Db.Models.{MigrationType}
use open_stack_cnf.Effect.Exceptions.{Result}
use open_stack_cnf.Effect.Call.{Call, metric, active_inc, active_dec}
use open_stack_cnf.Effect.Env.{Env}
use open_stack_cnf.Effect.Action.{Action, attempt, finally, ◌>>=◌}
use open_stack_cnf.Migration.Context.{Engine}
use open_stack_cnf.Migration.Steps.{start_clock, give_up, run_with}

abbrev pub after_call : Call → Engine → Engine
after_call c e = record e { world = record e.world { history = c ∷ e.world.history } }

-- The engine when its `try` begins.
abbrev pub started : Env → MigrationType → Engine → Engine
started env type e = after_call (metric (active_inc type)) (start_clock env type e)

-- The `try` of `run`, with its `except`.
abbrev pub tried : Env → MigrationType → (ℕ → Action Engine Bool) → Engine → Result Bool × Engine
tried env type steps e =
    attempt (steps (env.monotonic (started env type e).world.history)) (give_up env type)
      (started env type e)

-- `run` is its `try`, between the increment and the decrement of the gauge.
pub run_with_frame :
    (env : Env) (type : MigrationType) (steps : ℕ → Action Engine Bool) (e : Engine)
    → run_with env type steps e ≡ (
      (tried env type steps e).0,
      after_call (metric (active_dec type)) (tried env type steps e).1,
    )
unfolding run_with finally ◌>>=◌
run_with_frame env type steps e = refl
