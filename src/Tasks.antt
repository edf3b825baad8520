-- ===== src/Tasks.antt =====
-- cnf/tasks/migration_tasks.py: the Celery tasks that run an engine in a worker. How a broker
-- delivers a task again is Celery's.
pub mod Retry
use open_stack_cnf.Prelude.{ℕ, String, Bool, true, false, Option}
use open_stack_cnf.Prelude.Dict.{Dict}
use open_stack_cnf.Effect.Exceptions.{Exception}
use open_stack_cnf.Effect.Env.{Env}
use open_stack_cnf.Effect.Action.{Action, pure, attempt, ◌>>=◌, ◌>>◌}
use open_stack_cnf.Effect.Session.{World}
use open_stack_cnf.Migration.Start.{new_context, run_engine}

-- How a task ends: it returns, or raises `self.retry` with a countdown in seconds.
pub data TaskOutcome : Type 0 where
  finished : TaskOutcome
  retry : Exception → ℕ → TaskOutcome

-- The arguments of both tasks.
pub record TaskArgs : Type 0 where
  pub migration_id : String
  pub vm_id : String
  pub source_cluster : String
  pub dest_cluster : String
  pub options : Dict (Option String)

module _ (env : Env) where
  -- `_execute_migration`; the result of the engine is not read.
  unfoldable pub execute_migration : TaskArgs → Bool → Action World (Unit {0})
  execute_migration a is_live = do
    run_engine env is_live
        (new_context a.migration_id a.vm_id a.source_cluster a.dest_cluster is_live a.options)
    pure tt

  abbrev pub run_task : Bool → ℕ → TaskArgs → Action World TaskOutcome
  run_task is_live countdown a =
      attempt (do execute_migration a is_live; pure finished) (λ exc. pure (retry exc countdown))

  unfoldable pub run_cold_migration : TaskArgs → Action World TaskOutcome
  run_cold_migration = run_task false 30

  unfoldable pub run_live_migration : TaskArgs → Action World TaskOutcome
  run_live_migration = run_task true 10
