-- ===== src/Tasks/Retry.antt =====
-- cnf/tasks/migration_tasks.py: which migrations a task asks to run again.
use open_stack_cnf.Prelude.{ℕ, Bool, true, false, some, none, ◌≡◌, ◌∙◌, ap, if◌then◌else◌}
use open_stack_cnf.Db.Models.{done, failed}
use open_stack_cnf.Effect.Exceptions.{Result, ok}
use open_stack_cnf.Effect.Call.{History}
use open_stack_cnf.Effect.Env.{Env}
use open_stack_cnf.Effect.Action.{pure, ◌>>=◌}
use open_stack_cnf.Effect.Session.{World}
use open_stack_cnf.Effect.Laws.{>>=-of-ok, attempt-of-ok}
use open_stack_cnf.Migration.Calls.{HasRow}
use open_stack_cnf.Migration.Row.{row_state}
use open_stack_cnf.Migration.Finish.{run_engine_finishes}
use open_stack_cnf.Migration.Start.{run_engine, new_context}
use open_stack_cnf.Tasks.{
  TaskArgs, TaskOutcome, finished, execute_migration, run_cold_migration, run_live_migration,
  run_task, retry,
}

module _ (env : Env) (sound : (h : History) → env.db_fault h ≡ none) where
  execute_migration_lem :
      (a : TaskArgs) (is_live : Bool) (w : World)
      → HasRow a.migration_id w
      → ((execute_migration env a is_live w).0 ≡ ok tt)
        × (b : Bool) × (row_state a.migration_id (execute_migration env a is_live w).1.db
            ≡ some (if b then done else failed))
  unfolding execute_migration
  execute_migration_lem a is_live w has =
      let ctx =
        new_context a.migration_id a.vm_id a.source_cluster a.dest_cluster is_live a.options in
      let (b, p, q) = run_engine_finishes env is_live ctx w sound has in
      let e = >>=-of-ok (run_engine env is_live ctx) (λ _. pure tt) w p in
      (ap (λ r. r.0) e, b, ap (λ r. row_state a.migration_id r.1.db) e ∙ q)

  task_lem :
      (a : TaskArgs) (is_live : Bool) (n : ℕ) (w : World)
      → HasRow a.migration_id w
      → ((run_task env is_live n a w).0 ≡ ok finished)
        × (b : Bool) × (row_state a.migration_id (run_task env is_live n a w).1.db
            ≡ some (if b then done else failed))
  task_lem a is_live n w has =
      let (p, b, q) = execute_migration_lem a is_live w has in
      let body = execute_migration env a is_live >>= λ _. pure finished in
      let e = >>=-of-ok (execute_migration env a is_live) (λ _. pure finished) w p in
      let f = attempt-of-ok body (λ exc. pure (retry exc n)) w (ap (λ r. r.0) e) in
      let row = λ (r : Result TaskOutcome × World). row_state a.migration_id r.1.db in
      (ap (λ r. r.0) f, b, ap row f ∙ ap row e ∙ q)

  -- Where no session fails and the migration has a row, both tasks end with no retry, and the row
  -- is DONE or FAILED then: a migration that fails is not run again, whatever made it fail.
  pub tasks-finish :
      (a : TaskArgs) (w : World)
      → HasRow a.migration_id w
      → (((run_cold_migration env a w).0 ≡ ok finished)
          × (b : Bool) × (row_state a.migration_id (run_cold_migration env a w).1.db
              ≡ some (if b then done else failed)))
        × (((run_live_migration env a w).0 ≡ ok finished)
            × (b : Bool) × (row_state a.migration_id (run_live_migration env a w).1.db
                ≡ some (if b then done else failed)))
  unfolding run_cold_migration run_live_migration
  tasks-finish a w has = (task_lem a false 30 w has, task_lem a true 10 w has)
