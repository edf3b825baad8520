-- ===== src/Migration/Finish.antt =====
-- cnf/migration/engine.py: a run of a new engine, from its start to the row that it leaves.
use open_stack_cnf.Prelude.{Bool, true, false, some, none, ◌≡◌, refl, if◌then◌else◌}
use open_stack_cnf.Db.Models.{done, failed}
use open_stack_cnf.Effect.Exceptions.{ok}
use open_stack_cnf.Effect.Call.{History}
use open_stack_cnf.Effect.Env.{Env}
use open_stack_cnf.Effect.Session.{World}
use open_stack_cnf.Migration.Context.{MigrationContext}
use open_stack_cnf.Migration.Calls.{HasRow}
use open_stack_cnf.Migration.Row.{row_state}
use open_stack_cnf.Migration.Outcome.{run-cold_outcome, run-live_outcome}
use open_stack_cnf.Migration.Returns.{run-cold_returns, run-live_returns}
use open_stack_cnf.Migration.Start.{new_engine, run_engine}

-- Where no session fails, the run of a new engine whose migration has a row returns, and leaves the
-- row DONE or FAILED as its result says.
pub run_engine_finishes :
    (env : Env) (is_live : Bool) (ctx : MigrationContext) (w : World)
    → ((h : History) → env.db_fault h ≡ none)
    → HasRow ctx.migration_id w
    → (b : Bool) × ((run_engine env is_live ctx w).0 ≡ ok b)
      × (row_state ctx.migration_id (run_engine env is_live ctx w).1.db
          ≡ some (if b then done else failed))
unfolding run_engine
run_engine_finishes env true ctx w sound has =
    let (b, p) = run-live_returns env (new_engine ctx w) sound in
    (b, p, run-live_outcome env (new_engine ctx w) b refl has p)
run_engine_finishes env false ctx w sound has =
    let (b, p) = run-cold_returns env (new_engine ctx w) sound in
    (b, p, run-cold_outcome env (new_engine ctx w) b refl has p)
