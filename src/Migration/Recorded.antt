-- ===== src/Migration/Recorded.antt =====
-- cnf/migration/engine.py: the events that the runs of both engines record.
use open_stack_cnf.Effect.Env.{Env}
use open_stack_cnf.Migration.Cold
use open_stack_cnf.Migration.Live
