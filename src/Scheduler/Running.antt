-- ===== src/Scheduler/Running.antt =====
-- cnf/scheduler/scheduler.py: the task `run`, with the calls of `set_master` and `stop` that come
-- while it sleeps. A call that comes during an evaluation is placed after it: an evaluation reads
-- neither flag.
use open_stack_cnf.Prelude.{Bool, true, false, List, [], ◌∷◌, if◌then◌else◌}
use open_stack_cnf.Effect.Call.{sleep}
use open_stack_cnf.Effect.Env.{Env}
use open_stack_cnf.Effect.Session.{World, tell}
use open_stack_cnf.Scheduler.{scheduler_round}

-- The flags `_is_master` and `_running`, and whether `run` is at its `asyncio.sleep`.
pub record SchedulerTask : Type 0 where
  pub is_master : Bool
  pub running : Bool
  pub sleeping : Bool

abbrev pub new_scheduler : SchedulerTask
new_scheduler = record { is_master = false; running = false; sleeping = false }

pub data SchedulerEvent : Type 0 where
  set_master : Bool → SchedulerEvent
  stop : SchedulerEvent
  wake : SchedulerEvent

module _ (env : Env) where
  -- The test of `while self._running`, with the sleep that begins a round.
  unfoldable pub loop_test : SchedulerTask → World → SchedulerTask × World
  loop_test t w =
      if t.running
      then (
        record t { sleeping = true },
        (tell (sleep env.settings.collection_interval_seconds) w).1,
      )
      else (record t { sleeping = false }, w)

  -- `run` up to its first sleep
  abbrev pub run_scheduler : SchedulerTask → World → SchedulerTask × World
  unfolding loop_test
  run_scheduler t w = loop_test (record t { running = true }) w

  unfoldable pub on_event : SchedulerEvent → SchedulerTask → World → SchedulerTask × World
  unfolding loop_test scheduler_round
  on_event (set_master b) t w = (record t { is_master = b }, w)
  on_event stop t w = (record t { running = false }, w)
  on_event wake t w =
      if t.sleeping then loop_test t (scheduler_round env t.is_master w).1 else (t, w)

  unfoldable pub on_events : List SchedulerEvent → SchedulerTask → World → SchedulerTask × World
  unfolding on_event
  on_events [] t w = (t, w)
  on_events (e ∷ es) t w = let (t', w') = on_event e t w in on_events es t' w'
