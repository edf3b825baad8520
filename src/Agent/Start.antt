-- ===== src/Agent/Start.antt =====
-- cnf/agent/agent.py: the start and the stop of an agent, over its election object, its row and its
-- scheduler. The servers, the signals and the tables' creation are the outside's: while they
-- start, the task of the election makes rounds.
use open_stack_cnf.Prelude.{ℕ, some, false}
use open_stack_cnf.Effect.Env.{Env}
use open_stack_cnf.Effect.Action.{Action, modify, ◌>>◌}
use open_stack_cnf.Raft
use open_stack_cnf.Raft.{Node, on_node_world}
use open_stack_cnf.Agent.{upsert_self_cluster, on_become_master, on_lose_master}

-- `self._scheduler = Scheduler(…)`, whose `_is_master` is False.
abbrev pub create_scheduler : Action Node (Unit {0})
create_scheduler = modify (λ n. record n { scheduler = some false })

module _ (env : Env) where
  -- The loop of the election with the callbacks that the agent passes to it.
  unfoldable pub elect : ℕ → Action Node (Unit {0})
  elect k = Raft.election_loop env (some (on_become_master env)) (some (on_lose_master env)) k

  -- `start`, with the rounds that the election makes while the two servers start.
  unfoldable pub start : ℕ → Action Node (Unit {0})
  start k = do on_node_world (upsert_self_cluster env); Raft.start env; elect k; create_scheduler

  -- `stop`: the tasks are cancelled, and the election's lease is given up.
  unfoldable pub stop : Action Node (Unit {0})
  stop = Raft.stop env
