-- ===== src/Tests/Agents.antt =====
-- The theorems of the agent's registration and callbacks at a concrete node.
use open_stack_cnf.Prelude.{String, true, false, none, some, ◌≡◌, ◌≢◌, refl}
use open_stack_cnf.Prelude.Text
use open_stack_cnf.Prelude.Dict.{lookup, insert}
use open_stack_cnf.Db.Models.{ClusterRole, online}
use open_stack_cnf.Effect.Exceptions.{ok, err, external}
use open_stack_cnf.Effect.Env.{Env}
use open_stack_cnf.Raft.{Node, new_election}
use open_stack_cnf.Agent.{
  register, report_role, set_role, write_role, told, found_or_own, upsert_self_cluster,
  on_become_master, on_lose_master,
}
use open_stack_cnf.Agent.Registration.{
  with_role, upsert_self_cluster-registers, callbacks-report, on_lose_master-fault,
}
use open_stack_cnf.Effect.Call.{source}
use open_stack_cnf.Effect.Action.{attempt, with_state, ◌>>=◌}
use open_stack_cnf.Effect.Session.{with_session}
use open_stack_cnf.OpenStack
use open_stack_cnf.OpenStack.{ClusterMetrics}
use open_stack_cnf.Raft
use open_stack_cnf.Raft.{master}
use open_stack_cnf.Scheduler.{latest_metric}
use open_stack_cnf.Agent.Metrics.{collect, own_metric, store_metric, set_gauges}
use open_stack_cnf.Agent.Snapshot.{collect-latest}
use open_stack_cnf.Agent.Start.{elect, start}
use open_stack_cnf.Agent.LateScheduler.{start-late_scheduler}
use open_stack_cnf.Tests.Setting.{test_env, test_world}

-- The node once it has registered its cluster.
abbrev registered_node : Node
unfolding upsert_self_cluster
registered_node = record {
  world = (upsert_self_cluster test_env test_world).1;
  election = new_election;
  scheduler = some true;
}

abbrev faulty_env : Env
faulty_env = record test_env { db_fault = λ h. some (external "OperationalError") }

upsert_self_cluster-registers_example :
    ((upsert_self_cluster test_env test_world).0 ≡ ok tt)
    × (lookup test_env.settings.cluster_id (upsert_self_cluster test_env test_world).1.db.clusters
        ≡ some
            (record (found_or_own test_env
              (lookup test_env.settings.cluster_id test_world.db.clusters)) {
                status = online;
                grpc_addr = test_env.settings.cluster_grpc_addr;
              }))
    × ((other : String)
        → test_env.settings.cluster_id ≢ other
        → lookup other (upsert_self_cluster test_env test_world).1.db.clusters
          ≡ lookup other test_world.db.clusters)
upsert_self_cluster-registers_example = upsert_self_cluster-registers test_env test_world refl

callbacks-report_example :
    (((on_become_master test_env registered_node).0 ≡ ok tt)
      × ((on_become_master test_env registered_node).1.scheduler ≡ told true (some true))
      × (lookup test_env.settings.cluster_id
            (on_become_master test_env registered_node).1.world.db.clusters
          ≡ with_role ClusterRole.master
              (lookup test_env.settings.cluster_id registered_node.world.db.clusters)))
    × (((on_lose_master test_env registered_node).0 ≡ ok tt)
        × ((on_lose_master test_env registered_node).1.scheduler ≡ told false (some true))
        × (lookup test_env.settings.cluster_id
              (on_lose_master test_env registered_node).1.world.db.clusters
            ≡ with_role ClusterRole.worker
                (lookup test_env.settings.cluster_id registered_node.world.db.clusters)))
unfolding registered_node
callbacks-report_example = callbacks-report test_env registered_node refl

on_lose_master-fault_example :
    ((on_lose_master faulty_env registered_node).0 ≡ err (external "OperationalError"))
    × ((on_lose_master faulty_env registered_node).1.scheduler ≡ some true)
    × ((on_lose_master faulty_env registered_node).1.world.db ≡ registered_node.world.db)
unfolding registered_node
on_lose_master-fault_example =
    on_lose_master-fault faulty_env registered_node (external "OperationalError") refl

collect-latest_example :
    (raw : ClusterMetrics) × ((OpenStack.get_cluster_metrics test_env source test_world).0 ≡ ok raw)
    × (latest_metric "here" (collect test_env test_world).1.db.metrics
        ≡ some (
            own_metric test_env
              (test_env.now (OpenStack.get_cluster_metrics test_env source test_world).1.history)
              raw))
unfolding collect OpenStack.get_cluster_metrics OpenStack.fetch_texts store_metric set_gauges
    with_session with_state ◌>>=◌
collect-latest_example = collect-latest test_env test_world refl (λ m i. absurd i)

-- A node before its start.
abbrev fresh_node : Node
fresh_node = record { world = test_world; election = new_election; scheduler = none }

start-late_scheduler_example :
    ((elect test_env 3 (start test_env 1 fresh_node).1).1.election.role ≡ master)
    × ((elect test_env 3 (start test_env 1 fresh_node).1).1.scheduler ≡ some false)
unfolding start elect upsert_self_cluster register with_session lookup insert Raft.start
    Raft.register_peer Raft.get_client Raft.election_loop Raft.election_round
    Raft.try_acquire_master Raft.compete Raft.acquire Raft.settle_race Raft.become_master
    on_become_master report_role set_role write_role with_state attempt ◌>>=◌ Text.partition?
    Text.strip_prefix? Text.int_of Text.trim_end Text.trim_start
start-late_scheduler_example =
    start-late_scheduler test_env (λ h c. refl) 1 3 7 fresh_node refl refl refl refl refl
