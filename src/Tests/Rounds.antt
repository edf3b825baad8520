-- ===== src/Tests/Rounds.antt =====
-- A round of the scheduler of two clusters, one of which is busy.
use open_stack_cnf.Prelude.{String, true, [], ◌∷◌, none, some, ◌≡◌, refl, ◌⊎◌, keep, any}
use open_stack_cnf.Prelude.Dict.{lookup, insert}
use open_stack_cnf.Prelude.Percent.{whole}
use open_stack_cnf.Prelude.Text.{contains, partition?, strip_prefix?}
use open_stack_cnf.Prelude.Sorting.{sort_by, sort_onto, insert_by}
use open_stack_cnf.Db.Models.{
  Cluster, ClusterMetric, ClusterRole, Migration, Policy, live, online, pending, empty_database,
}
use open_stack_cnf.Effect.Exceptions.{ok}
use open_stack_cnf.Effect.Env.{Env}
use open_stack_cnf.Effect.Action.{◌>>=◌, with_state, attempt, for_each}
use open_stack_cnf.Effect.Session.{World, with_session}
use open_stack_cnf.OpenStack.{
  get_vm, fetch_server, describe, fetch_texts, list_vms, get_vms, get_vm_or_skip,
}
use open_stack_cnf.Scheduler.{
  scheduler_round, evaluate, collect_snapshots, snapshots_of, latest_metric, latest_from,
  load_policies, sort_policies, try_policy, apply_policy, violating, eval_trigger, candidates_of,
  rebalance, pick_dest, trigger_rebalance, queue_first,
}
use open_stack_cnf.Scheduler.Queued.{scheduler_round-queues, IsQueued}
use open_stack_cnf.Tests.Setting.{test_env, test_server}

abbrev cluster_named : String → Cluster
cluster_named id = record {
  id = id;
  name = id;
  auth_url = "";
  region = "";
  grpc_addr = "";
  role = ClusterRole.worker;
  status = online;
  bgp_as = none;
  bgp_speaker_addr = none;
}

abbrev busy_metric : ClusterMetric
busy_metric = record {
  cluster_id = "a";
  cpu_used_pct = 9000;
  ram_used_pct = 5000;
  disk_used_pct = 5000;
  vm_count = 3;
  network_bw_mbps = 0;
  collected_at = 1;
}

abbrev live_policy : Policy
live_policy = record {
  name = "spread";
  enabled = true;
  priority = 10;
  rule = ("trigger", "cpu_pct > 80") ∷ ("action", "live_migrate") ∷ [];
}

abbrev round_world : World
round_world = record {
  history = [];
  db = record empty_database {
    clusters = ("a", cluster_named "a") ∷ ("b", cluster_named "b") ∷ [];
    metrics = busy_metric ∷ [];
    policies = live_policy ∷ [];
  };
}

-- One machine, which is active.
abbrev round_env : Env
round_env = record test_env {
  texts = λ h side c. ok ("vm" ∷ []);
  server = λ h side i. ok (some (test_server "ACTIVE"));
}

abbrev queued_row : Migration
queued_row = record {
  id = "new";
  vm_id = "vm";
  vm_name = some "web";
  source_cluster_id = "a";
  dest_cluster_id = "b";
  type = live;
  state = pending;
  progress_pct = whole 0;
  error = none;
  rbd_images = none;
  vm_ips = none;
  options = ("dest_host", some "") ∷ ("dest_next_hop", some "") ∷ [];
  initiated_by = some "scheduler";
  started_at = none;
  finished_at = none;
  created_at = 7;
}

round_test :
    lookup "new" (scheduler_round round_env true round_world).1.db.migrations ≡ some queued_row
unfolding lookup insert keep any contains partition? strip_prefix? ◌>>=◌ with_state attempt for_each
    with_session get_vm fetch_server describe fetch_texts list_vms get_vms get_vm_or_skip
    scheduler_round evaluate collect_snapshots snapshots_of latest_metric latest_from load_policies
    sort_policies sort_by sort_onto insert_by try_policy apply_policy violating eval_trigger
    candidates_of rebalance pick_dest trigger_rebalance queue_first
round_test = refl

scheduler_round-queues_example :
    (lookup "new" round_world.db.migrations ≡ some queued_row)
    ⊎ IsQueued round_env round_world.db queued_row
scheduler_round-queues_example =
    scheduler_round-queues round_env true round_world "new" queued_row round_test
