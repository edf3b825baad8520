-- ===== src/Agent/Metrics.antt =====
-- cnf/agent/agent.py: the loop that stores the metrics of the node's own cluster.
use open_stack_cnf.Prelude.{ℕ, zero, suc, [], ◌∷◌, ◌++◌}
use open_stack_cnf.Db.Models.{ClusterMetric, Database}
use open_stack_cnf.Effect.Call.{source, sleep, metric, cluster_cpu, cluster_ram, cluster_vms}
use open_stack_cnf.Effect.Env.{Env}
use open_stack_cnf.Effect.Action.{Action, pure, with_state, modify, attempt, ◌>>=◌, ◌>>◌}
use open_stack_cnf.Effect.Session.{World, with_session, tell}
use open_stack_cnf.OpenStack
use open_stack_cnf.OpenStack.{ClusterMetrics}

abbrev pub add_metric : ClusterMetric → Action Database (Unit {0})
add_metric m = modify (λ d. record d { metrics = d.metrics ++ (m ∷ []) })

module _ (env : Env) where
  -- The row of a sample; `collected_at` is the database's time.
  abbrev pub own_metric : ℕ → ClusterMetrics → ClusterMetric
  own_metric now raw = record {
    cluster_id = env.settings.cluster_id;
    cpu_used_pct = raw.cpu_used_pct;
    ram_used_pct = raw.ram_used_pct;
    disk_used_pct = raw.disk_used_pct;
    vm_count = raw.vm_count;
    network_bw_mbps = raw.network_bw_mbps;
    collected_at = now;
  }

  unfoldable pub store_metric : ClusterMetrics → Action World (Unit {0})
  store_metric raw =
      with_state λ w. with_session env (add_metric (own_metric (env.now w.history) raw))

  -- The gauges after a sample is stored.
  unfoldable pub set_gauges : ClusterMetrics → Action World (Unit {0})
  set_gauges raw = do
    tell (metric (cluster_cpu env.settings.cluster_id raw.cpu_used_pct))
    tell (metric (cluster_ram env.settings.cluster_id raw.ram_used_pct))
    tell (metric (cluster_vms env.settings.cluster_id env.settings.cluster_name raw.vm_count))

  -- The `try` of a round.
  unfoldable pub collect : Action World (Unit {0})
  collect = do raw ← OpenStack.get_cluster_metrics env source; store_metric raw; set_gauges raw

  -- A round of `_metrics_loop`: what it raises is logged.
  unfoldable pub metrics_round : Action World (Unit {0})
  metrics_round = do
    tell (sleep env.settings.collection_interval_seconds)
    attempt collect (λ e. pure tt)

  -- `_metrics_loop`, for the rounds that are made before the task is cancelled.
  unfoldable pub metrics_loop : ℕ → Action World (Unit {0})
  metrics_loop zero = pure tt
  metrics_loop (suc k) = metrics_round >> metrics_loop k
