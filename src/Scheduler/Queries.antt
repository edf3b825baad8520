-- ===== src/Scheduler/Queries.antt =====
-- cnf/scheduler/scheduler.py: the snapshots of the clusters, and the policies in their order.
use open_stack_cnf.Prelude.{
  ℕ, String, Option, none, some, List, [], ◌∷◌, Bool, ◌||◌, ◌&&◌, ◌==◌, ltb, if◌then◌else◌, str_eq,
  keep,
}
use open_stack_cnf.Prelude.Dict.{rows}
use open_stack_cnf.Prelude.Sorting.{sort_by}
use open_stack_cnf.Db.Models.{Cluster, ClusterMetric, Policy}
use open_stack_cnf.Effect.Env.{Env}
use open_stack_cnf.Effect.Action.{Action, pure, gets, with_state, ◌>>=◌}
use open_stack_cnf.Effect.Session.{World, with_session}

pub record ClusterSnapshot : Type 0 where
  pub cluster_id : String
  pub cluster_name : String
  pub grpc_addr : String
  pub cpu_used_pct : ℕ
  pub ram_used_pct : ℕ
  pub disk_used_pct : ℕ
  pub vm_count : ℕ

abbrev pub later_of : Option ClusterMetric → ClusterMetric → Option ClusterMetric
later_of none m = some m
later_of (some best) m = if ltb best.collected_at m.collected_at then some m else some best

-- `order_by(collected_at.desc()).limit(1)`: of rows with the same time the one added first.
unfoldable pub latest_from : Option ClusterMetric → List ClusterMetric → Option ClusterMetric
latest_from best [] = best
latest_from best (m ∷ ms) = latest_from (later_of best m) ms

unfoldable pub latest_metric : String → List ClusterMetric → Option ClusterMetric
unfolding keep latest_from
latest_metric id ms = latest_from none (keep (λ m. str_eq m.cluster_id id) ms)

-- The values of a metric, and zeros where there is none.
abbrev pub snapshot_of : Cluster → Option ClusterMetric → ClusterSnapshot
snapshot_of c none = record {
  cluster_id = c.id;
  cluster_name = c.name;
  grpc_addr = c.grpc_addr;
  cpu_used_pct = 0;
  ram_used_pct = 0;
  disk_used_pct = 0;
  vm_count = 0;
}
snapshot_of c (some m) = record {
  cluster_id = c.id;
  cluster_name = c.name;
  grpc_addr = c.grpc_addr;
  cpu_used_pct = m.cpu_used_pct;
  ram_used_pct = m.ram_used_pct;
  disk_used_pct = m.disk_used_pct;
  vm_count = m.vm_count;
}

-- `order_by(Policy.priority)`; names are unique, and policies of the same priority come as the
-- database gives them.
abbrev pub policy_before : (String → String → Bool) → Policy → Policy → Bool
policy_before first p q =
    ltb p.priority q.priority || (p.priority == q.priority && first p.name q.name)

unfoldable pub sort_policies : (String → String → Bool) → List Policy → List Policy
unfolding sort_by
sort_policies first = sort_by (policy_before first)

-- `Policy.enabled == True`
abbrev pub enabled_policies : List Policy → List Policy
unfolding keep
enabled_policies = keep (λ p. p.enabled)

module _ (env : Env) where
  -- The loop of `_collect_snapshots`, a session for each cluster.
  unfoldable pub snapshots_of : List Cluster → Action World (List ClusterSnapshot)
  unfolding latest_metric
  snapshots_of [] = pure []
  snapshots_of (c ∷ cs) = do
    metric ← with_session env (gets (λ d. latest_metric c.id d.metrics))
    rest ← snapshots_of cs
    pure (snapshot_of c metric ∷ rest)

  -- `_collect_snapshots`
  unfoldable pub collect_snapshots : Action World (List ClusterSnapshot)
  collect_snapshots = do
    clusters ← with_session env (gets (λ d. rows d.clusters))
    snapshots_of clusters

  -- `_load_policies`
  unfoldable pub load_policies : Action World (List Policy)
  unfolding sort_policies enabled_policies
  load_policies = with_state λ w.
      with_session env
        (gets (λ d. sort_policies (env.first w.history) (enabled_policies d.policies)))
