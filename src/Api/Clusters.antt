-- ===== src/Api/Clusters.antt =====
-- cnf/api/v1/clusters.py and cnf/api/v1/metrics.py: the clusters, and their latest metrics.
use open_stack_cnf.Prelude.{ℕ, String, Option, none, some, List, [], ◌∷◌, map}
use open_stack_cnf.Prelude.Dict.{lookup, insert, rows}
use open_stack_cnf.Db.Models.{
  Cluster, ClusterMetric, ClusterRole, Database, offline, role_value, status_value,
}
use open_stack_cnf.Effect.Exceptions.{http_error}
use open_stack_cnf.Effect.Env.{Env}
use open_stack_cnf.Effect.Action.{Action, pure, raise, gets, modify, with_state, ◌>>=◌, ◌>>◌}
use open_stack_cnf.Effect.Session.{World, with_session}
use open_stack_cnf.Scheduler.{latest_metric}

pub record ClusterCreate : Type 0 where
  pub name : String
  pub auth_url : String
  pub region : String
  pub grpc_addr : String
  pub bgp_as : Option ℕ
  pub bgp_speaker_addr : Option String

pub record ClusterResponse : Type 0 where
  pub id : String
  pub name : String
  pub auth_url : String
  pub region : String
  pub grpc_addr : String
  pub role : String
  pub status : String
  pub bgp_as : Option ℕ

abbrev pub response_of : Cluster → ClusterResponse
response_of c = record {
  id = c.id;
  name = c.name;
  auth_url = c.auth_url;
  region = c.region;
  grpc_addr = c.grpc_addr;
  role = role_value c.role;
  status = status_value c.status;
  bgp_as = c.bgp_as;
}

abbrev pub new_cluster : String → ClusterCreate → Cluster
new_cluster id body = record {
  id = id;
  name = body.name;
  auth_url = body.auth_url;
  region = body.region;
  grpc_addr = body.grpc_addr;
  role = ClusterRole.worker;
  status = offline;
  bgp_as = body.bgp_as;
  bgp_speaker_addr = body.bgp_speaker_addr;
}

abbrev pub add_cluster : Cluster → Action Database (Unit {0})
add_cluster c = modify (λ d. record d { clusters = insert c.id c d.clusters })

-- An entry of `all_cluster_metrics`; with no metric, all its values are null.
pub record MetricsEntry : Type 0 where
  pub cluster_id : String
  pub cluster_name : String
  pub role : String
  pub status : String
  pub metrics : Option ClusterMetric

abbrev pub entry_of : Cluster → Option ClusterMetric → MetricsEntry
entry_of c m = record {
  cluster_id = c.id;
  cluster_name = c.name;
  role = role_value c.role;
  status = status_value c.status;
  metrics = m;
}

abbrev found : {A B : Type 0} → String → (A → B) → Option A → Action World B
found detail f none = raise (http_error 404 detail)
found detail f (some a) = pure (f a)

module _ (env : Env) where
  abbrev all_clusters : Action World (List Cluster)
  all_clusters = with_session env (gets (λ d. rows d.clusters))

  unfoldable pub list_clusters : Action World (List ClusterResponse)
  list_clusters = do clusters ← all_clusters; pure (map response_of clusters)

  unfoldable pub register_cluster : ClusterCreate → Action World ClusterResponse
  register_cluster body = with_state λ w. do
    let cluster = new_cluster (env.uuid w.history) body
    with_session env (add_cluster cluster)
    pure (response_of cluster)

  unfoldable pub get_cluster : String → Action World ClusterResponse
  get_cluster cluster_id = do
    cluster ← with_session env (gets (λ d. lookup cluster_id d.clusters))
    found "Cluster not found" response_of cluster

  abbrev latest_of : String → Action World (Option ClusterMetric)
  latest_of cluster_id = with_session env (gets (λ d. latest_metric cluster_id d.metrics))

  -- The fields of the row, without `network_bw_mbps`.
  unfoldable pub cluster_metrics : String → Action World ClusterMetric
  cluster_metrics cluster_id = do
    metric ← latest_of cluster_id
    found "No metrics found" (λ m. m) metric

  -- The loop of `all_cluster_metrics`.
  unfoldable pub entries_of : List Cluster → Action World (List MetricsEntry)
  entries_of [] = pure []
  entries_of (c ∷ cs) = do
    metric ← latest_of c.id
    rest ← entries_of cs
    pure (entry_of c metric ∷ rest)

  unfoldable pub all_cluster_metrics : Action World (List MetricsEntry)
  all_cluster_metrics = do clusters ← all_clusters; entries_of clusters
