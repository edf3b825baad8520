-- ===== src/Grpc/Control.antt =====
-- cnf/grpc/server.py: `CNFControlServicer`.
use open_stack_cnf.Prelude.{String, Bool, true, false, Option, some, [], ◌∷◌}
use open_stack_cnf.Prelude.Int.{ℤ}
use open_stack_cnf.Prelude.Dict.{Dict}
use open_stack_cnf.Db.Models.{MigrationType, cold, live}
use open_stack_cnf.Effect.Exceptions.{Exception, text}
use open_stack_cnf.Effect.Call.{source, metric, grpc_request, set_context, enqueue}
use open_stack_cnf.Effect.Env.{Env}
use open_stack_cnf.Effect.Action.{Action, pure, raise, attempt, ◌>>=◌, ◌>>◌}
use open_stack_cnf.Effect.Session.{World, tell, ask}
use open_stack_cnf.OpenStack
use open_stack_cnf.OpenStack.{ClusterMetrics}
use open_stack_cnf.Ceph
use open_stack_cnf.Ceph.{MirrorStatus}
use open_stack_cnf.Bgp
use open_stack_cnf.Bgp.{BgpRoute}
use open_stack_cnf.Raft.{Election}
use open_stack_cnf.Agent.{role_of}

-- The messages of proto/cnf.proto that the servicers make and read; fields that they leave at their
-- defaults are left out.
pub record ClusterInfo : Type 0 where
  pub id : String
  pub name : String
  pub role : String
  pub auth_url : String
  pub region : String
  pub grpc_addr : String
  pub status : String

pub record MetricsMessage : Type 0 where
  pub cluster_id : String
  pub metrics : ClusterMetrics

pub record MigrationRequest : Type 0 where
  pub vm_id : String
  pub source_cluster : String
  pub dest_cluster : String
  pub migration_id : String
  pub options : Dict String

pub record MigrationResponse : Type 0 where
  pub migration_id : String
  pub accepted : Bool
  pub message : String

-- `RBDPromoteResponse` and `RBDDemoteResponse`
pub record RbdResponse : Type 0 where
  pub success : Bool
  pub message : String

pub record MirrorLag : Type 0 where
  pub lag_bytes : ℤ
  pub lag_seconds : ℤ
  pub synced : Bool

-- `dict(request.options)`
abbrev pub given : Dict String → Dict (Option String)
given [] = []
given ((k, v) ∷ d) = (k, some v) ∷ given d

-- The request counter; the status is "ok" always.
abbrev count_request : String → Action World (Unit {0})
count_request method = tell (metric (grpc_request method))

-- `except Exception as e`: the status INTERNAL with the text, and the exception goes on.
unfoldable pub internal : {A : Type 0} → Action World A → Action World A
internal m = attempt m (λ e. do tell (set_context "INTERNAL" (text e)); raise e)

module _ (env : Env) where
  abbrev pub own_info : Option Election → ClusterInfo
  own_info election = record {
    id = env.settings.cluster_id;
    name = env.settings.cluster_name;
    role = role_of election;
    auth_url = env.settings.openstack.auth_url;
    region = env.settings.openstack.region_name;
    grpc_addr = env.settings.cluster_grpc_addr;
    status = "online";
  }

  unfoldable pub get_cluster_info : Option Election → Action World ClusterInfo
  get_cluster_info election = do count_request "GetClusterInfo"; internal (pure (own_info election))

  abbrev metrics_message : ClusterMetrics → MetricsMessage
  metrics_message raw = record { cluster_id = env.settings.cluster_id; metrics = raw }

  unfoldable pub get_cluster_metrics : Action World MetricsMessage
  get_cluster_metrics = do
    count_request "GetClusterMetrics"
    internal (do raw ← OpenStack.get_cluster_metrics env source; pure (metrics_message raw))

  -- `.delay` of a task with the fields of the request, and the answer.
  unfoldable pub queue : MigrationType → String → MigrationRequest → Action World MigrationResponse
  queue type message r = do
    ask (enqueue type r.migration_id r.vm_id r.source_cluster r.dest_cluster (given r.options))
        env.enqueue
    pure (record { migration_id = r.migration_id; accepted = true; message = message })

  unfoldable pub execute_migration : MigrationRequest → Action World MigrationResponse
  execute_migration r = do count_request "ExecuteMigration"; queue cold "Migration queued" r

  unfoldable pub execute_live_migration : MigrationRequest → Action World MigrationResponse
  execute_live_migration r = do
    count_request "ExecuteLiveMigration"
    queue live "Live migration queued" r

  abbrev succeeded : String → RbdResponse
  succeeded message = record { success = true; message = message }

  abbrev refused : Exception → RbdResponse
  refused e = record { success = false; message = text e }

  unfoldable pub promote_rbd_image : String → String → Bool → Action World RbdResponse
  promote_rbd_image pool image force =
      attempt (do Ceph.promote env pool image force; pure (succeeded "promoted"))
        (λ e. pure (refused e))

  unfoldable pub demote_rbd_image : String → String → Action World RbdResponse
  demote_rbd_image pool image =
      attempt (do Ceph.demote env pool image; pure (succeeded "demoted")) (λ e. pure (refused e))

  abbrev mirror_lag : MirrorStatus → MirrorLag
  mirror_lag s = record { lag_bytes = s.lag_bytes; lag_seconds = s.lag_seconds; synced = s.synced }

  unfoldable pub get_rbd_mirror_lag : String → String → Action World MirrorLag
  get_rbd_mirror_lag pool image = do
    status ← Ceph.get_mirror_status env pool image
    pure (mirror_lag status)

  -- `AnnounceIP`; the answer is its `success`.
  unfoldable pub announce_ip : String → String → Action World Bool
  announce_ip prefix next_hop =
      attempt
        (do Bgp.announce env (record { prefix = prefix; next_hop = some next_hop }); pure true)
        (λ e. pure false)

  -- `WithdrawIP`
  unfoldable pub withdraw_ip : String → Action World Bool
  withdraw_ip prefix = attempt (do Bgp.withdraw env prefix; pure true) (λ e. pure false)
