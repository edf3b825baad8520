-- ===== src/Db/Models.antt =====
-- cnf/db/models.py: the enums and the tables. A timestamp is a number of ticks of the clock; a
-- column that no modelled code reads or writes is left out.
use open_stack_cnf.Prelude.{
  ℕ, String, Bool, Option, none, some, List, [], ◌∷◌, if◌then◌else◌, str_eq,
}
use open_stack_cnf.Prelude.Dict.{Dict}
use open_stack_cnf.Prelude.Percent.{Percent}

pub data ClusterRole : Type 0 where
  master worker : ClusterRole

pub data ClusterStatus : Type 0 where
  online degraded offline : ClusterStatus

pub data MigrationType : Type 0 where
  cold live : MigrationType

pub data MigrationState : Type 0 where
  pending preflight disk memory cutover bgp cleanup done failed aborted : MigrationState

pub MigrationState-discrete : Discrete MigrationState
MigrationState-discrete = hlevel

-- `role.value`
abbrev pub role_value : ClusterRole → String
role_value ClusterRole.master = "master"
role_value ClusterRole.worker = "worker"

-- `status.value`
abbrev pub status_value : ClusterStatus → String
status_value ClusterStatus.online = "online"
status_value ClusterStatus.degraded = "degraded"
status_value ClusterStatus.offline = "offline"

-- `type.value`
abbrev pub type_value : MigrationType → String
type_value MigrationType.cold = "cold"
type_value MigrationType.live = "live"

-- `state.value`
abbrev pub state_value : MigrationState → String
state_value pending = "pending"
state_value preflight = "preflight"
state_value disk = "disk"
state_value memory = "memory"
state_value cutover = "cutover"
state_value bgp = "bgp"
state_value cleanup = "cleanup"
state_value done = "done"
state_value failed = "failed"
state_value aborted = "aborted"

-- The members of `MigrationState`, in their order.
abbrev pub all_states : List MigrationState
all_states =
    pending ∷ preflight ∷ disk ∷ memory ∷ cutover ∷ bgp ∷ cleanup ∷ done ∷ failed ∷ aborted ∷ []

unfoldable pub find_state : String → List MigrationState → Option MigrationState
find_state s [] = none
find_state s (x ∷ xs) =
    let rest = find_state s xs in if str_eq (state_value x) s then some x else rest

-- `MigrationState(s)`; `none` is Python's ValueError.
unfoldable pub state_named : String → Option MigrationState
unfolding find_state
state_named s = find_state s all_states

pub record Cluster : Type 0 where
  pub id : String
  pub name : String
  pub auth_url : String
  pub region : String
  pub grpc_addr : String
  pub role : ClusterRole
  pub status : ClusterStatus
  pub bgp_as : Option ℕ
  pub bgp_speaker_addr : Option String

-- The percentages and the bandwidth are in hundredths.
pub record ClusterMetric : Type 0 where
  pub cluster_id : String
  pub cpu_used_pct : ℕ
  pub ram_used_pct : ℕ
  pub disk_used_pct : ℕ
  pub vm_count : ℕ
  pub network_bw_mbps : ℕ
  pub collected_at : ℕ

-- The JSON options hold texts and nulls.
pub record Migration : Type 0 where
  pub id : String
  pub vm_id : String
  pub vm_name : Option String
  pub source_cluster_id : String
  pub dest_cluster_id : String
  pub type : MigrationType
  pub state : MigrationState
  pub progress_pct : Percent
  pub error : Option String
  pub rbd_images : Option (List String)
  pub vm_ips : Option (List String)
  pub options : Dict (Option String)
  pub initiated_by : Option String
  pub started_at : Option ℕ
  pub finished_at : Option ℕ
  pub created_at : ℕ

-- `data` is `{"progress": progress}`.
pub record MigrationEvent : Type 0 where
  pub migration_id : String
  pub state : String
  pub message : String
  pub progress : Percent

-- The JSON rule holds texts.
pub record Policy : Type 0 where
  pub name : String
  pub enabled : Bool
  pub priority : ℕ
  pub rule : Dict String

-- The tables. Rows with a primary key that the code looks up stand under it; the rest is in the
-- order of insertion.
pub record Database : Type 0 where
  pub clusters : Dict Cluster
  pub metrics : List ClusterMetric
  pub migrations : Dict Migration
  pub events : List MigrationEvent
  pub policies : List Policy

abbrev pub empty_database : Database
empty_database = record { clusters = []; metrics = []; migrations = []; events = []; policies = [] }
