-- ===== src/Grpc/Peer.antt =====
-- cnf/grpc/server.py: `CNFPeerServicer`.
use open_stack_cnf.Prelude.{ℕ, String, Bool, true, not, any, keep, List, [], ◌∷◌, map}
use open_stack_cnf.Prelude.Dict.{rows}
use open_stack_cnf.Prelude.Percent.{Percent}
use open_stack_cnf.Db.Models.{
  Cluster, Migration, Database, role_value, status_value, type_value, state_value, done, failed,
  aborted,
}
use open_stack_cnf.Effect.Env.{Env}
use open_stack_cnf.Effect.Action.{Action, pure, gets}
use open_stack_cnf.Effect.Session.{World, with_session}
use open_stack_cnf.Api.Migrations.{is_state}
use open_stack_cnf.Grpc.Control.{ClusterInfo}

pub record MigrationStatus : Type 0 where
  pub migration_id : String
  pub vm_id : String
  pub source_cluster : String
  pub dest_cluster : String
  pub type : String
  pub state : String
  pub progress_pct : Percent

pub record SyncStateResponse : Type 0 where
  pub clusters : List ClusterInfo
  pub active_migrations : List MigrationStatus

abbrev pub info_of : Cluster → ClusterInfo
info_of c = record {
  id = c.id;
  name = c.name;
  role = role_value c.role;
  auth_url = c.auth_url;
  region = c.region;
  grpc_addr = c.grpc_addr;
  status = status_value c.status;
}

abbrev pub status_of : Migration → MigrationStatus
status_of m = record {
  migration_id = m.id;
  vm_id = m.vm_id;
  source_cluster = m.source_cluster_id;
  dest_cluster = m.dest_cluster_id;
  type = type_value m.type;
  state = state_value m.state;
  progress_pct = m.progress_pct;
}

-- `Migration.state.not_in([DONE, FAILED, ABORTED])`
unfoldable pub is_active : Migration → Bool
unfolding any
is_active m = not (any (is_state m.state) (done ∷ failed ∷ aborted ∷ []))

-- The body of the session of `SyncState`.
unfoldable pub sync_of : Database → SyncStateResponse
unfolding keep is_active
sync_of d = record {
  clusters = map info_of (rows d.clusters);
  active_migrations = map status_of (keep is_active (rows d.migrations));
}

-- `Heartbeat`: its `ok` and `term`
abbrev pub heartbeat : Action World (Bool × ℕ)
heartbeat = pure (true, 0)

-- `RequestVote`, for the term of the request: `vote_granted` and `term`
abbrev pub request_vote : ℕ → Action World (Bool × ℕ)
request_vote term = pure (true, term)

-- `AppendEntries`, for the term of the request: `success` and `term`
abbrev pub append_entries : ℕ → Action World (Bool × ℕ)
append_entries term = pure (true, term)

unfoldable pub sync_state : Env → Action World SyncStateResponse
sync_state env = with_session env (gets sync_of)
