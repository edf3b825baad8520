-- ===== src/Api/Master.antt =====
-- cnf/api/v1/master.py: the master, and the transfer of its role. The API starts after the
-- election object is made, so that the node has one.
use open_stack_cnf.Prelude.{String, Bool, some, if◌then◌else◌}
use open_stack_cnf.Prelude.Dict.{Dict}
use open_stack_cnf.Effect.Exceptions.{http_error}
use open_stack_cnf.Effect.Env.{Env}
use open_stack_cnf.Effect.Action.{Action, pure, raise, gets, with_state, ◌>>=◌}
use open_stack_cnf.Raft
use open_stack_cnf.Raft.{Node}
use open_stack_cnf.Agent.{is_master, role_of}

pub record MasterInfo : Type 0 where
  pub master_cluster_id : String
  pub this_cluster_id : String
  pub this_cluster_role : String
  pub peers : Dict String

pub record ElectionAnswer : Type 0 where
  pub success : Bool
  pub target : String

abbrev elected : Bool → String → ElectionAnswer
elected success target = record { success = success; target = target }

module _ (env : Env) where
  abbrev info_of : Dict String → Node → MasterInfo
  info_of peers n = record {
    master_cluster_id = n.election.master_id;
    this_cluster_id = env.settings.cluster_id;
    this_cluster_role = role_of (some n.election);
    peers = peers;
  }

  unfoldable pub show_master : Action Node MasterInfo
  show_master = do peers ← Raft.get_peers env; gets (info_of peers)

  abbrev transfer : String → Action Node ElectionAnswer
  transfer target = do success ← Raft.force_elect env target; pure (elected success target)

  -- `force_elect`: only a master may ask for a transfer.
  unfoldable pub request_election : String → Action Node ElectionAnswer
  request_election target = with_state λ n.
      if is_master (some n.election)
      then transfer target
      else raise (http_error 403 "Only master can initiate election transfer")
