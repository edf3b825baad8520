-- ===== src/Agent.antt =====
-- cnf/agent/agent.py: the registration of the node's own cluster, and the two callbacks of the
-- election.
pub mod Registration
pub mod Metrics
pub mod Snapshot
pub mod Start
pub mod LateScheduler
pub mod Informed
use open_stack_cnf.Prelude.{String, Bool, true, false, Option, none, some, if◌then◌else◌}
use open_stack_cnf.Prelude.Dict.{lookup, insert}
use open_stack_cnf.Db.Models.{Cluster, ClusterRole, Database, online, offline}
use open_stack_cnf.Effect.Exceptions.{ok}
use open_stack_cnf.Effect.Env.{Env}
use open_stack_cnf.Effect.Action.{Action, modify, ◌>>=◌, ◌>>◌}
use open_stack_cnf.Effect.Session.{World, with_session}
use open_stack_cnf.Raft.{Node, Election, is_master_role, on_node_world}

-- `is_master`: with no election object the node is a worker.
abbrev pub is_master : Option Election → Bool
is_master none = false
is_master (some e) = is_master_role e.role

-- `"master" if agent.is_master else "worker"`
abbrev pub role_of : Option Election → String
role_of election = if is_master election then "master" else "worker"

-- `scheduler.set_master(is_master)`, where there is a scheduler.
abbrev pub told : Bool → Option Bool → Option Bool
told is_master none = none
told is_master (some _) = some is_master

module _ (env : Env) where
  -- The row of a cluster that is not in the table, with the defaults of its columns.
  abbrev pub own_cluster : Cluster
  own_cluster = record {
    id = env.settings.cluster_id;
    name = env.settings.cluster_name;
    auth_url = env.settings.openstack.auth_url;
    region = env.settings.openstack.region_name;
    grpc_addr = env.settings.cluster_grpc_addr;
    role = ClusterRole.worker;
    status = offline;
    bgp_as = some env.settings.bgp.as_number;
    bgp_speaker_addr = none;
  }

  abbrev pub found_or_own : Option Cluster → Cluster
  found_or_own none = own_cluster
  found_or_own (some c) = c

  abbrev pub mark_online : Cluster → Cluster
  mark_online c = record c { status = online; grpc_addr = env.settings.cluster_grpc_addr }

  -- The body of the session of `_upsert_self_cluster`.
  unfoldable pub register : Action Database (Unit {0})
  unfolding lookup insert
  register d = (
    ok tt,
    record d {
      clusters =
          insert env.settings.cluster_id
            (mark_online (found_or_own (lookup env.settings.cluster_id d.clusters))) d.clusters;
    },
  )

  -- `_upsert_self_cluster`
  unfoldable pub upsert_self_cluster : Action World (Unit {0})
  upsert_self_cluster = with_session env register

  unfoldable pub write_role : ClusterRole → Option Cluster → Database → Database
  unfolding insert
  write_role role none d = d
  write_role role (some c) d = record d {
    clusters = insert env.settings.cluster_id (record c { role = role }) d.clusters;
  }

  -- The body of the session of both callbacks.
  unfoldable pub set_role : ClusterRole → Action Database (Unit {0})
  unfolding lookup write_role
  set_role role d = (ok tt, write_role role (lookup env.settings.cluster_id d.clusters) d)

  unfoldable pub report_role : ClusterRole → Bool → Action Node (Unit {0})
  unfolding set_role
  report_role role is_master =
      on_node_world (with_session env (set_role role))
      >> modify (λ n. record n { scheduler = told is_master n.scheduler })

  -- `_on_become_master`
  unfoldable pub on_become_master : Action Node (Unit {0})
  on_become_master = report_role ClusterRole.master true

  -- `_on_lose_master`
  unfoldable pub on_lose_master : Action Node (Unit {0})
  on_lose_master = report_role ClusterRole.worker false
