-- ===== src/Agent/Registration.antt =====
-- cnf/agent/agent.py: what the registration and the callbacks write.
use open_stack_cnf.Prelude.{String, Bool, true, false, Option, none, some, ◌≡◌, ◌≢◌, refl}
use open_stack_cnf.Prelude.Dict.{lookup, lookup-insert_self, lookup-insert_ne}
use open_stack_cnf.Db.Models.{Cluster, ClusterRole, Database, online}
use open_stack_cnf.Effect.Exceptions.{Exception, ok, err}
use open_stack_cnf.Effect.Env.{Env}
use open_stack_cnf.Effect.Session.{World, with_session}
use open_stack_cnf.Effect.Action.{◌>>=◌}
use open_stack_cnf.Raft.{Node}
use open_stack_cnf.Agent.{
  told, found_or_own, mark_online, upsert_self_cluster, register, set_role, write_role, report_role,
  on_become_master, on_lose_master,
}

-- The row with another role, where there is one.
abbrev pub with_role : ClusterRole → Option Cluster → Option Cluster
with_role role none = none
with_role role (some c) = some (record c { role = role })

module _ (env : Env) where
  -- Where the database does not fail, the registration returns, and then the table has the node's
  -- cluster online at its configured address: the row that was there with its other columns kept,
  -- or a new one. The rows of the other clusters are as they were.
  pub upsert_self_cluster-registers :
      (w : World)
      → env.db_fault w.history ≡ none
      → ((upsert_self_cluster env w).0 ≡ ok tt)
        × (lookup env.settings.cluster_id (upsert_self_cluster env w).1.db.clusters
            ≡ some (record (found_or_own env (lookup env.settings.cluster_id w.db.clusters)) {
              status = online;
              grpc_addr = env.settings.cluster_grpc_addr;
            }))
        × ((other : String)
            → env.settings.cluster_id ≢ other
            → lookup other (upsert_self_cluster env w).1.db.clusters ≡ lookup other w.db.clusters)
  unfolding upsert_self_cluster with_session register
  upsert_self_cluster-registers w h = rw h (
    refl,
    lookup-insert_self env.settings.cluster_id
        (mark_online env (found_or_own env (lookup env.settings.cluster_id w.db.clusters)))
        w.db.clusters,
    λ other apart. lookup-insert_ne env.settings.cluster_id other _ w.db.clusters apart,
  )

  write_role_lem :
      (role : ClusterRole) (found : Option Cluster) (d : Database)
      → lookup env.settings.cluster_id d.clusters ≡ found
      → lookup env.settings.cluster_id (write_role env role found d).clusters ≡ with_role role found
  unfolding write_role
  write_role_lem role none d h = h
  write_role_lem role (some c) d h =
      lookup-insert_self env.settings.cluster_id (record c { role = role }) d.clusters

  report_role_lem :
      (role : ClusterRole) (b : Bool) (n : Node)
      → env.db_fault n.world.history ≡ none
      → ((report_role env role b n).0 ≡ ok tt)
        × ((report_role env role b n).1.scheduler ≡ told b n.scheduler)
        × (lookup env.settings.cluster_id (report_role env role b n).1.world.db.clusters
            ≡ with_role role (lookup env.settings.cluster_id n.world.db.clusters))
  unfolding report_role set_role with_session ◌>>=◌
  report_role_lem role b n h = rw h (
    refl,
    refl,
    write_role_lem role (lookup env.settings.cluster_id n.world.db.clusters) n.world.db refl,
  )

  -- Where the database does not fail, the callbacks of the election return, set the flag of the
  -- scheduler, where there is one, and write the role into the row of the node's cluster, where it
  -- is registered.
  pub callbacks-report :
      (n : Node)
      → env.db_fault n.world.history ≡ none
      → (((on_become_master env n).0 ≡ ok tt)
          × ((on_become_master env n).1.scheduler ≡ told true n.scheduler)
          × (lookup env.settings.cluster_id (on_become_master env n).1.world.db.clusters
              ≡ with_role ClusterRole.master (lookup env.settings.cluster_id n.world.db.clusters)))
        × (((on_lose_master env n).0 ≡ ok tt)
            × ((on_lose_master env n).1.scheduler ≡ told false n.scheduler)
            × (lookup env.settings.cluster_id (on_lose_master env n).1.world.db.clusters
                ≡ with_role ClusterRole.worker
                    (lookup env.settings.cluster_id n.world.db.clusters)))
  unfolding on_become_master on_lose_master
  callbacks-report n h =
      (report_role_lem ClusterRole.master true n h, report_role_lem ClusterRole.worker false n h)

  -- Where the database fails, the callback for a lost mastership raises, and the scheduler goes on
  -- as it was.
  pub on_lose_master-fault :
      (n : Node) (e : Exception)
      → env.db_fault n.world.history ≡ some e
      → ((on_lose_master env n).0 ≡ err e)
        × ((on_lose_master env n).1.scheduler ≡ n.scheduler)
        × ((on_lose_master env n).1.world.db ≡ n.world.db)
  unfolding on_lose_master report_role with_session ◌>>=◌
  on_lose_master-fault n e h = rw h (refl, refl, refl)
