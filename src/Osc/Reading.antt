-- ===== src/Osc/Reading.antt =====
-- cnf/osc/v1 and cnf/api/v1: the commands read what the handlers answer.
use open_stack_cnf.Prelude.{ℕ, String, ◌⧺◌, Option, none, List, [], ◌∷◌, some, map, ◌≡◌}
use open_stack_cnf.Prelude.Int.{ℤ, pos}
use open_stack_cnf.Prelude.Dict.{Dict}
use open_stack_cnf.Db.Models.{ClusterMetric}
use open_stack_cnf.Effect.Exceptions.{ok}
use open_stack_cnf.Effect.Env.{Json, bool, num, str, arr, obj, end, member}
use open_stack_cnf.Api.Clusters.{ClusterResponse}
use open_stack_cnf.Api.Master.{MasterInfo, ElectionAnswer}
use open_stack_cnf.Api.Vms.{VmSummary, VmPage, Accepted}
use open_stack_cnf.Osc.{Request, Remote, Method, get_method, post_method}
use open_stack_cnf.Osc.Table.{Table}
use open_stack_cnf.Osc.Commands.{
  cluster_columns, accepted_columns, page_columns, with_text, with_number, param_of,
}
use open_stack_cnf.Osc.Columns.{Command}
use open_stack_cnf.Osc.Rows.{cluster_values, vm_values, page_values}
use open_stack_cnf.Osc.Answers.{
  array, number_or_null, cluster_json, vm_json, page_json, accepted_json, master_json,
  election_json, metrics_json,
}

-- A request is that of a command, and an answer of the handler behind its path gives the command
-- this table.
pub data Gives : Command → Method → String → Dict String → Option Json → Json → Table → Type 0 where
  clusters :
      (cs : List ClusterResponse)
      → Gives Command.cnf_cluster_list get_method "/clusters" [] none
          (arr (array cluster_json cs))
          (record { columns = cluster_columns; rows = map cluster_values cs })
  cluster :
      (id : String) (c : ClusterResponse)
      → Gives
          (Command.cnf_cluster_show id)
          get_method
          ("/clusters/" ⧺ id)
          []
          none
          (cluster_json c)
          (record {
            columns =
                "id" ∷ "name" ∷ "auth_url" ∷ "region" ∷ "role" ∷ "status" ∷ "grpc_addr" ∷ "bgp_as"
                ∷ [];
            rows =
                (str c.id
                  ∷ str c.name
                  ∷ str c.auth_url
                  ∷ str c.region
                  ∷ str c.role
                  ∷ str c.status
                  ∷ str c.grpc_addr
                  ∷ number_or_null c.bgp_as
                  ∷ [])
                ∷ [];
          })
  metrics :
      (id : String) (percentage : ℕ → Json) (isoformat : ℕ → String) (m : ClusterMetric)
      → Gives
          (Command.cnf_cluster_metrics id)
          get_method
          ("/clusters/" ⧺ id ⧺ "/metrics")
          []
          none
          (metrics_json percentage isoformat id m)
          (record {
            columns =
                "cluster_id" ∷ "cpu_used_pct" ∷ "ram_used_pct" ∷ "disk_used_pct" ∷ "vm_count"
                ∷ "collected_at" ∷ [];
            rows =
                (str id
                  ∷ percentage m.cpu_used_pct
                  ∷ percentage m.ram_used_pct
                  ∷ percentage m.disk_used_pct
                  ∷ num (pos m.vm_count)
                  ∷ str (isoformat m.collected_at)
                  ∷ [])
                ∷ [];
          })
  registered :
      (name auth_url grpc_addr region : String) (bgp_as : Option ℤ) (c : ClusterResponse)
      → Gives
          (Command.cnf_cluster_register name auth_url grpc_addr region bgp_as)
          post_method
          "/clusters"
          []
          (some (
            obj (
              member "name" (str name) (
                member "auth_url" (str auth_url) (
                  member "grpc_addr"
                    (str grpc_addr)
                    (member "region" (str region) (with_number "bgp_as" bgp_as end)))))))
          (cluster_json c)
          (record {
            columns = "id" ∷ "name" ∷ "role" ∷ "status" ∷ "grpc_addr" ∷ [];
            rows = (str c.id ∷ str c.name ∷ str c.role ∷ str c.status ∷ str c.grpc_addr ∷ []) ∷ [];
          })
  master :
      (m : MasterInfo)
      → Gives Command.cnf_master_show get_method "/master" [] none (master_json m) (record {
        columns = "master_cluster_id" ∷ "this_cluster_id" ∷ "this_cluster_role" ∷ [];
        rows =
            (str m.master_cluster_id ∷ str m.this_cluster_id ∷ str m.this_cluster_role ∷ []) ∷ [];
      })
  election :
      (cluster_id : String) (a : ElectionAnswer)
      → Gives
          (Command.cnf_master_elect cluster_id)
          post_method
          "/master/elect"
          []
          (some (obj (member "target_cluster_id" (str cluster_id) end)))
          (election_json a)
          (record {
            columns = "success" ∷ "target" ∷ [];
            rows = (bool a.success ∷ str a.target ∷ []) ∷ [];
          })
  vms :
      (cluster_id : Option String) (vs : List VmSummary)
      → Gives
          (Command.cnf_vm_list cluster_id)
          get_method
          "/vms"
          (param_of "cluster_id" cluster_id)
          none
          (arr (array vm_json vs))
          (record {
            columns = "id" ∷ "name" ∷ "status" ∷ "host" ∷ "ips" ∷ [];
            rows = map vm_values vs;
          })
  vm :
      (id : String) (v : VmPage)
      → Gives
          (Command.cnf_vm_status id)
          get_method
          ("/vms/" ⧺ id)
          []
          none
          (page_json v)
          (record { columns = page_columns; rows = page_values v ∷ [] })
  accepted :
      (vm_id to : String) (host : Option String) (a : Accepted)
      → Gives
          (Command.cnf_vm_migrate vm_id to host)
          post_method
          ("/vms/" ⧺ vm_id ⧺ "/migrate")
          []
          (some (obj (member "dest_cluster_id" (str to) (with_text "dest_host" host end))))
          (accepted_json a)
          (record {
            columns = accepted_columns;
            rows = (str a.migration_id ∷ str a.status ∷ []) ∷ [];
          })
  accepted_live :
      (vm_id to : String) (host hop : Option String) (a : Accepted)
      → Gives
          (Command.cnf_vm_live_migrate vm_id to host hop)
          post_method
          ("/vms/" ⧺ vm_id ⧺ "/live-migrate")
          []
          (some (
            obj (
              member "dest_cluster_id"
                (str to)
                (with_text "dest_host" host (with_text "dest_next_hop" hop end)))))
          (accepted_json a)
          (record {
            columns = accepted_columns;
            rows = (str a.migration_id ∷ str a.status ∷ []) ∷ [];
          })

-- The server answers this one request, sent next, with this object.
abbrev pub IsAnswering : Remote → List Request → Request → Json → Type 0
IsAnswering remote s r j = remote.send s r ≡ ok (record { refused = none; json = ok j })
