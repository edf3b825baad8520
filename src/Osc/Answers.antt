-- ===== src/Osc/Answers.antt =====
-- cnf/api/v1: the answers of the handlers as the JSON objects that a client gets.
use open_stack_cnf.Prelude.{ℕ, String, Option, none, some, List, [], ◌∷◌}
use open_stack_cnf.Prelude.Int.{pos}
use open_stack_cnf.Prelude.Dict.{Dict}
use open_stack_cnf.Db.Models.{ClusterMetric}
use open_stack_cnf.Effect.Env.{
  Json, Items, Members, null, bool, num, str, arr, obj, nil, cons, end, member,
}
use open_stack_cnf.Api.Clusters.{ClusterResponse}
use open_stack_cnf.Api.Master.{MasterInfo, ElectionAnswer}
use open_stack_cnf.Api.Vms.{VmSummary, VmPage, Accepted}

abbrev pub array : {A : Type 0} → (A → Json) → List A → Items
array f [] = nil
array f (x ∷ xs) = cons (f x) (array f xs)

abbrev pub texts : List String → Json
texts xs = arr (array str xs)

abbrev members_of : Dict String → Members
members_of [] = end
members_of ((key, value) ∷ rest) = member key (str value) (members_of rest)

abbrev pub number_or_null : Option ℕ → Json
number_or_null none = null
number_or_null (some n) = num (pos n)

-- An element of `list_clusters`, and the answer of `get_cluster` and of `register_cluster`.
abbrev pub cluster_json : ClusterResponse → Json
cluster_json c = obj (
    member "id" (str c.id) (
      member "name" (str c.name) (
        member "auth_url" (str c.auth_url) (
          member "region" (str c.region) (
            member "grpc_addr" (str c.grpc_addr) (
              member "role" (str c.role) (
                member "status" (str c.status)
                  (member "bgp_as" (number_or_null c.bgp_as) end))))))))

-- An element of `list_vms`.
abbrev pub vm_json : VmSummary → Json
vm_json v = obj (
    member "id" (str v.id) (
      member "name" (str v.name) (
        member "status" (str v.status) (
          member "host" (str v.host) (
            member "ips" (texts v.ips) (
              member "floating_ips" (texts v.floating_ips)
                (member "volumes" (texts v.volumes) end)))))))

-- The answer of `get_vm`.
abbrev pub page_json : VmPage → Json
page_json vm = obj (
    member "id" (str vm.summary.id) (
      member "name" (str vm.summary.name) (
        member "status" (str vm.summary.status) (
          member "host" (str vm.summary.host) (
            member "flavor_id" (str vm.flavor_id) (
              member "ips" (texts vm.summary.ips) (
                member "floating_ips" (texts vm.summary.floating_ips) (
                  member "volumes" (texts vm.summary.volumes)
                    (member "metadata" (obj (members_of vm.metadata)) end)))))))))

-- The answer of `migrate_vm` and `live_migrate_vm`.
abbrev pub accepted_json : Accepted → Json
accepted_json a =
    obj (member "migration_id" (str a.migration_id) (member "status" (str a.status) end))

-- The answer of `show_master`.
abbrev pub master_json : MasterInfo → Json
master_json m = obj (
    member "master_cluster_id" (str m.master_cluster_id) (
      member "this_cluster_id" (str m.this_cluster_id) (
        member "this_cluster_role" (str m.this_cluster_role)
          (member "peers" (obj (members_of m.peers)) end))))

-- The answer of `force_elect`.
abbrev pub election_json : ElectionAnswer → Json
election_json a = obj (member "success" (bool a.success) (member "target" (str a.target) end))

-- The answer of `cluster_metrics`; `percentage` is the number of a percentage, and `isoformat` the
-- text of a time.
abbrev pub metrics_json : (ℕ → Json) → (ℕ → String) → String → ClusterMetric → Json
metrics_json percentage isoformat cluster_id m = obj (
    member "cluster_id" (str cluster_id) (
      member "cpu_used_pct" (percentage m.cpu_used_pct) (
        member "ram_used_pct" (percentage m.ram_used_pct) (
          member "disk_used_pct" (percentage m.disk_used_pct) (
            member "vm_count" (num (pos m.vm_count))
              (member "collected_at" (str (isoformat m.collected_at)) end))))))
