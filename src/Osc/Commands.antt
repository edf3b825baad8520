-- ===== src/Osc/Commands.antt =====
-- cnf/osc/v1: the commands of the command line, `take_action` of each class, over the arguments that
-- the parser gives.
use open_stack_cnf.Prelude.{
  String, ◌⧺◌, Bool, not, Option, none, some, List, [], ◌∷◌, if◌then◌else◌, str_eq,
}
use open_stack_cnf.Prelude.Int.{ℤ, is_zero}
use open_stack_cnf.Prelude.Dict.{Dict}
use open_stack_cnf.Effect.Env.{Json, Members, bool, num, str, obj, end, member}
use open_stack_cnf.Effect.Action.{Action, pure, lift, ◌>>=◌}
use open_stack_cnf.Osc.{Request, Remote, get, post}
use open_stack_cnf.Osc.Table.{Table, Reader, field, optional, joined_field, lister, show_one}

-- `if text: body[key] = text`
abbrev pub with_text : String → Option String → Members → Members
with_text key none rest = rest
with_text key (some s) rest = if str_eq s "" then rest else member key (str s) rest

-- `if number: body[key] = number`
abbrev pub with_number : String → Option ℤ → Members → Members
with_number key none rest = rest
with_number key (some n) rest = if is_zero n then rest else member key (num n) rest

-- `if text: params[key] = text`
abbrev pub param_of : String → Option String → Dict String
param_of key none = []
param_of key (some s) = if str_eq s "" then [] else (key, s) ∷ []

abbrev pub cluster_columns : List String
cluster_columns = "id" ∷ "name" ∷ "role" ∷ "status" ∷ "grpc_addr" ∷ "bgp_as" ∷ []

abbrev pub cluster_row : List Reader
cluster_row =
    field "id"
    ∷ field "name"
    ∷ field "role"
    ∷ field "status"
    ∷ field "grpc_addr"
    ∷ optional "bgp_as"
    ∷ []

abbrev pub register_body : String → String → String → String → Option ℤ → Json
register_body name auth_url grpc_addr region bgp_as = obj (
    member "name" (str name) (
      member "auth_url" (str auth_url) (
        member "grpc_addr" (str grpc_addr)
          (member "region" (str region) (with_number "bgp_as" bgp_as end)))))

abbrev pub policy_body : String → Json → ℤ → Bool → Json
policy_body name rule priority disable = obj (
    member "name" (str name) (
      member "rule" rule
        (member "priority" (num priority) (member "enabled" (bool (not disable)) end))))

abbrev pub vm_row : List Reader
vm_row = field "id" ∷ field "name" ∷ field "status" ∷ field "host" ∷ joined_field "ips" ∷ []

abbrev pub page_columns : List String
page_columns = "id" ∷ "name" ∷ "status" ∷ "host" ∷ "flavor_id" ∷ "ips" ∷ "volumes" ∷ []

abbrev pub page_row : List Reader
page_row =
    field "id"
    ∷ field "name"
    ∷ field "status"
    ∷ field "host"
    ∷ field "flavor_id"
    ∷ joined_field "ips"
    ∷ joined_field "volumes"
    ∷ []

abbrev pub accepted_columns : List String
accepted_columns = "migration_id" ∷ "status" ∷ []

abbrev pub accepted_row : List Reader
accepted_row = field "migration_id" ∷ field "status" ∷ []

module _ (remote : Remote) (endpoint : String) where
  -- `ListCluster`
  unfoldable pub list_cluster : Action (List Request) Table
  list_cluster = do
    clusters ← get remote endpoint "/clusters" []
    lift (lister cluster_columns cluster_row clusters)

  -- `ShowCluster`
  unfoldable pub show_cluster : String → Action (List Request) Table
  show_cluster cluster = do
    c ← get remote endpoint ("/clusters/" ⧺ cluster) []
    let columns =
        "id" ∷ "name" ∷ "auth_url" ∷ "region" ∷ "role" ∷ "status" ∷ "grpc_addr" ∷ "bgp_as" ∷ []
    let row =
        field "id"
        ∷ field "name"
        ∷ field "auth_url"
        ∷ field "region"
        ∷ field "role"
        ∷ field "status"
        ∷ field "grpc_addr"
        ∷ optional "bgp_as"
        ∷ []
    lift (show_one columns row c)

  -- `ClusterMetrics`
  unfoldable pub cluster_metrics : String → Action (List Request) Table
  cluster_metrics cluster = do
    m ← get remote endpoint ("/clusters/" ⧺ cluster ⧺ "/metrics") []
    let columns =
        "cluster_id" ∷ "cpu_used_pct" ∷ "ram_used_pct" ∷ "disk_used_pct" ∷ "vm_count"
        ∷ "collected_at" ∷ []
    let row =
        field "cluster_id"
        ∷ field "cpu_used_pct"
        ∷ field "ram_used_pct"
        ∷ field "disk_used_pct"
        ∷ field "vm_count"
        ∷ field "collected_at"
        ∷ []
    lift (show_one columns row m)

  -- `RegisterCluster`
  unfoldable pub register :
      String → String → String → String → Option ℤ → Action (List Request) Table
  register name auth_url grpc_addr region bgp_as = do
    c ← post remote endpoint "/clusters" (register_body name auth_url grpc_addr region bgp_as)
    let columns = "id" ∷ "name" ∷ "role" ∷ "status" ∷ "grpc_addr" ∷ []
    let row = field "id" ∷ field "name" ∷ field "role" ∷ field "status" ∷ field "grpc_addr" ∷ []
    lift (show_one columns row c)

  -- `ShowMaster`
  unfoldable pub show_master : Action (List Request) Table
  show_master = do
    m ← get remote endpoint "/master" []
    let columns = "master_cluster_id" ∷ "this_cluster_id" ∷ "this_cluster_role" ∷ []
    let row = field "master_cluster_id" ∷ field "this_cluster_id" ∷ field "this_cluster_role" ∷ []
    lift (show_one columns row m)

  -- `ElectMaster`
  unfoldable pub elect_master : String → Action (List Request) Table
  elect_master cluster_id = do
    result ←
        post remote endpoint "/master/elect" (obj (member "target_cluster_id" (str cluster_id) end))
    lift (show_one ("success" ∷ "target" ∷ []) (field "success" ∷ field "target" ∷ []) result)

  -- `ListPolicy`: a client has no attribute `_policies`, so that nothing is asked.
  unfoldable pub list_policy : Action (List Request) Table
  list_policy =
      pure (record { columns = "id" ∷ "name" ∷ "enabled" ∷ "priority" ∷ "rule" ∷ []; rows = [] })

  -- `SetPolicy`
  unfoldable pub set_policy : String → String → ℤ → Bool → Action (List Request) Table
  set_policy name rule priority disable = do
    loaded ← lift (remote.json_loads rule)
    result ← post remote endpoint "/policies" (policy_body name loaded priority disable)
    let columns = "id" ∷ "name" ∷ "enabled" ∷ "priority" ∷ []
    let row = field "id" ∷ field "name" ∷ field "enabled" ∷ field "priority" ∷ []
    lift (show_one columns row result)

  -- `ListVM`
  unfoldable pub list_vm : Option String → Action (List Request) Table
  list_vm cluster = do
    vms ← get remote endpoint "/vms" (param_of "cluster_id" cluster)
    lift (lister ("id" ∷ "name" ∷ "status" ∷ "host" ∷ "ips" ∷ []) vm_row vms)

  -- `VMStatus`
  unfoldable pub vm_status : String → Action (List Request) Table
  vm_status vm_id = do
    v ← get remote endpoint ("/vms/" ⧺ vm_id) []
    lift (show_one page_columns page_row v)

  -- `MigrateVM`
  unfoldable pub migrate : String → String → Option String → Action (List Request) Table
  migrate vm_id dest_cluster dest_host = do
    let body =
        obj (member "dest_cluster_id" (str dest_cluster) (with_text "dest_host" dest_host end))
    result ← post remote endpoint ("/vms/" ⧺ vm_id ⧺ "/migrate") body
    lift (show_one accepted_columns accepted_row result)

  -- `LiveMigrateVM`
  unfoldable pub live_migrate :
      String → String → Option String → Option String → Action (List Request) Table
  live_migrate vm_id dest_cluster dest_host dest_next_hop = do
    let hop = with_text "dest_next_hop" dest_next_hop end
    let body =
        obj (member "dest_cluster_id" (str dest_cluster) (with_text "dest_host" dest_host hop))
    result ← post remote endpoint ("/vms/" ⧺ vm_id ⧺ "/live-migrate") body
    lift (show_one accepted_columns accepted_row result)
