-- ===== src/OpenStack/Listing.antt =====
-- cnf/openstack/client.py: the listing of machines makes calls and leaves the tables as they are.
use open_stack_cnf.Prelude.{String, Option, List, [], ◌∷◌}
use open_stack_cnf.Effect.Call.{Call, Side, source, sdk, get_server, port_floating_ips}
use open_stack_cnf.Effect.Env.{Env}
use open_stack_cnf.Effect.Trace.{
  IsAny, Keeps, Keeps-pure, Keeps-bind, Keeps-attempt, calls, calls_rules,
}
use open_stack_cnf.OpenStack.{list_vms, get_vms, get_vm_or_skip, fetch_texts}
use open_stack_cnf.OpenStack.Calls.{get_vm-calls}

free_call : (c : Call) → IsAny c
free_call c = tt

free_server : (side : Side) (i : String) → IsAny (sdk side (get_server i))
free_server side i = tt

free_address : (side : Side) (i : String) → IsAny (sdk side (port_floating_ips i))
free_address side i = tt

module _ (env : Env) where
  get_vms-calls : (ids : List String) → Keeps (calls IsAny) (get_vms env source ids)
  unfolding get_vms get_vm_or_skip
  get_vms-calls [] = search calls_rules
  get_vms-calls (i ∷ ids) =
      Keeps-bind _ _
        (Keeps-attempt _ _
          (Keeps-bind _ _ (get_vm-calls env source (free_server source) (free_address source) i)
            λ vm. Keeps-pure _)
          (λ e. Keeps-pure _))
        λ vm. Keeps-bind _ _ (get_vms-calls ids) λ rest. Keeps-pure _

  pub list_vms-calls : (host : Option String) → Keeps (calls IsAny) (list_vms env source host)
  unfolding list_vms fetch_texts
  list_vms-calls host = search (calls_rules, get_vms-calls, free_call) depth 8
