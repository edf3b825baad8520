-- ===== src/OpenStack.antt =====
-- cnf/openstack/client.py: the wrapper of the OpenStack SDK. The connection is opened lazily and
-- kept; opening it is a part of the first call. A side names the cluster of the client.
pub mod Calls
pub mod Listing
pub mod Waiting
pub mod Rounding
mod Details
unfoldable pub use Details.*
use open_stack_cnf.Prelude.{
  ℕ, zero, suc, ◌+◌, ◌*◌, String, ◌⧺◌, Bool, Option, none, some, List, [], ◌∷◌, ltb, if◌then◌else◌,
  str_eq, length,
}
use open_stack_cnf.Prelude.Text.{decimal}
use open_stack_cnf.Effect.Exceptions.{vm_not_found, vm_error, vm_timeout, external}
use open_stack_cnf.Effect.Call.{
  Side, Sdk, sdk, sleep, get_server, port_floating_ips, device_floating_ips, servers, stop_server,
  start_server, delete_server, force_delete_server, hypervisors, get_volume, create_volume,
  networks, get_flavor,
}
use open_stack_cnf.Effect.Env.{Env, Server, Volume, Flavor}
use open_stack_cnf.Effect.Action.{Action, pure, raise, attempt, ◌>>=◌, ◌>>◌}
use open_stack_cnf.Effect.Session.{World, ask, tell}

module _ (env : Env) (side : Side) where
  -- `self._run(f, …)` for the SDK's calls that return nothing that is read
  unfoldable pub run_command : Sdk → Action World (Unit {0})
  run_command c = ask (sdk side c) (λ h. env.command h side c)

  unfoldable pub fetch_texts : Sdk → Action World (List String)
  fetch_texts c = ask (sdk side c) (λ h. env.texts h side c)

  unfoldable pub fetch_server : String → Action World (Option Server)
  fetch_server vm_id = ask (sdk side (get_server vm_id)) (λ h. env.server h side vm_id)

  -- From the server on: a failure to list the floating addresses is passed over.
  unfoldable pub describe : String → Option Server → Action World VmDetails
  describe vm_id none = raise (vm_not_found vm_id)
  describe vm_id (some server) = do
    fips ← attempt (fetch_texts (port_floating_ips server.id)) (λ e. pure [])
    pure (details_of server fips)

  unfoldable pub get_vm : String → Action World VmDetails
  get_vm vm_id = do server ← fetch_server vm_id; describe vm_id server

  -- One round of `list_vms`: a machine whose details fail is left out.
  unfoldable pub get_vm_or_skip : String → Action World (Option VmDetails)
  get_vm_or_skip vm_id = attempt (do vm ← get_vm vm_id; pure (some vm)) (λ e. pure none)

  abbrev pub cons_some : Option VmDetails → List VmDetails → List VmDetails
  cons_some none vms = vms
  cons_some (some vm) vms = vm ∷ vms

  unfoldable pub get_vms : List String → Action World (List VmDetails)
  get_vms [] = pure []
  get_vms (i ∷ ids) = do vm ← get_vm_or_skip i; rest ← get_vms ids; pure (cons_some vm rest)

  unfoldable pub list_vms : Option String → Action World (List VmDetails)
  list_vms host = do ids ← fetch_texts (servers host); get_vms ids

  -- The raise after the loop.
  unfoldable pub wait_timeout : String → String → ℕ → Action World (Unit {0})
  wait_timeout vm_id target timeout =
      raise (
        vm_timeout
          ("VM " ⧺ vm_id ⧺ " did not reach " ⧺ target ⧺ " within " ⧺ decimal timeout ⧺ "s"))

  -- One round of `_wait_vm_status` from the answer on; None has no `status`.
  unfoldable pub check_status :
      String → String → Action World (Unit {0}) → Option Server → Action World (Unit {0})
  check_status vm_id target again none = raise (external "AttributeError: status")
  check_status vm_id target again (some server) =
      if str_eq server.status target
      then pure tt
      else if str_eq server.status "ERROR"
      then raise (vm_error ("VM " ⧺ vm_id ⧺ " entered ERROR state while waiting for " ⧺ target))
      else again

  -- The loop of `_wait_vm_status` from `elapsed` on. The fuel is the seconds that are left.
  unfoldable pub wait_loop : ℕ → String → String → ℕ → ℕ → ℕ → Action World (Unit {0})
  wait_loop zero vm_id target timeout interval elapsed = wait_timeout vm_id target timeout
  wait_loop (suc fuel) vm_id target timeout interval elapsed =
      let again =
        tell (sleep interval)
        >> wait_loop fuel vm_id target timeout interval (elapsed + interval) in
      if ltb elapsed timeout
      then fetch_server vm_id >>= check_status vm_id target again
      else wait_timeout vm_id target timeout

  unfoldable pub wait_vm_status : String → String → ℕ → ℕ → Action World (Unit {0})
  wait_vm_status vm_id target timeout interval = wait_loop timeout vm_id target timeout interval 0

  unfoldable pub stop_vm : String → Action World (Unit {0})
  stop_vm vm_id = do run_command (stop_server vm_id); wait_vm_status vm_id "SHUTOFF" 120 3

  unfoldable pub start_vm : String → Action World (Unit {0})
  start_vm vm_id = do run_command (start_server vm_id); wait_vm_status vm_id "ACTIVE" 120 3

  unfoldable pub delete_vm : String → Bool → Action World (Unit {0})
  delete_vm vm_id force =
      run_command (if force then force_delete_server vm_id else delete_server vm_id)

  abbrev pub flavor_details : Flavor → FlavorDetails
  flavor_details f = record {
    id = f.id;
    name = f.name;
    vcpus = f.vcpus;
    ram_mb = f.ram;
    disk_gb = f.disk;
  }

  unfoldable pub get_flavor_details : String → Action World FlavorDetails
  get_flavor_details flavor_id = do
    f ← ask (sdk side (get_flavor flavor_id)) (λ h. env.flavor h side flavor_id)
    pure (flavor_details f)

  unfoldable pub get_cluster_metrics : Action World ClusterMetrics
  unfolding totals_from
  get_cluster_metrics = do
    hs ← ask (sdk side hypervisors) (λ h. env.hypervisors h side)
    ids ← fetch_texts (servers none)
    pure (metrics_of (totals_from no_totals hs) (length ids))

  abbrev pub volume_details : Volume → VolumeDetails
  volume_details v = record { id = v.id; name = v.name; size_gb = v.size; status = v.status }

  unfoldable pub get_volume_details : String → Action World VolumeDetails
  get_volume_details volume_id = do
    v ← ask (sdk side (get_volume volume_id)) (λ h. env.volume h side volume_id)
    pure (volume_details v)

  -- `volume_type or None`
  abbrev type_or_none : String → Option String
  type_or_none t = if str_eq t "" then none else some t

  unfoldable pub create_volume_from_rbd :
      String → String → ℕ → String → String → Action World String
  create_volume_from_rbd pool image size_gb name volume_type = do
    let c = create_volume name size_gb (type_or_none volume_type) pool image
    ask (sdk side c) (λ h. env.new_volume h side c)

  unfoldable pub get_network_by_name : String → Action World (Option String)
  get_network_by_name name = do
    nets ← fetch_texts (networks name)
    pure (elim nets [ [] ↦ none | n ∷ _ ↦ some n ])

  unfoldable pub get_floating_ips_for_vm : String → Action World (List String)
  get_floating_ips_for_vm vm_id = fetch_texts (device_floating_ips vm_id)
