-- ===== src/OpenStack/Calls.antt =====
-- The calls that the methods of cnf/openstack/client.py make.
use open_stack_cnf.Prelude.{ℕ, zero, suc, ◌+◌, ltb, String, false, Option, none, some}
use open_stack_cnf.Effect.Call.{
  Call, Side, Sdk, sdk, sleep, get_server, port_floating_ips, stop_server, get_volume,
  create_volume, delete_server,
}
use open_stack_cnf.Effect.Env.{Env, Server}
use open_stack_cnf.Effect.Action.{Action, ◌>>◌}
use open_stack_cnf.Effect.Session.{World, tell}
use open_stack_cnf.Effect.Trace.{Keeps, calls, calls_rules, Keeps-if, Keeps-bind, Keeps-tell}
use open_stack_cnf.OpenStack.{
  run_command, fetch_texts, fetch_server, describe, get_vm, check_status, wait_timeout, wait_loop,
  wait_vm_status, stop_vm, get_volume_details, create_volume_from_rbd, delete_vm,
}

module _ (env : Env) (side : Side) {Q : Call → Type 0} where
  pub run_command-calls : (c : Sdk) → Q (sdk side c) → Keeps (calls Q) (run_command env side c)
  unfolding run_command
  run_command-calls c q = search calls_rules

  fetch_texts-calls : (c : Sdk) → Q (sdk side c) → Keeps (calls Q) (fetch_texts env side c)
  unfolding fetch_texts
  fetch_texts-calls c q = search calls_rules

  module _ (servers_read : (i : String) → Q (sdk side (get_server i))) where
    fetch_server-calls : (i : String) → Keeps (calls Q) (fetch_server env side i)
    unfolding fetch_server
    fetch_server-calls i = search (calls_rules, servers_read)

    module _ (addresses_read : (i : String) → Q (sdk side (port_floating_ips i))) where
      describe-calls :
          (i : String) (server : Option Server) → Keeps (calls Q) (describe env side i server)
      unfolding describe
      describe-calls i none = search calls_rules
      describe-calls i (some server) =
          search (calls_rules, fetch_texts-calls, addresses_read) depth 8

      pub get_vm-calls : (i : String) → Keeps (calls Q) (get_vm env side i)
      unfolding get_vm
      get_vm-calls i = search (calls_rules, fetch_server-calls, describe-calls)

    module _ (sleeps : (n : ℕ) → Q (sleep n)) where
      check_status-calls :
          (i target : String) (again : Action World (Unit {0})) (server : Option Server)
          → Keeps (calls Q) again
          → Keeps (calls Q) (check_status env side i target again server)
      unfolding check_status
      check_status-calls i target again none h = search calls_rules
      check_status-calls i target again (some server) h = search calls_rules

      wait_timeout-calls :
          (i target : String) (timeout : ℕ)
          → Keeps (calls Q) (wait_timeout env side i target timeout)
      unfolding wait_timeout
      wait_timeout-calls i target timeout = search calls_rules

      wait_loop-calls :
          (f : ℕ) (i target : String) (timeout interval elapsed : ℕ)
          → Keeps (calls Q) (wait_loop env side f i target timeout interval elapsed)
      unfolding wait_loop
      wait_loop-calls zero i target timeout interval elapsed = wait_timeout-calls i target timeout
      wait_loop-calls (suc f) i target timeout interval elapsed =
          let ih = wait_loop-calls f i target timeout interval (elapsed + interval) in
          let again : Keeps (calls Q) (
              tell (sleep interval)
              >> wait_loop env side f i target timeout interval (elapsed + interval)) =
            Keeps-bind (tell (sleep interval)) _ (Keeps-tell (sleep interval) (sleeps interval))
              (λ _. ih) in
          Keeps-if (ltb elapsed timeout) _ _
            (Keeps-bind (fetch_server env side i) _ (fetch_server-calls i)
              (λ server. check_status-calls i target _ server again))
            (wait_timeout-calls i target timeout)

      pub stop_vm-calls :
          (i : String) → Q (sdk side (stop_server i)) → Keeps (calls Q) (stop_vm env side i)
      unfolding stop_vm wait_vm_status
      stop_vm-calls i q = search (calls_rules, run_command-calls, wait_loop-calls, q)

  pub delete_vm-calls :
      (i : String) → Q (sdk side (delete_server i)) → Keeps (calls Q) (delete_vm env side i false)
  unfolding delete_vm
  delete_vm-calls i q = search (calls_rules, run_command-calls, q)

  pub get_volume_details-calls :
      (v : String) → Q (sdk side (get_volume v)) → Keeps (calls Q) (get_volume_details env side v)
  unfolding get_volume_details
  get_volume_details-calls v q = search calls_rules

  pub create_volume_from_rbd-calls :
      ((n : String) (s : ℕ) (t : Option String) (p i : String)
        → Q (sdk side (create_volume n s t p i)))
      → (pool image : String) (size : ℕ) (name type : String)
      → Keeps (calls Q) (create_volume_from_rbd env side pool image size name type)
  unfolding create_volume_from_rbd
  create_volume_from_rbd-calls created pool image size name type = search (calls_rules, created)
