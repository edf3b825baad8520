-- ===== src/Osc/Columns.antt =====
-- cnf/osc/v1: what a command that returns has asked, and that its rows fit its columns.
use open_stack_cnf.Prelude.{String, Bool, Option, List, [], ◌≡◌, ◌⊎◌}
use open_stack_cnf.Prelude.Int.{ℤ}
use open_stack_cnf.Effect.Action.{Action}
use open_stack_cnf.Osc.{Request, Remote}
use open_stack_cnf.Osc.Exchange.{IsAnswered}
use open_stack_cnf.Osc.Table.{Table}
use open_stack_cnf.Osc.Fitting.{IsFitting}
use open_stack_cnf.Osc.Commands.{
  list_cluster, show_cluster, cluster_metrics, register, show_master, elect_master, list_policy,
  set_policy, list_vm, vm_status, migrate, live_migrate,
}

-- The commands with their arguments.
pub data Command : Type 0 where
  cnf_cluster_list cnf_master_show cnf_policy_list : Command
  cnf_cluster_show cnf_cluster_metrics cnf_master_elect cnf_vm_status : String → Command
  cnf_cluster_register : String → String → String → String → Option ℤ → Command
  cnf_policy_set : String → String → ℤ → Bool → Command
  cnf_vm_list : Option String → Command
  cnf_vm_migrate : String → String → Option String → Command
  cnf_vm_live_migrate : String → String → Option String → Option String → Command

abbrev pub take_action : Remote → String → Command → Action (List Request) Table
take_action remote endpoint cnf_cluster_list = list_cluster remote endpoint
take_action remote endpoint cnf_master_show = show_master remote endpoint
take_action remote endpoint cnf_policy_list = list_policy remote endpoint
take_action remote endpoint (cnf_cluster_show c) = show_cluster remote endpoint c
take_action remote endpoint (cnf_cluster_metrics c) = cluster_metrics remote endpoint c
take_action remote endpoint (cnf_master_elect c) = elect_master remote endpoint c
take_action remote endpoint (cnf_vm_status v) = vm_status remote endpoint v
take_action remote endpoint (cnf_cluster_register name auth grpc region bgp_as) =
    register remote endpoint name auth grpc region bgp_as
take_action remote endpoint (cnf_policy_set name rule priority disable) =
    set_policy remote endpoint name rule priority disable
take_action remote endpoint (cnf_vm_list c) = list_vm remote endpoint c
take_action remote endpoint (cnf_vm_migrate v to host) = migrate remote endpoint v to host
take_action remote endpoint (cnf_vm_live_migrate v to host hop) =
    live_migrate remote endpoint v to host hop

-- What is true of a command that has returned, from the requests before and after it.
abbrev pub IsServed : Remote → String → Command → List Request → List Request → Table → Type 0
IsServed remote endpoint c sent sent' t =
    (IsAnswered remote endpoint sent sent'
      ⊎ ((c ≡ Command.cnf_policy_list) × (sent' ≡ sent) × (t.rows ≡ [])))
    × IsFitting t
