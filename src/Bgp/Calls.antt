-- ===== src/Bgp/Calls.antt =====
-- The calls that the methods of cnf/network/bgp.py make: runs of `vtysh` and `ip`, calls of a stub,
-- sleeps, and the count of announcements.
use open_stack_cnf.Prelude.{ℕ, String, Option, none, some, List}
use open_stack_cnf.Effect.Call.{Call, Side, Rpc, subprocess, sleep, metric, bgp_announcement, rpc}
use open_stack_cnf.Effect.Env.{Env}
use open_stack_cnf.Effect.Trace.{Keeps, calls, calls_rules}
use open_stack_cnf.Bgp.{
  BgpRoute, vtysh, add_kernel_route, remove_kernel_route, announce, withdraw, wait_convergence,
  call_stub, announce_all, withdraw_at, wait_for, handoff, rollback_prefix, rollback,
}

module _ (env : Env) {Q : Call → Type 0} where
  pub call_stub-calls :
      ((side : Side) (r : Rpc) → Q (rpc side r))
      → (side : Option Side) (r : Rpc) → Keeps (calls Q) (call_stub env side r)
  unfolding call_stub
  call_stub-calls rpcs none r = search calls_rules
  call_stub-calls rpcs (some side) r = search (calls_rules, rpcs)

  module _ (runs : (cmd : List String) → Q (subprocess cmd)) where
    vtysh-calls : (commands : List String) → Keeps (calls Q) (vtysh env commands)
    unfolding vtysh
    vtysh-calls commands = search (calls_rules, runs)

    add_kernel_route-calls :
        (prefix : String) (via : Option String) → Keeps (calls Q) (add_kernel_route env prefix via)
    unfolding add_kernel_route
    add_kernel_route-calls prefix none = search calls_rules
    add_kernel_route-calls prefix (some via) = search (calls_rules, runs)

    remove_kernel_route-calls : (prefix : String) → Keeps (calls Q) (remove_kernel_route env prefix)
    unfolding remove_kernel_route
    remove_kernel_route-calls prefix = search (calls_rules, runs)

    module _ (counted : (action : String) → Q (metric (bgp_announcement action))) where
      pub announce-calls : (route : BgpRoute) → Keeps (calls Q) (announce env route)
      unfolding announce
      announce-calls route =
          search (calls_rules, vtysh-calls, add_kernel_route-calls, counted) depth 8

      pub withdraw-calls : (prefix : String) → Keeps (calls Q) (withdraw env prefix)
      unfolding withdraw
      withdraw-calls prefix =
          search (calls_rules, vtysh-calls, remove_kernel_route-calls, counted) depth 8

      pub announce_all-calls :
          (prefixes : List String) (hop : Option String)
          → Keeps (calls Q) (announce_all env prefixes hop)
      unfolding announce_all
      announce_all-calls prefixes hop = search (calls_rules, announce-calls)

      module _ (rpcs : (side : Side) (r : Rpc) → Q (rpc side r)) where
        withdraw_at-calls :
            (side : Option Side) (p : String) → Keeps (calls Q) (withdraw_at env side p)
        unfolding withdraw_at
        withdraw_at-calls side p = search (calls_rules, call_stub-calls, rpcs)

        rollback_prefix-calls :
            (side : Option Side) (p : String) → Keeps (calls Q) (rollback_prefix env side p)
        unfolding rollback_prefix
        rollback_prefix-calls side p =
            search (calls_rules, call_stub-calls, withdraw-calls, rpcs) depth 8

        pub rollback-calls :
            (prefixes : List String) (side : Option Side)
            → Keeps (calls Q) (rollback env prefixes side)
        unfolding rollback
        rollback-calls prefixes side = search (calls_rules, rollback_prefix-calls)

        module _ (sleeps : (n : ℕ) → Q (sleep n)) where
          wait_for-calls : (p : String) → Keeps (calls Q) (wait_for env p)
          unfolding wait_for wait_convergence
          wait_for-calls p = search (calls_rules, sleeps) depth 8

          pub handoff-calls :
              (prefixes : List String) (hop : Option String) (side : Option Side)
              → Keeps (calls Q) (handoff env prefixes hop side)
          unfolding handoff
          handoff-calls prefixes hop side =
              search (calls_rules, announce_all-calls, withdraw_at-calls, wait_for-calls) depth 8
