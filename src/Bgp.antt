-- ===== src/Bgp.antt =====
-- cnf/network/bgp.py: the FRR client, and the manager that hands a prefix from one cluster to the
-- other. A next hop is optional, since the callers may pass None.
pub mod Calls
pub mod Handoff
use open_stack_cnf.Prelude.{
  ℕ, String, ◌⧺◌, Bool, true, Option, none, some, List, [], ◌∷◌, if◌then◌else◌, ◌==◌,
}
use open_stack_cnf.Prelude.Int.{is_zero}
use open_stack_cnf.Prelude.Text.{decimal, trim}
use open_stack_cnf.Effect.Exceptions.{Result, ok, err, bgp_error, external}
use open_stack_cnf.Effect.Call.{
  Side, Rpc, subprocess, sleep, metric, bgp_announcement, rpc, withdraw_ip, announce_ip,
}
use open_stack_cnf.Effect.Env.{Env, Completed, Json, arr, obj, nil, end}
use open_stack_cnf.Effect.Action.{◌>>=◌, ◌>>◌, Action, pure, raise, attempt, for_each}
use open_stack_cnf.Effect.Session.{World, ask, tell}
use open_stack_cnf.Ceph.{get_or}

pub record BgpRoute : Type 0 where
  pub prefix : String
  pub next_hop : Option String

-- `-c` before each command
abbrev pub with_flags : List String → List String
with_flags [] = []
with_flags (c ∷ cs) = "-c" ∷ c ∷ with_flags cs

abbrev pub vtysh_cmd : List String → List String
vtysh_cmd commands = "vtysh" ∷ with_flags commands

-- The configuration snippet that both `announce` and `withdraw` send.
abbrev pub router_commands : ℕ → String → List String
router_commands as_number network =
    "configure terminal"
    ∷ ("router bgp " ⧺ decimal as_number)
    ∷ " address-family ipv4 unicast"
    ∷ network
    ∷ " exit-address-family"
    ∷ "exit"
    ∷ []

abbrev pub announce_commands : ℕ → String → List String
announce_commands as_number prefix = router_commands as_number ("  network " ⧺ prefix)

abbrev pub withdraw_commands : ℕ → String → List String
withdraw_commands as_number prefix = router_commands as_number ("  no network " ⧺ prefix)

abbrev pub add_route_cmd : String → String → List String
add_route_cmd prefix via = "ip" ∷ "route" ∷ "replace" ∷ prefix ∷ "via" ∷ via ∷ []

abbrev pub remove_route_cmd : String → List String
remove_route_cmd prefix = "ip" ∷ "route" ∷ "del" ∷ prefix ∷ []

module _ (env : Env) where
  abbrev vtysh_output : Completed → Action World String
  vtysh_output result =
      if is_zero result.returncode
      then pure result.stdout
      else raise (bgp_error ("vtysh failed: " ⧺ trim result.stderr))

  -- `_vtysh`
  unfoldable pub vtysh : List String → Action World String
  vtysh commands = do
    let cmd = vtysh_cmd commands
    result ← ask (subprocess cmd) (λ h. env.run h cmd)
    vtysh_output result

  -- `_add_kernel_route`: the return code is not read; None among the arguments is a TypeError.
  unfoldable pub add_kernel_route : String → Option String → Action World (Unit {0})
  add_kernel_route prefix none = raise (external "TypeError: None in argument list")
  add_kernel_route prefix (some via) = do
    let cmd = add_route_cmd prefix via
    ask (subprocess cmd) (λ h. env.run h cmd)
    pure tt

  -- `_remove_kernel_route`
  unfoldable pub remove_kernel_route : String → Action World (Unit {0})
  remove_kernel_route prefix = do
    let cmd = remove_route_cmd prefix
    ask (subprocess cmd) (λ h. env.run h cmd)
    pure tt

  unfoldable pub announce : BgpRoute → Action World (Unit {0})
  announce route = do
    vtysh (announce_commands env.settings.bgp.as_number route.prefix)
    add_kernel_route route.prefix route.next_hop
    tell (metric (bgp_announcement "announce"))

  unfoldable pub withdraw : String → Action World (Unit {0})
  withdraw prefix = do
    vtysh (withdraw_commands env.settings.bgp.as_number prefix)
    remove_kernel_route prefix
    tell (metric (bgp_announcement "withdraw"))

  abbrev pub get_bgp_summary : Action World String
  get_bgp_summary = vtysh ("show bgp summary" ∷ [])

  -- `data.get("routes", {})` of the summary; for what is no JSON or no dict, an empty list.
  abbrev routes_of : Result Json → Json
  unfolding get_or
  routes_of (err e) = arr nil
  routes_of (ok data') = elim (get_or data' "routes" (obj end)) [ ok r ↦ r | err e ↦ arr nil ]

  unfoldable pub get_routes : Action World Json
  unfolding get_or
  get_routes = do
    output ← vtysh ("show bgp ipv4 unicast json" ∷ [])
    pure (routes_of (env.json_loads output))

  -- `timeout or self.cfg.convergence_wait_seconds`
  abbrev convergence_wait : Option ℕ → ℕ
  convergence_wait none = env.settings.bgp.convergence_wait_seconds
  convergence_wait (some n) = if n == 0 then env.settings.bgp.convergence_wait_seconds else n

  unfoldable pub wait_convergence : String → Option ℕ → Action World Bool
  wait_convergence prefix timeout = do tell (sleep (convergence_wait timeout)); pure true

  -- A call of a stub that may be None, which then has no such attribute.
  unfoldable pub call_stub : Option Side → Rpc → Action World (Unit {0})
  call_stub none r = raise (external "AttributeError: NoneType")
  call_stub (some side) r = do ask (rpc side r) (λ h. env.stub h side r); pure tt

  -- The first loop of `handoff`.
  unfoldable pub announce_all : List String → Option String → Action World (Unit {0})
  announce_all prefixes dest_next_hop =
      for_each prefixes (λ p. announce (record { prefix = p; next_hop = dest_next_hop }))

  -- One round of the second loop: a failure is logged.
  unfoldable pub withdraw_at : Option Side → String → Action World (Unit {0})
  withdraw_at source_grpc_client p =
      attempt (call_stub source_grpc_client (withdraw_ip p)) (λ e. pure tt)

  unfoldable pub wait_for : String → Action World (Unit {0})
  wait_for p = do wait_convergence p none; pure tt

  unfoldable pub handoff : List String → Option String → Option Side → Action World (Unit {0})
  handoff prefixes dest_next_hop source_grpc_client = do
    announce_all prefixes dest_next_hop
    for_each prefixes (withdraw_at source_grpc_client)
    for_each prefixes wait_for

  -- One round of `rollback`.
  unfoldable pub rollback_prefix : Option Side → String → Action World (Unit {0})
  rollback_prefix source_grpc_client p = do
    withdraw p
    attempt (call_stub source_grpc_client (announce_ip p)) (λ e. pure tt)

  unfoldable pub rollback : List String → Option Side → Action World (Unit {0})
  rollback prefixes source_grpc_client = for_each prefixes (rollback_prefix source_grpc_client)
