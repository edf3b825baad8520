-- ===== src/Api/Proxy.antt =====
-- cnf/api/app.py: who serves a request.
use open_stack_cnf.Prelude.{String, Option, none, some, ◌≡◌, refl, inl, inr, Bool-cases}
use open_stack_cnf.Prelude.Dict.{lookup}
use open_stack_cnf.Effect.Action.{Action}
use open_stack_cnf.Effect.Session.{World}
use open_stack_cnf.Raft.{Election}
use open_stack_cnf.Agent.{is_master}
use open_stack_cnf.Api.App.{proxy_to_master, master_grpc_addr, is_health}

no_address : (election : Option Election) → master_grpc_addr election ≡ ""
unfolding master_grpc_addr lookup
no_address none = refl
no_address (some e) = refl

-- Every node serves every request itself, worker or master, with an election or with none: the
-- middleware never sends a request to the master, since the address of the master is always blank.
pub proxy_to_master-serves_here :
    {A : Type 0} (path query : String) (election : Option Election)
    (forward : String → Action World A) (call_next : Action World A)
    → proxy_to_master path query election forward call_next ≡ call_next
unfolding proxy_to_master
proxy_to_master-serves_here path query election forward call_next =
    elim (Bool-cases (is_health path)) [
      | inl h ↦ rw h refl
      | inr h ↦ elim (Bool-cases (is_master election)) [
        | inl m ↦ rw (h, m) refl
        | inr m ↦ rw (h, m, no_address election) refl
      ]
    ]
