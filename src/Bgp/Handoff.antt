-- ===== src/Bgp/Handoff.antt =====
-- cnf/network/bgp.py: the order of `handoff`.
use open_stack_cnf.Effect.Call.{Call, rpc}
use open_stack_cnf.Effect.Env.{Env}
use open_stack_cnf.Effect.Action.{Action}

abbrev pub IsNoRpc : Call → Type 0
IsNoRpc (rpc side r) = ⊥
IsNoRpc _ = Unit {0}
