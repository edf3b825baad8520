-- ===== src/Api/App.antt =====
-- cnf/api/app.py: the middleware that proxies requests to the master, and the health endpoints. The
-- rest of `create_app` configures FastAPI.
use open_stack_cnf.Prelude.{
  ℕ, String, ◌⧺◌, Bool, true, Option, none, some, [], ◌∷◌, any, if◌then◌else◌, str_eq,
}
use open_stack_cnf.Prelude.Dict.{Dict, lookup}
use open_stack_cnf.Effect.Exceptions.{Exception, http_error}
use open_stack_cnf.Effect.Env.{Env}
use open_stack_cnf.Effect.Action.{Action}
use open_stack_cnf.Effect.Session.{World}
use open_stack_cnf.Raft.{Election, host_and_port}
use open_stack_cnf.Agent.{is_master, role_of}

-- The answer's status for an exception that leaves a handler: FastAPI answers an HTTPException with
-- its own, and `global_exception_handler` any other with 500.
abbrev pub status_code : Exception → ℕ
status_code (http_error code detail) = code
status_code e = 500

-- The local `peers` of `master_grpc_addr`, which nothing is put into.
abbrev no_peers : Dict String
no_peers = []

-- `CNFAgent.master_grpc_addr`
unfoldable pub master_grpc_addr : Option Election → String
unfolding lookup
master_grpc_addr none = ""
master_grpc_addr (some e) = elim (lookup e.master_id no_peers) [ none ↦ "" | some addr ↦ addr ]

-- `port or "8080"`
abbrev port_or_default : String → String
port_or_default port = if str_eq port "" then "8080" else port

abbrev with_query : String → String → String
with_query url query = if str_eq query "" then url else url ⧺ "?" ⧺ query

-- The URL to which `_forward_to_master` sends the request's method, headers and body.
unfoldable pub forward_url : String → String → String → String
forward_url path query master_addr =
    let (host, port) = host_and_port master_addr in
    with_query ("http://" ⧺ host ⧺ ":" ⧺ port_or_default port ⧺ path) query

-- `request.url.path in ("/healthz", "/readyz", "/metrics")`
unfoldable pub is_health : String → Bool
unfolding any
is_health path = any (str_eq path) ("/healthz" ∷ "/readyz" ∷ "/metrics" ∷ [])

-- `proxy_to_master`, for a way to send a request on and for the node's own handler.
unfoldable pub proxy_to_master :
    {A : Type 0}
    → String
    → String
    → Option Election
    → (String → Action World A)
    → Action World A
    → Action World A
unfolding is_health master_grpc_addr forward_url
proxy_to_master path query election forward call_next =
    if is_health path
    then call_next
    else if is_master election
    then call_next
    else if str_eq (master_grpc_addr election) ""
    then call_next
    else forward (forward_url path query (master_grpc_addr election))

-- The answer of `/readyz`.
pub record Readiness : Type 0 where
  pub ready : Bool
  pub cluster_id : String
  pub role : String

abbrev pub ready : Env → Option Election → Readiness
ready env election = record {
  ready = true;
  cluster_id = env.settings.cluster_id;
  role = role_of election;
}
