-- ===== src/Raft/State.antt =====
-- cnf/agent/raft.py: the state of the election, and what it reads of an endpoint.
use open_stack_cnf.Prelude.{ℕ, String, Bool, true, false, Option, none, some, if◌then◌else◌, str_eq}
use open_stack_cnf.Prelude.Int.{ℤ, pos}
use open_stack_cnf.Prelude.Text.{partition?, int_of}
use open_stack_cnf.Effect.Exceptions.{Result, ok, err, external}
use open_stack_cnf.Effect.Action.{Action, pure, modify}
use open_stack_cnf.Effect.Session.{World}

pub data NodeRole : Type 0 where
  master worker : NodeRole

-- `ElectionState`, and the fields of `RaftElection` that change.
pub record Election : Type 0 where
  pub role : NodeRole
  pub master_id : String
  pub term : ℕ
  pub last_heartbeat : ℕ
  pub lease : Option ℕ
  pub connected : Bool
  pub running : Bool

pub record Node : Type 0 where
  pub world : World
  pub election : Election
  -- the scheduler's `_is_master`, once there is a scheduler
  pub scheduler : Option Bool

-- The state after `__init__`.
abbrev pub new_election : Election
new_election = record {
  role = worker;
  master_id = "";
  term = 0;
  last_heartbeat = 0;
  lease = none;
  connected = false;
  running = false;
}

abbrev pub master_key : String
master_key = "/cnf/raft/master"

abbrev pub peers_prefix : String
peers_prefix = "/cnf/raft/peers/"

abbrev pub is_master_role : NodeRole → Bool
is_master_role master = true
is_master_role worker = false

-- `role == NodeRole.MASTER and self._lease`; the lease itself is the id that is refreshed.
abbrev pub held_lease : Election → Option ℕ
held_lease e = if is_master_role e.role then e.lease else none

abbrev pub on_node_world : {A : Type 0} → Action World A → Action Node A
on_node_world m n = let (r, w) = m n.world in (r, record n { world = w })

abbrev pub update : (Election → Election) → Action Node (Unit {0})
update f = modify (λ n. record n { election = f n.election })

-- A callback, where there is one.
abbrev pub call_back : Option (Action Node (Unit {0})) → Action Node (Unit {0})
call_back none = pure tt
call_back (some f) = f

-- The port of an endpoint: 2379 where there is none.
abbrev pub port_of : String → Result ℤ
port_of p =
    if str_eq p ""
    then ok (pos 2379)
    else elim (int_of p) [ none ↦ err (external "ValueError: port") | some n ↦ ok n ]

-- `endpoint.partition(":")`, without the separator
abbrev pub host_and_port : String → String × String
host_and_port endpoint = elim (partition? ":" endpoint) [ none ↦ (endpoint, "") | some q ↦ q ]
