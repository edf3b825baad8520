-- ===== src/Raft.antt =====
-- cnf/agent/raft.py: the election of a master by a lease in etcd. A `Node` is the election object
-- with the world and the scheduler's flag, which the callbacks of the agent change.
pub mod Invariant
pub mod Transfer
mod State
unfoldable pub use State.*
use open_stack_cnf.Prelude.{
  ℕ, zero, suc, ◌+◌, String, ◌⧺◌, Bool, true, false, not, Option, none, some, List, [], ◌∷◌,
  if◌then◌else◌, str_eq,
}
use open_stack_cnf.Prelude.Dict.{Dict, insert}
use open_stack_cnf.Prelude.Text.{remove_prefix}
use open_stack_cnf.Effect.Exceptions.{external}
use open_stack_cnf.Effect.Call.{
  etcd, connect, lease, put_if_absent, get_key, put_key, refresh_lease, revoke_lease, get_prefix,
  sleep, sleep_ms, metric, leader_change,
}
use open_stack_cnf.Effect.Env.{Env}
use open_stack_cnf.Effect.Action.{
  Action, pure, with_state, raise, lift, gets, attempt, when, ◌>>=◌, ◌>>◌,
}
use open_stack_cnf.Effect.Session.{World, ask, tell}

module _ (env : Env) where
  abbrev connect_to : List String → Action World (Unit {0})
  connect_to [] = raise (external "IndexError: etcd_endpoints")
  connect_to (endpoint ∷ _) = lift (port_of (host_and_port endpoint).1) >>= λ p.
      ask (etcd (connect (host_and_port endpoint).0 p))
        (λ h. env.etcd h (connect (host_and_port endpoint).0 p))

  -- `_get_client`: the client is made once.
  unfoldable pub get_client : Action Node (Unit {0})
  get_client = with_state λ n.
      if n.election.connected
      then pure tt
      else on_node_world (connect_to env.settings.raft.etcd_endpoints)
        >> update (λ e. record e { connected = true })

  -- `_register_peer`
  unfoldable pub register_peer : Action Node (Unit {0})
  register_peer = do
    get_client
    let c = put_key (peers_prefix ⧺ env.settings.cluster_id) env.settings.cluster_grpc_addr
    on_node_world (ask (etcd c) (λ h. env.etcd h c))

  -- `_acquire`: a lease, and the transaction that puts the key if nobody has.
  unfoldable pub acquire : Action World (Bool × ℕ)
  acquire = do
    let ttl = env.settings.raft.lease_ttl_seconds
    id ← ask (etcd (lease ttl)) (λ h. env.new_lease h ttl)
    let c = put_if_absent master_key env.settings.cluster_id id
    success ← ask (etcd c) (λ h. env.put_if_absent h c)
    pure (success, id)

  abbrev pub text_or_blank : Option String → String
  text_or_blank none = ""
  text_or_blank (some s) = s

  -- `_read_master`
  unfoldable pub read_master : Action World String
  read_master = do
    val ← ask (etcd (get_key master_key)) (λ h. env.key_value h master_key)
    pure (text_or_blank val)

  -- `_revoke_lease`: it needs a lease and a client, and what raises is passed over.
  unfoldable pub revoke : Option ℕ → Bool → Action World (Unit {0})
  revoke none connected = pure tt
  revoke (some id) connected =
      when connected
        (attempt (ask (etcd (revoke_lease id)) (λ h. env.etcd h (revoke_lease id))) (λ e. pure tt))

  unfoldable pub revoke_held : Action Node (Unit {0})
  revoke_held = with_state λ n. on_node_world (revoke n.election.lease n.election.connected)

  module _ (on_become_master on_lose_master : Option (Action Node (Unit {0}))) where
    -- The fields that `_on_become_master` sets.
    abbrev pub crown : ℕ → Election → Election
    crown now e = record e {
      role = master;
      master_id = env.settings.cluster_id;
      term = e.term + 1;
      last_heartbeat = now;
    }

    -- `_on_become_master`
    unfoldable pub become_master : Action Node (Unit {0})
    become_master = do
      prev ← gets (λ n. n.election.role)
      with_state λ n. update (crown (env.now n.world.history))
      on_node_world (tell (metric leader_change))
      when (not (is_master_role prev)) (call_back on_become_master)

    -- `_on_lose_master`
    unfoldable pub lose_master : Action Node (Unit {0})
    lose_master = do
      update (λ e. record e { role = worker; lease = none })
      call_back on_lose_master

    -- The branch of `_try_acquire_master` that refreshes.
    unfoldable pub refresh : ℕ → Action Node (Unit {0})
    refresh id =
        attempt
          (do
            on_node_world (ask (etcd (refresh_lease id)) (λ h. env.etcd h (refresh_lease id)))
            with_state λ n. update (λ e. record e { last_heartbeat = env.now n.world.history }))
          (λ e. lose_master)

    -- What a node that lost the race takes over: a master's name, if it is new.
    abbrev observe : String → Election → Election
    observe id e = if str_eq id "" then e else record e { master_id = id }

    -- The rest of the other branch, after the transaction.
    unfoldable pub settle_race : Bool × ℕ → Action Node (Unit {0})
    settle_race (true, id) = do update (λ e. record e { lease = some id }); become_master
    settle_race (false, id) = do seen ← on_node_world read_master; update (observe seen)

    -- The branch of `_try_acquire_master` that competes.
    unfoldable pub compete : Action Node (Unit {0})
    compete = attempt (on_node_world acquire >>= settle_race) (λ e. pure tt)

    abbrev pub refresh_or_compete : Option ℕ → Action Node (Unit {0})
    refresh_or_compete none = compete
    refresh_or_compete (some id) = refresh id

    -- `_try_acquire_master`
    unfoldable pub try_acquire_master : Action Node (Unit {0})
    unfolding refresh compete
    try_acquire_master = do
      get_client
      held ← gets (λ n. held_lease n.election)
      refresh_or_compete held

    -- One round of `_election_loop`.
    unfoldable pub election_round : Action Node (Unit {0})
    election_round =
        attempt
          (do
            try_acquire_master
            on_node_world (tell (sleep_ms env.settings.raft.heartbeat_interval_ms)))
          (λ e. on_node_world (tell (sleep 2)))

    -- `_election_loop`, for the rounds that are made before the task is cancelled.
    unfoldable pub election_loop : ℕ → Action Node (Unit {0})
    election_loop zero = pure tt
    election_loop (suc k) =
        let rest = election_round >> election_loop k in
        with_state λ n. if n.election.running then rest else pure tt

  -- `start`, up to the creation of the loop's task.
  unfoldable pub start : Action Node (Unit {0})
  start = do update (λ e. record e { running = true }); register_peer

  -- `stop`, once the loop's task has ended.
  unfoldable pub stop : Action Node (Unit {0})
  stop = do update (λ e. record e { running = false }); revoke_held

  -- The loop of `get_peers`: a later entry replaces an earlier one.
  unfoldable pub peers_of : Dict String → List (String × String) → Dict String
  unfolding insert
  peers_of acc [] = acc
  peers_of acc ((value, key) ∷ rest) =
      peers_of (insert (remove_prefix key peers_prefix) value acc) rest

  -- `get_peers`
  unfoldable pub get_peers : Action Node (Dict String)
  get_peers = do
    get_client
    entries ← on_node_world (ask (etcd (get_prefix peers_prefix)) (λ h. env.entries h peers_prefix))
    pure (peers_of [] entries)

  -- `force_elect`; the target is only logged.
  unfoldable pub force_elect : String → Action Node Bool
  force_elect target = with_state λ n.
      if str_eq n.election.master_id env.settings.cluster_id
      then revoke_held >> pure true
      else pure false
