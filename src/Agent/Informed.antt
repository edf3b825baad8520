-- ===== src/Agent/Informed.antt =====
-- cnf/agent/agent.py: the scheduler's flag and the role of the node.
use mathlib.Core.Path.{subst}
use open_stack_cnf.Prelude.{
  ℕ, zero, suc, Bool, true, false, not, Option, none, some, ◌≡◌, refl, sym, ◌∙◌, ap, if◌then◌else◌,
}
use open_stack_cnf.Db.Models.{ClusterRole}
use open_stack_cnf.Effect.Call.{History}
use open_stack_cnf.Effect.Env.{Env}
use open_stack_cnf.Effect.Session.{World, with_session}
use open_stack_cnf.Effect.Action.{Action, with_state, pure, ◌>>=◌}
use open_stack_cnf.Effect.Trace.{
  Preorder, Keeps, Keeps-pure, Keeps-with_state, Keeps-attempt, Keeps-bind, Keeps-if, Keeps-gets,
  keeps_rules,
}
use open_stack_cnf.Raft.{
  NodeRole, master, worker, Node, Election, on_node_world, is_master_role, update, call_back,
  get_client, refresh, lose_master, become_master, settle_race, compete, refresh_or_compete,
  try_acquire_master, election_round, election_loop,
}
use open_stack_cnf.Agent.{told, report_role, set_role, on_become_master, on_lose_master}
use open_stack_cnf.Agent.Start.{elect}

abbrev pub IsFlag : Option Bool → Bool → Type 0
IsFlag none is_master = Unit {0}
IsFlag (some flag) is_master = flag ≡ is_master

-- The scheduler's flag, where there is a scheduler, is what the node's role says.
abbrev pub IsInformed : Node → Type 0
IsInformed n = IsFlag n.scheduler (is_master_role n.election.role)

abbrev informed : Preorder Node
informed = record {
  rel = λ n n'. IsInformed n → IsInformed n';
  same = λ n h. h;
  join = λ a b c p q h. q (p h);
}

told-IsFlag : (b : Bool) (o : Option Bool) → IsFlag (told b o) b
told-IsFlag b none = tt
told-IsFlag b (some c) = refl

Keeps-on_world : {A : Type 0} (m : Action World A) → Keeps informed (on_node_world m)
Keeps-on_world m = record { at = λ n h. h }

Keeps-same_role :
    (f : Election → Election) → ((e : Election) → (f e).role ≡ e.role) → Keeps informed (update f)
Keeps-same_role f same = record {
  at = λ n h. subst (λ r. IsFlag n.scheduler (is_master_role r)) (sym (same n.election)) h;
}

renamed :
    (d : Bool) (id : _) (e : Election)
    → (if d then e else record e { master_id = id }).role ≡ e.role
renamed true id e = refl
renamed false id e = refl

ruleset informed_rules = (keeps_rules, Keeps-on_world, Keeps-same_role)

module _ (env : Env) where
  -- The callbacks that the agent passes to its election.
  abbrev become : Option (Action Node (Unit {0}))
  become = some (on_become_master env)

  abbrev lose : Option (Action Node (Unit {0}))
  lose = some (on_lose_master env)

module _ (env : Env) (sound : (h : History) → env.db_fault h ≡ none) where
  reported :
      (r : ClusterRole) (b : Bool) (n : Node)
      → is_master_role n.election.role ≡ b
      → IsInformed (report_role env r b n).1
  unfolding report_role with_session set_role ◌>>=◌
  reported r b n p = rw (sound n.world.history, p) (told-IsFlag b n.scheduler)

  get_client-informed : Keeps informed (get_client env)
  unfolding get_client
  get_client-informed = search (informed_rules) depth 12

  lose_master-informed : Keeps informed (lose_master env (become env) (lose env))
  unfolding lose_master on_lose_master ◌>>=◌
  lose_master-informed = record {
    at = λ n h.
        reported ClusterRole.worker false
          (record n { election = record n.election { role = worker; lease = none } }) refl;
  }

  refresh-informed : (id : ℕ) → Keeps informed (refresh env (become env) (lose env) id)
  unfolding refresh
  refresh-informed id =
      Keeps-attempt _ _
        (Keeps-bind _ _ (Keeps-on_world _) λ _. Keeps-with_state _ λ n.
          Keeps-same_role (λ e. record e { last_heartbeat = env.now n.world.history }) (λ e. refl))
        (λ x. lose_master-informed)

  -- A node that wins: its callback is called if it was a worker, and a master has told already.
  crowned-IsInformed :
      (r : NodeRole) (n : Node)
      → n.election.role ≡ r
      → (c : Node) → c.election.role ≡ master
      → c.scheduler ≡ n.scheduler
      → IsInformed n
      → IsInformed ((if not (is_master_role r) then call_back (become env) else pure tt) c).1
  unfolding on_become_master
  crowned-IsInformed worker n p c q s h = reported ClusterRole.master true c (ap is_master_role q)
  crowned-IsInformed master n p c q s h =
      subst (λ o. IsFlag o (is_master_role c.election.role)) (sym s)
        (subst (λ r. IsFlag n.scheduler (is_master_role r)) (p ∙ sym q) h)

  won-informed : (id : ℕ) → Keeps informed (settle_race env (become env) (lose env) (true, id))
  unfolding settle_race become_master with_state ◌>>=◌
  won-informed id = record { at = λ n. crowned-IsInformed n.election.role n refl _ refl refl }

  settled-informed : (r : Bool × ℕ) → Keeps informed (settle_race env (become env) (lose env) r)
  unfolding settle_race
  settled-informed (true, id) = won-informed id
  settled-informed (false, id) =
      Keeps-bind _ _ (Keeps-on_world _) λ seen. Keeps-same_role _ (λ e. renamed _ seen e)

  held-informed : (o : Option ℕ) → Keeps informed (refresh_or_compete env (become env) (lose env) o)
  unfolding compete
  held-informed none =
      Keeps-attempt _ _ (Keeps-bind _ _ (Keeps-on_world _) settled-informed) (λ x. Keeps-pure tt)
  held-informed (some id) = refresh-informed id

  try_acquire_master-informed : Keeps informed (try_acquire_master env (become env) (lose env))
  unfolding try_acquire_master compete
  try_acquire_master-informed =
      Keeps-bind _ _ get_client-informed λ _. Keeps-bind _ _ (Keeps-gets _) held-informed

  elect-Keeps : (k : ℕ) → Keeps informed (elect env k)
  unfolding elect election_loop election_round
  elect-Keeps zero = Keeps-pure tt
  elect-Keeps (suc k) =
      let rest = elect-Keeps k in
      Keeps-with_state _ λ n.
        Keeps-if n.election.running _ _
          (Keeps-bind _ _
            (Keeps-attempt _ _ (Keeps-bind _ _ try_acquire_master-informed λ _. Keeps-on_world _)
              (λ x. Keeps-on_world _))
            λ _. rest)
          (Keeps-pure tt)

-- Where no session of the database fails, a node whose scheduler, if it has one, has the flag that
-- the node's role says is such a node after any number of rounds of the election with the agent's
-- callbacks, whatever etcd answers or raises in them.
pub elect-IsInformed :
    (env : Env) (k : ℕ) (n : Node)
    → ((h : History) → env.db_fault h ≡ none)
    → IsInformed n
    → IsInformed (elect env k n).1
elect-IsInformed env k n sound = (elect-Keeps env sound k).at n
