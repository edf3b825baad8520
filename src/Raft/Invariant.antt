-- ===== src/Raft/Invariant.antt =====
-- cnf/agent/raft.py: what the election keeps.
use mathlib.Core.Path.{subst}
use open_stack_cnf.Prelude.{
  ℕ, zero, suc, ◌≤◌, arith, String, str_eq, Bool, true, false, not, ◌∷◌, Option, none, some,
  is_some, ◌≡◌, refl, sym, ◌∙◌, inl, inr, if◌then◌else◌,
}
use open_stack_cnf.Effect.Exceptions.{Result, ok, err}
use open_stack_cnf.Effect.Call.{metric, leader_change}
use open_stack_cnf.Effect.Laws.{Result-cases, attempt-pure-state, >>=-of-ok, >>=-of-err}
use open_stack_cnf.Effect.Env.{Env}
use open_stack_cnf.Effect.Action.{Action, pure, continue, with_state, ◌>>=◌}
use open_stack_cnf.Effect.Session.{World}
use open_stack_cnf.Effect.Trace.{
  Preorder, Keeps, Keeps-pure, Keeps-with_state, Keeps-attempt, Keeps-bind, Keeps-if,
}
use open_stack_cnf.Raft.{
  master, worker, Node, Election, on_node_world, get_client, acquire, read_master, become_master,
  lose_master, refresh, settle_race, compete, try_acquire_master, election_round, election_loop,
  call_back, update, observe, refresh_or_compete, held_lease, is_master_role, crown,
}

module _ (env : Env) where
  -- A node that is master holds a lease, and names itself as the master.
  abbrev pub IsHeld : Election → Type 0
  IsHeld e = e.role ≡ master → (is_some e.lease ≡ true) × (e.master_id ≡ env.settings.cluster_id)

  -- What the operations keep: that, and the terms only grow.
  abbrev pub election_kept : Preorder Node
  election_kept = record {
    rel = λ n n'. (IsHeld n.election → IsHeld n'.election) × (n.election.term ≤ n'.election.term);
    same = λ n. (λ h. h, omega arith);
    join = λ a b c p q. (λ h. q.0 (p.0 h), omega (arith, p.1, q.1));
  }

  Keeps-on_node_world : {A : Type 0} (m : Action World A) → Keeps election_kept (on_node_world m)
  Keeps-on_node_world m = record { at = λ n. (λ h. h, omega arith) }

  Keeps-update :
      (f : Election → Election)
      → ((e : Election) → IsHeld e → IsHeld (f e))
      → ((e : Election) → e.term ≤ (f e).term)
      → Keeps election_kept (update f)
  Keeps-update f hf ht = record { at = λ n. (hf n.election, ht n.election) }

  renamed :
      (d : Bool) (id : String) (e : Election)
      → let e' = (if d then e else record e { master_id = id }) in
        (e'.role ≡ e.role) × (e'.term ≡ e.term)
  renamed true id e = (refl, refl)
  renamed false id e = (refl, refl)

  -- A node that holds no lease is no master.
  free-ne-master : (e : Election) → IsHeld e → held_lease e ≡ none → e.role ≡ master → ⊥
  free-ne-master e h free p =
      let none_left = subst (λ r. (if is_master_role r then e.lease else none) ≡ none) p free in
      let some_left = (h p).0 in ground arith

  get_client-kept : Keeps election_kept (get_client env)
  unfolding get_client
  get_client-kept = Keeps-with_state _ λ n. Keeps-if n.election.connected _ _ (Keeps-pure tt) (
      Keeps-bind _ _ (Keeps-on_node_world _)
        λ _. Keeps-update (λ e. record e { connected = true }) (λ e h. h) (λ e. omega arith))

  module _ (on_become_master on_lose_master : Option (Action Node (Unit {0})))
      (become_kept : Keeps election_kept (call_back on_become_master))
      (lose_kept : Keeps election_kept (call_back on_lose_master)) where
    lose_master-kept : Keeps election_kept (lose_master env on_become_master on_lose_master)
    unfolding lose_master
    lose_master-kept =
        Keeps-bind _ _
          (Keeps-update (λ e. record e { role = worker; lease = none }) (λ e h p. cc)
            (λ e. omega arith))
          (λ _. lose_kept)

    refresh-kept : (id : ℕ) → Keeps election_kept (refresh env on_become_master on_lose_master id)
    unfolding refresh
    refresh-kept id =
        Keeps-attempt _ _
          (Keeps-bind _ _ (Keeps-on_node_world _) λ _. Keeps-with_state _ λ n.
            Keeps-update (λ e. record e { last_heartbeat = env.now n.world.history }) (λ e h. h)
              (λ e. omega arith))
          (λ x. lose_master-kept)

    -- The node when its callback is called.
    abbrev won : ℕ → Node → Node
    won id n = record n {
      world = record n.world { history = metric leader_change ∷ n.world.history };
      election =
          crown env on_become_master on_lose_master (env.now n.world.history)
            (record n.election { lease = some id });
    }

    -- A node that wins the race has its lease before it is master.
    won-kept :
        (id : ℕ) → Keeps election_kept (settle_race env on_become_master on_lose_master (true, id))
    unfolding settle_race become_master ◌>>=◌ with_state
    won-kept id = record {
      at = λ n.
          let crowned = won id n in
          let kept =
            Keeps-if (not (is_master_role n.election.role)) (call_back on_become_master) (pure tt)
              become_kept (Keeps-pure tt) in
          (λ h. (kept.at crowned).0 (λ _. (refl, refl)), omega (arith, (kept.at crowned).1));
    }

    -- A node that loses it was no master, so that it may take over another's name.
    observed-kept :
        (r : Result String) (n : Node)
        → held_lease n.election ≡ none
        → election_kept.rel n
            (continue r (λ seen. update (observe env on_become_master on_lose_master seen)) n).1
    observed-kept (err x) n free = (λ h. h, omega arith)
    observed-kept (ok seen) n free =
        let (role, term) = renamed (str_eq seen "") seen n.election in
        (λ h p. absurd (free-ne-master n.election h free (sym role ∙ p)), omega (arith, term))

    lost-kept :
        (id : ℕ) (n : Node)
        → held_lease n.election ≡ none
        → election_kept.rel n (settle_race env on_become_master on_lose_master (false, id) n).1
    unfolding settle_race ◌>>=◌
    lost-kept id n free =
        observed-kept (read_master env n.world).0 (on_node_world (read_master env) n).1 free

    settled-kept :
        (r : Bool × ℕ) (n : Node)
        → held_lease n.election ≡ none
        → election_kept.rel n (settle_race env on_become_master on_lose_master r n).1
    settled-kept (true, id) n free = (won-kept id).at n
    settled-kept (false, id) n free = lost-kept id n free

    compete-kept :
        (n : Node)
        → held_lease n.election ≡ none
        → election_kept.rel n (compete env on_become_master on_lose_master n).1
    unfolding compete
    compete-kept n free =
        let m = on_node_world (acquire env) in
        let f = settle_race env on_become_master on_lose_master in
        subst (election_kept.rel n) (sym (attempt-pure-state (m >>= f) tt n))
          (elim (Result-cases (m n).0) [
            | inl (r, p) ↦
                subst (λ q. election_kept.rel n q.1) (sym (>>=-of-ok m f n p))
                  (settled-kept r (m n).1 free)
            | inr (x, p) ↦
                subst (λ q. election_kept.rel n q.1) (sym (>>=-of-err m f n p))
                  (λ h. h, omega arith)
          ])

    try_acquire_master-kept :
        Keeps election_kept (try_acquire_master env on_become_master on_lose_master)
    unfolding try_acquire_master ◌>>=◌
    try_acquire_master-kept =
        Keeps-bind _ _ get_client-kept
          λ _. record { at = λ n. chosen n (held_lease n.election) refl }
      where
        chosen :
            (n : Node) (o : Option ℕ)
            → held_lease n.election ≡ o
            → election_kept.rel n (refresh_or_compete env on_become_master on_lose_master o n).1
        chosen n none p = compete-kept n p
        chosen n (some id) p = (refresh-kept id).at n

    election_round-kept : Keeps election_kept (election_round env on_become_master on_lose_master)
    unfolding election_round
    election_round-kept =
        Keeps-attempt _ _ (Keeps-bind _ _ try_acquire_master-kept λ _. Keeps-on_node_world _)
          (λ x. Keeps-on_node_world _)

    election_loop-kept :
        (k : ℕ) → Keeps election_kept (election_loop env on_become_master on_lose_master k)
    unfolding election_loop
    election_loop-kept zero = Keeps-pure tt
    election_loop-kept (suc k) =
        let rest = election_loop-kept k in
        Keeps-with_state _ λ n.
          Keeps-if n.election.running _ _ (Keeps-bind _ _ election_round-kept λ _. rest)
            (Keeps-pure tt)

-- Through any number of rounds of the election loop, with callbacks that keep it, a node that
-- considers itself master holds a lease and names its own cluster as the master, if it did so before,
-- and its term does not decrease.
pub election_loop-IsHeld :
    (env : Env) (on_become_master on_lose_master : Option (Action Node (Unit {0})))
    → Keeps (election_kept env) (call_back on_become_master)
    → Keeps (election_kept env) (call_back on_lose_master)
    → (k : ℕ) (n : Node) → IsHeld env n.election
    → IsHeld env (election_loop env on_become_master on_lose_master k n).1.election
      × (n.election.term ≤ (election_loop env on_become_master on_lose_master k n).1.election.term)
election_loop-IsHeld env become lose bk lk k n h =
    let (held, term) = (election_loop-kept env become lose bk lk k).at n in (held h, term)
