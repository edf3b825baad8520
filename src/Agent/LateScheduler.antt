-- ===== src/Agent/LateScheduler.antt =====
-- cnf/agent/agent.py: a node that becomes the master before its scheduler is there.
use mathlib.Core.Path.{subst}
use open_stack_cnf.Prelude.{◌∷◌, ℕ, zero, suc, String, true, false, some, ◌≡◌, refl, sym, ◌∙◌, ap}
use open_stack_cnf.Effect.Exceptions.{ok}
use open_stack_cnf.Effect.Call.{History, Etcd, etcd, refresh_lease, sleep_ms}
use open_stack_cnf.Effect.Env.{Env}
use open_stack_cnf.Effect.Action.{with_state, attempt, ◌>>=◌}
use open_stack_cnf.Effect.Laws.{>>=-of-ok, >>=-eq-ok}
use open_stack_cnf.Effect.Session.{World}
use open_stack_cnf.Raft.{
  Node, on_node_world, Election, held_lease, master, worker, election_round, election_loop,
  try_acquire_master, get_client, refresh, is_master_role,
}
use open_stack_cnf.Agent
use open_stack_cnf.Agent.{upsert_self_cluster}
use open_stack_cnf.Raft
use open_stack_cnf.Agent.Start.{elect, start, create_scheduler}

-- A master with its lease whose scheduler does not know of it.
abbrev held_node : World → String → ℕ → ℕ → ℕ → Node
held_node w id term beat lease = record {
  world = w;
  election = record {
    role = master;
    master_id = id;
    term = term;
    last_heartbeat = beat;
    lease = some lease;
    connected = true;
    running = true;
  };
  scheduler = some false;
}

abbrev IsLate : Node → Type 0
IsLate n =
    (w : World) × (id : String) × (term : ℕ) × (beat : ℕ) × (lease : ℕ) × (n
      ≡ held_node w id term beat lease)

module _ (env : Env) (sound : (h : History) (c : Etcd) → env.etcd h c ≡ ok tt) where
  round_held :
      (w : World) (id : String) (term beat lease : ℕ)
      → let h = etcd (refresh_lease lease) ∷ w.history in
        election_round env
          (some (Agent.on_become_master env))
          (some (Agent.on_lose_master env))
          (held_node w id term beat lease)
        ≡ (
          ok tt,
          held_node
              (record w { history = sleep_ms env.settings.raft.heartbeat_interval_ms ∷ h })
              id
              term
              (env.now h)
              lease,
        )
  unfolding election_round try_acquire_master get_client refresh attempt with_state ◌>>=◌
  round_held w id term beat lease = simp sound refl

  elect_held :
      (j : ℕ) (w : World) (id : String) (term beat lease : ℕ)
      → IsLate (elect env j (held_node w id term beat lease)).1
  unfolding elect election_loop with_state
  elect_held zero w id term beat lease = (w, id, term, beat, lease, refl)
  elect_held (suc j) w id term beat lease =
      let h = etcd (refresh_lease lease) ∷ w.history in
      let w' = record w { history = sleep_ms env.settings.raft.heartbeat_interval_ms ∷ h } in
      let p = round_held w id term beat lease in
      let round =
        election_round env (some (Agent.on_become_master env)) (some (Agent.on_lose_master env)) in
      let q =
        >>=-of-ok round (λ _. elect env j) (held_node w id term beat lease) (ap (λ r. r.0) p)
        ∙ ap (λ r. elect env j r.1) p in
      subst IsLate (ap (λ r. r.1) (sym q)) (elect_held j w' id term (env.now h) lease)

  started_scheduler :
      (k : ℕ) (n : Node) → (start env k n).0 ≡ ok tt → (start env k n).1.scheduler ≡ some false
  unfolding start
  started_scheduler k n h =
      let register = on_node_world (upsert_self_cluster env) in
      let (_, p, h1) = >>=-eq-ok register _ n h in
      let (_, q, h2) = >>=-eq-ok (Raft.start env) _ _ h1 in
      let (_, r, h3) = >>=-eq-ok (elect env k) _ _ h2 in
      ap (λ x. x.1.scheduler)
        (>>=-of-ok register _ n p
          ∙ >>=-of-ok (Raft.start env) _ _ q
          ∙ >>=-of-ok (elect env k) (λ _. create_scheduler) _ r)

  -- Where etcd fails no call, an agent whose node is the master when its start ends, having won the
  -- election while its servers started, stays the master through any number of further rounds, and
  -- its scheduler is never told: its flag stays False.
  pub start-late_scheduler :
      (k j lease : ℕ) (n : Node)
      → (start env k n).0 ≡ ok tt
      → let n' = (start env k n).1 in
        n'.election.role ≡ master
        → n'.election.lease ≡ some lease
        → n'.election.connected ≡ true
        → n'.election.running ≡ true
        → ((elect env j n').1.election.role ≡ master) × ((elect env j n').1.scheduler ≡ some false)
  start-late_scheduler k j lease n h r l c g =
      let n' = (start env k n).1 in
      let e = n'.election in
      let p : held_node n'.world e.master_id e.term e.last_heartbeat lease ≡ n' = λ i. record {
        world = n'.world;
        election = record {
          role = sym r i;
          master_id = e.master_id;
          term = e.term;
          last_heartbeat = e.last_heartbeat;
          lease = sym l i;
          connected = sym c i;
          running = sym g i;
        };
        scheduler = sym (started_scheduler k n h) i;
      } in
      let (_, _, _, _, _, q) =
        subst (λ x. IsLate (elect env j x).1) p
          (elect_held j n'.world e.master_id e.term e.last_heartbeat lease) in
      (ap (λ x. x.election.role) q, ap (λ x. x.scheduler) q)
