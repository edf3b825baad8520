-- ===== src/Raft/Transfer.antt =====
-- cnf/agent/raft.py: what `force_elect` changes.
use open_stack_cnf.Prelude.{
  ℕ, if◌then◌else◌, String, Bool, true, false, Option, none, some, ◌∷◌, str_eq, ◌≡◌, refl, ap, inl,
  inr,
}
use open_stack_cnf.Effect.Exceptions.{ok}
use open_stack_cnf.Effect.Env.{Env}
use open_stack_cnf.Effect.Action.{pure, with_state, ◌>>=◌, ◌>>◌}
use open_stack_cnf.Effect.Session.{World, ask}
use open_stack_cnf.Effect.Laws.{Result-cases, attempt-of-ok, attempt-of-err}
use open_stack_cnf.Effect.Call.{etcd, revoke_lease}
use open_stack_cnf.Raft.{Node, force_elect, revoke, revoke_held}

-- The world after a lease, if there is one and there is a client, was asked to be revoked.
abbrev pub revoked : Option ℕ → Bool → World → World
revoked none connected w = w
revoked (some id) false w = w
revoked (some id) true w = record w { history = etcd (revoke_lease id) ∷ w.history }

module _ (env : Env) where
  revoke_asks :
      (o : Option ℕ) (connected : Bool) (w : World)
      → revoke env o connected w ≡ (ok tt, revoked o connected w)
  unfolding revoke
  revoke_asks none c w = refl
  revoke_asks (some id) false w = refl
  revoke_asks (some id) true w =
      let asks = ask (etcd (revoke_lease id)) (λ h. env.etcd h (revoke_lease id)) in
      elim (Result-cases (asks w).0) [
        | inl (a, p) ↦ attempt-of-ok asks (λ e. pure tt) w p
        | inr (e, p) ↦ attempt-of-err asks (λ e. pure tt) w p
      ]

  transferred :
      (mine : Bool) (n : Node)
      → (if mine then revoke_held env >> pure true else pure false) n ≡ (
        ok mine,
        if mine
            then record n { world = revoked n.election.lease n.election.connected n.world }
            else n,
      )
  unfolding ◌>>=◌ with_state revoke_held
  transferred false n = refl
  transferred true n = rw (revoke_asks n.election.lease n.election.connected n.world) refl

-- `force_elect` returns true exactly where the node names itself as the master. There, where the
-- node has a lease and a client, it asks etcd once to revoke that lease, whatever is answered, and
-- in every other case it asks nothing. The node's role, its lease and its term, the tables and the
-- scheduler's flag stay as they were.
pub force_elect-election :
    (env : Env) (target : String) (n : Node)
    → let mine = str_eq n.election.master_id env.settings.cluster_id in
      ((force_elect env target n).0 ≡ ok mine)
      × ((force_elect env target n).1 ≡ (
          if mine
          then record n { world = revoked n.election.lease n.election.connected n.world }
          else n))
unfolding force_elect with_state
force_elect-election env target n =
    let e = transferred env (str_eq n.election.master_id env.settings.cluster_id) n in
    (ap (λ r. r.0) e, ap (λ r. r.1) e)
