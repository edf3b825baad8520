-- ===== src/Scheduler/Queued.antt =====
-- cnf/scheduler/scheduler.py: the migrations that a round of the scheduler queues.
use mathlib.Core.Path.{subst}
use open_stack_cnf.Prelude.{
  ℕ, String, Bool, true, false, Option, none, some, List, [], ◌∷◌, ◌≡◌, refl, sym, ap, ◌∙◌, ◌⊎◌,
  inl, inr, All, All-In, In, In-keep, if◌then◌else◌, str_eq,
}
use open_stack_cnf.Prelude.Text.{contains}
use open_stack_cnf.Prelude.Dict.{lookup, lookup-insert, rows}
use open_stack_cnf.Db.Models.{Cluster, Database, Migration, Policy, cold, live, pending}
use open_stack_cnf.Effect.Env.{Env}
use open_stack_cnf.Effect.Action.{Action, pure, gets, attempt, for_each, ◌>>=◌}
use open_stack_cnf.Effect.Session.{World, with_session}
use open_stack_cnf.Effect.Trace.{
  IsAny, Preorder, Keeps, Keeps-pure, Keeps-bind, Keeps-with_state, Keeps-if, Keeps-attempt, calls,
  with_session-db, bind_rel, attempt_result,
}
use open_stack_cnf.OpenStack.{VmDetails}
use open_stack_cnf.Scheduler.{
  ClusterSnapshot, eval_trigger, violating, candidates_of, pick_dest, rule_value, add_migration,
  queued_migration, queue_first, trigger_rebalance, rebalance, apply_policy, try_policy, evaluate,
  scheduler_round, snapshots_of, collect_snapshots, load_policies,
}
use open_stack_cnf.OpenStack.Listing.{list_vms-calls}
use open_stack_cnf.Scheduler.Choice.{pick_dest-ne-violating}
use open_stack_cnf.Scheduler.Measured.{
  measured, IsMeasured, IsApplied, measured_id, In-All, collect_snapshots-IsMeasured,
  load_policies-All,
}

-- A pending row that an enabled policy of the tables asks for: from a cluster whose measures meet the
-- policy's trigger to one whose measures do not, live if the policy's action says so.
abbrev pub IsQueued : Env → Database → Migration → Type 0
IsQueued env d m =
    (policy : Policy) × (src : Cluster) × (dst : Cluster) × In policy d.policies
    × (policy.enabled ≡ true)
    × In src (rows d.clusters)
    × In dst (rows d.clusters)
    × (eval_trigger env (rule_value "trigger" "" policy) (measured d src) ≡ true)
    × (eval_trigger env (rule_value "trigger" "" policy) (measured d dst) ≡ false)
    × (m.source_cluster_id ≡ src.id)
    × (m.dest_cluster_id ≡ dst.id)
    × (m.type ≡ (if contains "live" (rule_value "action" "" policy) then live else cold))
    × (m.state ≡ pending)
    × (m.initiated_by ≡ some "scheduler")

-- A row was there before, as it is, or is such a row of the tables `d`.
abbrev IsAccounted : Env → Database → World → String → Migration → Type 0
IsAccounted env d w id m = (lookup id w.db.migrations ≡ some m) ⊎ IsQueued env d m

module _ (env : Env) (d : Database) where
  abbrev queues : Preorder World
  queues = record {
    rel = λ w w'.
        (id : String) (m : Migration)
        → lookup id w'.db.migrations ≡ some m
        → IsAccounted env d w id m;
    same = λ w id m h. inl h;
    join = λ a b c p q id m h. elim (q id m h) [ inl r ↦ p id m r | inr z ↦ inr z ];
  }

  Keeps-calls : {A : Type 0} (m : Action World A) → Keeps (calls IsAny) m → Keeps queues m
  Keeps-calls m k = record {
    at = λ w id row h. inl (subst (λ t. lookup id t.migrations ≡ some row) (k.at w).1 h);
  }

  Keeps-read : {A : Type 0} (f : Database → A) → Keeps queues (with_session env (gets f))
  Keeps-read f = record {
    at = λ w id m.
        with_session-db env (gets f) w
          (λ t. lookup id t.migrations ≡ some m → IsAccounted env d w id m) (λ h. inl h)
          (λ h. inl h);
  }

  added :
      (b : Bool) (o : Option Migration) (r m : Migration)
      → IsQueued env d r
      → (if b then some r else o) ≡ some m
      → (o ≡ some m) ⊎ IsQueued env d m
  added false o r m q h = inl h
  added true o r m q h = let p : r ≡ m = cc in inr (subst (IsQueued env d) p q)

  Keeps-add : (r : Migration) → IsQueued env d r → Keeps queues (with_session env (add_migration r))
  Keeps-add r q = record {
    at = λ w id m.
        with_session-db env (add_migration r) w
          (λ t. lookup id t.migrations ≡ some m → IsAccounted env d w id m) (λ h. inl h)
          (λ h.
            added (str_eq r.id id) (lookup id w.db.migrations) r m q
              (sym (lookup-insert r.id id r w.db.migrations) ∙ h));
  }

  snapshots_of-Keeps : (cs : List Cluster) → Keeps queues (snapshots_of env cs)
  unfolding snapshots_of
  snapshots_of-Keeps [] = Keeps-pure []
  snapshots_of-Keeps (c ∷ cs) =
      Keeps-bind _ _ (Keeps-read _)
        λ metric. Keeps-bind _ _ (snapshots_of-Keeps cs) λ rest. Keeps-pure _

  collect_snapshots-Keeps : Keeps queues (collect_snapshots env)
  unfolding collect_snapshots
  collect_snapshots-Keeps = Keeps-bind _ _ (Keeps-read _) snapshots_of-Keeps

  load_policies-Keeps : Keeps queues (load_policies env)
  unfolding load_policies
  load_policies-Keeps = Keeps-with_state _ λ w. Keeps-read _

  -- The snapshots that meet a policy's trigger, and are measured.
  abbrev IsBad : Policy → ClusterSnapshot → Type 0
  IsBad policy s = IsMeasured d s × (eval_trigger env (rule_value "trigger" "" policy) s ≡ true)

  module _ (policy : Policy) (applied : IsApplied d policy) where
    -- What a policy queues from a measured cluster that meets its trigger to one that does not.
    row_IsQueued :
        (id : String) (now : ℕ) (vm : VmDetails) (src dst : ClusterSnapshot)
        → IsBad policy src
        → IsMeasured d dst
        → eval_trigger env (rule_value "trigger" "" policy) dst ≡ false
        → IsQueued env d
            (queued_migration id now vm src dst (contains "live" (rule_value "action" "" policy)))
    row_IsQueued id now vm src dst ((a, i, p), bad) (b, j, q) clear = (
      policy,
      a,
      b,
      applied.0,
      applied.1,
      i,
      j,
      subst (λ s. eval_trigger env (rule_value "trigger" "" policy) s ≡ true) p bad,
      subst (λ s. eval_trigger env (rule_value "trigger" "" policy) s ≡ false) q clear,
      ap (λ s. s.cluster_id) p ∙ measured_id d a,
      ap (λ s. s.cluster_id) q ∙ measured_id d b,
      refl,
      refl,
      refl,
    )

    module _ (dst : ClusterSnapshot) (there : IsMeasured d dst)
        (clear : eval_trigger env (rule_value "trigger" "" policy) dst ≡ false) where
      queue_first-Keeps :
          (src : ClusterSnapshot) (vms : List VmDetails)
          → IsBad policy src
          → Keeps queues (queue_first env src dst (rule_value "action" "" policy) vms)
      unfolding queue_first
      queue_first-Keeps src [] bad = Keeps-pure tt
      queue_first-Keeps src (vm ∷ vms) bad = Keeps-with_state _ λ w.
          Keeps-add _
            (row_IsQueued (env.uuid w.history) (env.now w.history) vm src dst bad there clear)

      trigger_rebalance-Keeps :
          (src : ClusterSnapshot)
          → IsBad policy src
          → Keeps queues (trigger_rebalance env src dst (rule_value "action" "" policy))
      unfolding trigger_rebalance
      trigger_rebalance-Keeps src bad =
          Keeps-bind _ _ (Keeps-calls _ (list_vms-calls env none))
            λ vms. queue_first-Keeps src _ bad

      sources-Keeps :
          (sources : List ClusterSnapshot)
          → All (IsBad policy) sources
          → Keeps queues (
              for_each sources
                (λ src. trigger_rebalance env src dst (rule_value "action" "" policy)))
      unfolding for_each ◌>>=◌
      sources-Keeps [] bad = Keeps-pure tt
      sources-Keeps (s ∷ sources) bad =
          Keeps-bind (trigger_rebalance env s dst (rule_value "action" "" policy))
            (λ _.
              for_each sources
                (λ src. trigger_rebalance env src dst (rule_value "action" "" policy)))
            (trigger_rebalance-Keeps s bad.0) (λ _. sources-Keeps sources bad.1)

    module _ (snapshots : List ClusterSnapshot)
        (seen : (s : ClusterSnapshot) → In s snapshots → IsMeasured d s) where
      violating-IsBad :
          All (IsBad policy) (violating env (rule_value "trigger" "" policy) snapshots)
      unfolding violating
      violating-IsBad = All-In _ _ λ s i.
          let (here, bad) =
            (In-keep (eval_trigger env (rule_value "trigger" "" policy)) s snapshots).0 i in
          (seen s here, bad)

      rebalance-Keeps :
          (cs : List ClusterSnapshot)
          → let bad = violating env (rule_value "trigger" "" policy) snapshots in
            candidates_of snapshots bad ≡ cs → Keeps queues (rebalance env policy bad cs)
      unfolding rebalance
      rebalance-Keeps [] p = Keeps-pure tt
      rebalance-Keeps (c ∷ cs) p =
          let dst = pick_dest c cs (rule_value "target" "least_loaded" policy) in
          let (here, clear) =
            pick_dest-ne-violating env (rule_value "trigger" "" policy)
              (rule_value "target" "least_loaded" policy) snapshots c cs p in
          sources-Keeps dst (seen dst here) clear
            (violating env (rule_value "trigger" "" policy) snapshots) violating-IsBad

      try_policy-Keeps : Keeps queues (try_policy env snapshots policy)
      unfolding try_policy apply_policy
      try_policy-Keeps =
          Keeps-if _ _ _
            (Keeps-attempt _ _ (Keeps-if _ _ _ (Keeps-pure tt) (rebalance-Keeps _ refl))
              (λ e. Keeps-pure tt))
            (Keeps-pure tt)

  policies-Keeps :
      (snapshots : List ClusterSnapshot)
      → ((s : ClusterSnapshot) → In s snapshots → IsMeasured d s)
      → (ps : List Policy) → All (IsApplied d) ps
      → Keeps queues (for_each ps (try_policy env snapshots))
  unfolding for_each ◌>>=◌
  policies-Keeps snapshots seen [] a = Keeps-pure tt
  policies-Keeps snapshots seen (p ∷ ps) a =
      Keeps-bind (try_policy env snapshots p) (λ _. for_each ps (try_policy env snapshots))
        (try_policy-Keeps p a.0 snapshots seen) (λ _. policies-Keeps snapshots seen ps a.1)

module _ (env : Env) where
  evaluate_queues : (w : World) → (queues env w.db).rel w (evaluate env w).1
  unfolding evaluate
  evaluate_queues w =
      bind_rel (queues env w.db) (collect_snapshots env) _ w
        ((collect_snapshots-Keeps env w.db).at w)
        λ snapshots p.
          let (seen, same) = collect_snapshots-IsMeasured env w snapshots p in
          let w' = (collect_snapshots env w).1 in
          bind_rel (queues env w.db) (load_policies env) _ w' ((load_policies-Keeps env w.db).at w')
            λ policies q.
              (policies-Keeps env w.db snapshots (In-All _ snapshots seen) policies (
                  subst (λ t. All (IsApplied t) policies) same
                    (load_policies-All env w' policies q))).at
                (load_policies env w').1

-- After a round of the scheduler each row of the migrations is one that was there before, as it was,
-- or a PENDING row of the scheduler that an enabled policy of the tables asks for: from a cluster of
-- the tables whose latest sample meets the policy's trigger, to one whose latest sample does not meet
-- it, and live if the policy's action says so.
pub scheduler_round-queues :
    (env : Env) (is_master : Bool) (w : World) (id : String) (m : Migration)
    → lookup id (scheduler_round env is_master w).1.db.migrations ≡ some m
    → (lookup id w.db.migrations ≡ some m) ⊎ IsQueued env w.db m
unfolding scheduler_round attempt
scheduler_round-queues env false w id m h = inl h
scheduler_round-queues env true w id m h =
    attempt_result {P = queues env w.db} (λ e. pure tt) (λ e. Keeps-pure tt) w (evaluate env w)
      (evaluate_queues env w) id m h
