-- ===== src/Agent/Snapshot.antt =====
-- cnf/agent/agent.py and cnf/scheduler/scheduler.py: a sample that the agent stores is the one that
-- the scheduler reads.
use mathlib.Core.Path.{subst}
use open_stack_cnf.Prelude.{
  ℕ, ◌<◌, arith, String, Bool, true, Option, none, some, List, [], ◌∷◌, ◌++◌, ltb, keep, ◌≡◌, refl,
  ◌∙◌, ap, inl, inr, In, In-keep, Bool-cases, str_eq, eq_iff,
}
use open_stack_cnf.Db.Models.{ClusterMetric}
use open_stack_cnf.Effect.Exceptions.{ok}
use open_stack_cnf.Effect.Call.{source}
use open_stack_cnf.Effect.Env.{Env}
use open_stack_cnf.Effect.Action.{◌>>=◌, with_state}
use open_stack_cnf.Effect.Laws.{>>=-eq-ok, >>=-of-ok}
use open_stack_cnf.Effect.Session.{World}
use open_stack_cnf.Effect.Trace.{Keeps, calls, calls_rules}
use open_stack_cnf.Migration.Row.{with_session-of-ok}
use open_stack_cnf.OpenStack
use open_stack_cnf.OpenStack.{ClusterMetrics}
use open_stack_cnf.Scheduler.{latest_metric, latest_from, later_of}
use open_stack_cnf.Agent.Metrics.{own_metric, store_metric, set_gauges, collect, add_metric}

keep-snoc :
    {A : Type 0} (p : A → Bool) (xs : List A) (a : A)
    → p a ≡ true
    → keep p (xs ++ (a ∷ [])) ≡ keep p xs ++ (a ∷ [])
unfolding keep
keep-snoc p [] a h = rw h refl
keep-snoc p (x ∷ xs) a h = rw (keep-snoc p xs a h) (ground (arith))

latest_from-snoc :
    (best : Option ClusterMetric) (ms : List ClusterMetric) (m : ClusterMetric)
    → latest_from best (ms ++ (m ∷ [])) ≡ later_of (latest_from best ms) m
unfolding latest_from
latest_from-snoc best [] m = refl
latest_from-snoc best (x ∷ ms) m = latest_from-snoc (later_of best x) ms m

-- Every row of the latest ones was collected before `now`.
abbrev IsBefore : ℕ → Option ClusterMetric → Type 0
IsBefore now none = Unit
IsBefore now (some m) = m.collected_at < now

later-IsBefore :
    (now : ℕ) (best : Option ClusterMetric) (m : ClusterMetric)
    → IsBefore now best
    → m.collected_at < now
    → IsBefore now (later_of best m)
later-IsBefore now none m hb hm = hm
later-IsBefore now (some b) m hb hm = elim (Bool-cases (ltb b.collected_at m.collected_at)) [
  | inl h ↦ rw h hm
  | inr h ↦ rw h hb
]

latest-IsBefore :
    (now : ℕ) (best : Option ClusterMetric) (ms : List ClusterMetric)
    → IsBefore now best
    → ((m : ClusterMetric) → In m ms → m.collected_at < now)
    → IsBefore now (latest_from best ms)
unfolding latest_from
latest-IsBefore now best [] hb h = hb
latest-IsBefore now best (m ∷ ms) hb h =
    latest-IsBefore now (later_of best m) ms (later-IsBefore now best m hb (h m (inl refl)))
      (λ x i. h x (inr i))

later-of-IsBefore :
    (best : Option ClusterMetric) (m : ClusterMetric)
    → IsBefore m.collected_at best
    → later_of best m ≡ some m
later-of-IsBefore none m h = refl
later-of-IsBefore (some b) m h = ground arith

-- The latest row of a cluster, when one is added that was collected after its others.
latest_metric-snoc :
    (id : String) (ms : List ClusterMetric) (m : ClusterMetric)
    → m.cluster_id ≡ id
    → ((x : ClusterMetric) → In x ms → x.cluster_id ≡ id → x.collected_at < m.collected_at)
    → latest_metric id (ms ++ (m ∷ [])) ≡ some m
unfolding latest_metric
latest_metric-snoc id ms m own before =
    let p = λ (x : ClusterMetric). str_eq x.cluster_id id in
    ap (latest_from none) (keep-snoc p ms m ((eq_iff m.cluster_id id).1 own))
    ∙ latest_from-snoc none (keep p ms) m
    ∙ later-of-IsBefore (latest_from none (keep p ms)) m (
        latest-IsBefore m.collected_at none (keep p ms) tt
          (λ x i. let (j, t) = (In-keep p x ms).0 i in before x j ((eq_iff x.cluster_id id).0 t)))

get_cluster_metrics-db :
    (env : Env) (w : World) → (OpenStack.get_cluster_metrics env source w).1.db ≡ w.db
unfolding OpenStack.get_cluster_metrics OpenStack.fetch_texts
get_cluster_metrics-db env w =
    let k : Keeps (calls (λ _. Unit {0})) (OpenStack.get_cluster_metrics env source) =
      search calls_rules depth 10 in
    (k.at w).1

set_gauges-db : (env : Env) (raw : ClusterMetrics) (w : World) → (set_gauges env raw w).1.db ≡ w.db
unfolding set_gauges ◌>>=◌
set_gauges-db env raw w = refl

-- When a sample is stored, and all rows of the node's own cluster were collected before, the sample
-- is the latest row of the cluster, which the scheduler's snapshots and the API read.
pub collect-latest :
    (env : Env) (w : World)
    → (collect env w).0 ≡ ok tt
    → let w' = (OpenStack.get_cluster_metrics env source w).1 in
      let id = env.settings.cluster_id in
      ((m : ClusterMetric)
        → In m w.db.metrics
        → m.cluster_id ≡ id
        → m.collected_at < env.now w'.history)
      → (raw : ClusterMetrics) × ((OpenStack.get_cluster_metrics env source w).0 ≡ ok raw)
        × (latest_metric id (collect env w).1.db.metrics
            ≡ some (own_metric env (env.now w'.history) raw))
unfolding collect store_metric with_state
collect-latest env w h before =
    let get = OpenStack.get_cluster_metrics env source in
    let (raw, p, q) = >>=-eq-ok get _ w h in
    let w' = (get w).1 in
    let m = own_metric env (env.now w'.history) raw in
    let (_, p', q') = >>=-eq-ok (store_metric env raw) _ w' q in
    (
      raw,
      p,
      ap (λ r. latest_metric env.settings.cluster_id r.1.db.metrics) (>>=-of-ok get _ w p)
          ∙ ap (λ r. latest_metric env.settings.cluster_id r.1.db.metrics)
              (>>=-of-ok (store_metric env raw) _ w' p')
          ∙ ap (λ d. latest_metric env.settings.cluster_id d.metrics)
              (set_gauges-db env raw (store_metric env raw w').1)
          ∙ ap (λ d. latest_metric env.settings.cluster_id d.metrics)
              (with_session-of-ok env (add_metric m) w' p')
          ∙ latest_metric-snoc env.settings.cluster_id w'.db.metrics m refl
              (λ x i. before x (subst (λ d. In x d.metrics) (get_cluster_metrics-db env w) i)),
    )
