-- ===== src/Scheduler/Measured.antt =====
-- cnf/scheduler/scheduler.py: what the snapshots and the policies of a round are in the tables.
use mathlib.Core.Path.{subst}
use open_stack_cnf.Prelude.{
  true, none, some, List, [], ◌∷◌, ◌≡◌, refl, sym, ap, ◌∙◌, inl, inr, All, All-In, In, In-keep,
}
use open_stack_cnf.Prelude.Dict.{rows}
use open_stack_cnf.Prelude.Sorting.{All-sort_by}
use open_stack_cnf.Db.Models.{Cluster, Database, Policy}
use open_stack_cnf.Effect.Exceptions.{ok}
use open_stack_cnf.Effect.Env.{Env}
use open_stack_cnf.Effect.Action.{gets, with_state}
use open_stack_cnf.Effect.Session.{World, with_session}
use open_stack_cnf.Effect.Sessions.{with_session-value}
use open_stack_cnf.Effect.Laws.{ok-injective, >>=-eq-ok}
use open_stack_cnf.Effect.Trace.{Preorder, Keeps, Keeps-pure, Keeps-bind, with_session-db}
use open_stack_cnf.Scheduler.{
  ClusterSnapshot, snapshot_of, latest_metric, snapshots_of, collect_snapshots, load_policies,
  policy_before, sort_policies, enabled_policies,
}

-- What a policy measures of a cluster: its latest sample in the tables.
abbrev pub measured : Database → Cluster → ClusterSnapshot
measured d c = snapshot_of c (latest_metric c.id d.metrics)

-- A snapshot is what is measured of a cluster of the tables.
abbrev pub IsMeasured : Database → ClusterSnapshot → Type 0
IsMeasured d s = (c : Cluster) × In c (rows d.clusters) × (s ≡ measured d c)

pub measured_id : (d : Database) (c : Cluster) → (measured d c).cluster_id ≡ c.id
measured_id d c =
    elim (latest_metric c.id d.metrics) as (λ m. (snapshot_of c m).cluster_id ≡ c.id) [
      | none ↦ refl
      | some m ↦ refl
    ]

pub In-All : {A : Type 0} (P : A → Type 0) (xs : List A) → All P xs → (a : A) → In a xs → P a
In-All P [] h a i = absurd i
In-All P (x ∷ xs) h a i = elim i [ inl e ↦ subst P (sym e) h.0 | inr j ↦ In-All P xs h.1 a j ]

-- A policy that a round may apply.
abbrev pub IsApplied : Database → Policy → Type 0
IsApplied d policy = In policy d.policies × (policy.enabled ≡ true)

-- Reads leave the tables as they are.
abbrev reads : Preorder World
reads = record { rel = λ w w'. w'.db ≡ w.db; same = λ w. refl; join = λ a b c p q. q ∙ p }

module _ (env : Env) where
  Keeps-get : {A : Type 0} (f : Database → A) → Keeps reads (with_session env (gets f))
  Keeps-get f = record { at = λ w. with_session-db env (gets f) w (λ d. d ≡ w.db) refl refl }

  snapshots_of-reads : (cs : List Cluster) → Keeps reads (snapshots_of env cs)
  unfolding snapshots_of
  snapshots_of-reads [] = Keeps-pure []
  snapshots_of-reads (c ∷ cs) =
      Keeps-bind _ _ (Keeps-get _)
        λ metric. Keeps-bind _ _ (snapshots_of-reads cs) λ rest. Keeps-pure _

  -- The snapshots that are collected are measures of clusters of the tables.
  snapshots_of-IsMeasured :
      (d : Database) (cs : List Cluster) (w : World) (ss : List ClusterSnapshot)
      → w.db ≡ d
      → All (λ c. In c (rows d.clusters)) cs
      → (snapshots_of env cs w).0 ≡ ok ss
      → All (IsMeasured d) ss
  unfolding snapshots_of
  snapshots_of-IsMeasured d [] w ss same here h = subst (All (IsMeasured d)) (ok-injective h) tt
  snapshots_of-IsMeasured d (c ∷ cs) w ss same here h =
      let latest = with_session env (gets (λ t. latest_metric c.id t.metrics)) in
      let (metric, p, h1) = >>=-eq-ok latest _ w h in
      let (rest, q, h2) = >>=-eq-ok (snapshots_of env cs) _ (latest w).1 h1 in
      let (_, value) = with_session-value env _ w p in
      let newest : latest_metric c.id d.metrics ≡ metric =
        ap (λ t. latest_metric c.id t.metrics) (sym same) ∙ ok-injective value in
      let later = (Keeps-get (λ t. latest_metric c.id t.metrics)).at w ∙ same in
      subst (All (IsMeasured d)) (ok-injective h2) (
        (c, here.0, ap (snapshot_of c) (sym newest)),
        snapshots_of-IsMeasured d cs (latest w).1 rest later here.1 q,
      )

  pub collect_snapshots-IsMeasured :
      (w : World) (ss : List ClusterSnapshot)
      → (collect_snapshots env w).0 ≡ ok ss
      → All (IsMeasured w.db) ss × ((collect_snapshots env w).1.db ≡ w.db)
  unfolding collect_snapshots
  collect_snapshots-IsMeasured w ss h =
      let read = with_session env (gets (λ d. rows d.clusters)) in
      let (cs, p, h1) = >>=-eq-ok read _ w h in
      let (_, value) = with_session-value env _ w p in
      let here =
        subst (All (λ c. In c (rows w.db.clusters))) (ok-injective value)
          (All-In _ (rows w.db.clusters) (λ c i. i)) in
      (
        snapshots_of-IsMeasured w.db cs (read w).1 ss ((Keeps-get _).at w) here h1,
        (Keeps-bind _ _ (Keeps-get (λ d. rows d.clusters)) snapshots_of-reads).at w,
      )

  pub load_policies-All :
      (w : World) (ps : List Policy) → (load_policies env w).0 ≡ ok ps → All (IsApplied w.db) ps
  unfolding load_policies with_state sort_policies
  load_policies-All w ps h =
      let (_, p) = with_session-value env _ w h in
      subst (All (IsApplied w.db)) (ok-injective p) (
        All-sort_by (policy_before (env.first w.history)) _ (enabled_policies w.db.policies)
          (All-In _ _ λ q i. (In-keep (λ r. r.enabled) q w.db.policies).0 i))
