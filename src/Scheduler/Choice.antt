-- ===== src/Scheduler/Choice.antt =====
-- cnf/scheduler/scheduler.py: the destination that a policy chooses.
use mathlib.Core.Path.{subst}
use text.Mathlib.TextPositions.{eq_refl}
use open_stack_cnf.Prelude.{
  ℕ, ◌≤◌, arith, String, Bool, true, false, not, ◌||◌, List, [], ◌∷◌, ◌≡◌, refl, sym, ltb, ◌==◌,
  if◌then◌else◌, str_eq, any, In, In-keep, Bool-cases, inl, inr,
}
use open_stack_cnf.Effect.Env.{Env}
use open_stack_cnf.Scheduler.{
  ClusterSnapshot, least_from, load, pick_dest, candidates_of, violating, eval_trigger,
  same_snapshot, is_among,
}

module _ (key : ClusterSnapshot → ℕ) (b c : ClusterSnapshot) where
  abbrev lesser : ClusterSnapshot
  lesser = if ltb (key c) (key b) then c else b

  choice-In :
      (d : Bool) (r : ClusterSnapshot) (cs : List ClusterSnapshot)
      → In r ((if d then c else b) ∷ cs)
      → In r (b ∷ c ∷ cs)
  choice-In true r cs (inl p) = inr (inl p)
  choice-In true r cs (inr i) = inr (inr i)
  choice-In false r cs (inl p) = inl p
  choice-In false r cs (inr i) = inr (inr i)

  lesser-le : (key lesser ≤ key b) × (key lesser ≤ key c)
  lesser-le = elim (Bool-cases (ltb (key c) (key b))) [
    | inl p ↦ rw p (ground arith, ground arith)
    | inr p ↦ rw p (ground arith, ground arith)
  ]

module _ (key : ClusterSnapshot → ℕ) where
  least_from-In :
      (b : ClusterSnapshot) (cs : List ClusterSnapshot) → In (least_from key b cs) (b ∷ cs)
  unfolding least_from
  least_from-In b [] = inl refl
  least_from-In b (c ∷ cs) =
      choice-In key b c (ltb (key c) (key b)) _ cs (least_from-In (lesser key b c) cs)

  least_from-le :
      (b : ClusterSnapshot) (cs : List ClusterSnapshot)
      → (key (least_from key b cs) ≤ key b)
        × ((x : ClusterSnapshot) → In x cs → key (least_from key b cs) ≤ key x)
  unfolding least_from
  least_from-le b [] = (omega arith, λ x i. absurd i)
  least_from-le b (c ∷ cs) =
      let (le, all) = least_from-le (lesser key b c) cs in
      let (leb, lec) = lesser-le key b c in
      (
        omega (arith, le, leb),
        λ x i. elim i [
          | inl p ↦
              subst (λ y. key (least_from key b (c ∷ cs)) ≤ key y) (sym p) (omega (arith, le, lec))
          | inr j ↦ all x j
        ],
      )

  least_from-least :
      (b : ClusterSnapshot) (cs : List ClusterSnapshot) (x : ClusterSnapshot)
      → In x (b ∷ cs)
      → key (least_from key b cs) ≤ key x
  least_from-least b cs x (inl p) =
      subst (λ y. key (least_from key b cs) ≤ key y) (sym p) (least_from-le b cs).0
  least_from-least b cs x (inr i) = (least_from-le b cs).1 x i

-- The destination is one of the candidates, whatever the strategy. No candidate has a lower sum of
-- CPU and RAM use under the strategy "least_loaded", and none has fewer machines under "least_vms".
pub pick_dest-least :
    (c : ClusterSnapshot) (cs : List ClusterSnapshot)
    → ((strategy : String) → In (pick_dest c cs strategy) (c ∷ cs))
      × ((x : ClusterSnapshot) → In x (c ∷ cs) → load (pick_dest c cs "least_loaded") ≤ load x)
      × ((x : ClusterSnapshot) → In x (c ∷ cs) → (pick_dest c cs "least_vms").vm_count ≤ x.vm_count)
unfolding pick_dest
pick_dest-least c cs = (
  λ strategy. chosen (str_eq strategy "least_loaded") (str_eq strategy "least_vms"),
  least_from-least load c cs,
  least_from-least (λ s. s.vm_count) c cs,
)
  where
    chosen :
        (d e : Bool)
        → In
            (if d then least_from load c cs else if e then least_from (λ s. s.vm_count) c cs else c)
            (c ∷ cs)
    chosen true e = least_from-In load c cs
    chosen false true = least_from-In (λ s. s.vm_count) c cs
    chosen false false = inl refl

eq_refl_ℕ : (n : ℕ) → (n == n) ≡ true
eq_refl_ℕ n = ground arith

same_snapshot_refl : (s : ClusterSnapshot) → same_snapshot s s ≡ true
same_snapshot_refl s = simp (eq_refl, eq_refl_ℕ)

In-is_among : (s : ClusterSnapshot) (l : List ClusterSnapshot) → In s l → is_among s l ≡ true
unfolding any
In-is_among s [] i = absurd i
In-is_among s (x ∷ xs) (inl p) =
    subst (λ y. (same_snapshot s y || is_among s xs) ≡ true) p (rw (same_snapshot_refl s) refl)
In-is_among s (x ∷ xs) (inr i) = or_true (same_snapshot s x) (In-is_among s xs i)
  where
    or_true : (a : Bool) {b : Bool} → b ≡ true → (a || b) ≡ true
    or_true true h = refl
    or_true false h = h

-- A policy moves machines to a cluster that is among the snapshots and does not itself meet the
-- policy's trigger: this holds of the destination that is picked from the candidates by any strategy.
pub pick_dest-ne-violating :
    (env : Env) (trigger strategy : String) (snapshots : List ClusterSnapshot) (c : ClusterSnapshot)
    (cs : List ClusterSnapshot)
    → candidates_of snapshots (violating env trigger snapshots) ≡ (c ∷ cs)
    → In (pick_dest c cs strategy) snapshots
      × (eval_trigger env trigger (pick_dest c cs strategy) ≡ false)
unfolding candidates_of violating
pick_dest-ne-violating env trigger strategy snapshots c cs h =
    let dst = pick_dest c cs strategy in
    let bad = violating env trigger snapshots in
    let (here, clear) =
      (In-keep (λ s. not (is_among s bad)) dst snapshots).0
        (subst (In dst) (sym h) ((pick_dest-least c cs).0 strategy)) in
    (
      here,
      elim (Bool-cases (eval_trigger env trigger dst)) [
        | inl bad_dst ↦ absurd (
            ne
              (In-is_among dst bad
                ((In-keep (eval_trigger env trigger) dst snapshots).1 (here, bad_dst)))
              clear)
        | inr good ↦ good
      ],
    )
  where
    ne : {b : Bool} → b ≡ true → not b ≡ true → ⊥
    ne p q = ground arith
