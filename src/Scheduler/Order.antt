-- ===== src/Scheduler/Order.antt =====
-- cnf/scheduler/scheduler.py: the policies that are loaded, and their order.
use mathlib.Core.Path.{subst}
use mathlib.Core.List.{Permᴰ}
use open_stack_cnf.Prelude.{String, Bool, true, false, ◌≤◌, ◌≡◌, arith, List}
use open_stack_cnf.Prelude.Sorting.{sort_by-IsSorted, sort_by-Permᴰ, IsSorted}
use open_stack_cnf.Db.Models.{Policy}
use open_stack_cnf.Effect.Exceptions.{ok}
use open_stack_cnf.Effect.Env.{Env}
use open_stack_cnf.Effect.Action.{with_state}
use open_stack_cnf.Effect.Session.{World}
use open_stack_cnf.Effect.Sessions.{with_session-value}
use open_stack_cnf.Effect.Laws.{ok-injective}
use open_stack_cnf.Scheduler.{policy_before, sort_policies, enabled_policies, load_policies}

-- One policy may be evaluated before another.
abbrev pub IsNoLater : Policy → Policy → Type 0
IsNoLater p q = p.priority ≤ q.priority

before-IsNoLater :
    (first : String → String → Bool) (p q : Policy) → policy_before first p q ≡ true → IsNoLater p q
before-IsNoLater first p q h = ground arith

after-IsNoLater :
    (first : String → String → Bool) (p q : Policy)
    → policy_before first p q ≡ false
    → IsNoLater q p
after-IsNoLater first p q h = ground arith

-- What a sorted list of policies has.
abbrev IsOrdered : List Policy → List Policy → Type 0
IsOrdered all ps = IsSorted IsNoLater ps × Permᴰ ps (enabled_policies all)

sort_policies-IsOrdered :
    (first : String → String → Bool) (all : List Policy)
    → IsOrdered all (sort_policies first (enabled_policies all))
unfolding sort_policies
sort_policies-IsOrdered first all = (
  sort_by-IsSorted IsNoLater (policy_before first) (λ p q r h k. omega (arith, h, k))
      (before-IsNoLater first) (after-IsNoLater first) (enabled_policies all),
  sort_by-Permᴰ (policy_before first) (enabled_policies all),
)

-- The policies that are loaded are the enabled ones of the table, none lost and none twice, and no
-- policy stands behind one with a higher number for its priority. In which order policies of the same
-- priority stand is up to the database.
pub load_policies-IsSorted :
    (env : Env) (w : World) (ps : List Policy)
    → (load_policies env w).0 ≡ ok ps
    → IsSorted IsNoLater ps × Permᴰ ps (enabled_policies w.db.policies)
unfolding load_policies with_state
load_policies-IsSorted env w ps h =
    let (_, p) = with_session-value env _ w h in
    subst (IsOrdered w.db.policies) (ok-injective p)
      (sort_policies-IsOrdered (env.first w.history) w.db.policies)
