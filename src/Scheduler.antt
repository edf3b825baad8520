-- ===== src/Scheduler.antt =====
-- cnf/scheduler/scheduler.py: the policies, and the migrations that they trigger. Percentages are
-- in hundredths. `Queries` has its reads of the database.
mod Queries
pub mod Choice
pub mod Order
pub mod Running
pub mod Mastery
pub mod Measured
pub mod Queued
unfoldable pub use Queries.*
use open_stack_cnf.Prelude.{
  ℕ, ◌+◌, String, Bool, false, not, ◌&&◌, none, some, List, [], ◌∷◌, ltb, ◌==◌, if◌then◌else◌,
  str_eq, keep, any, is_empty,
}
use open_stack_cnf.Prelude.Dict.{lookup, insert}
use open_stack_cnf.Prelude.Text.{contains}
use open_stack_cnf.Prelude.Percent.{whole}
use open_stack_cnf.Db.Models.{Database, Migration, Policy, cold, live, pending}
use open_stack_cnf.Effect.Exceptions.{ok, err}
use open_stack_cnf.Effect.Call.{source}
use open_stack_cnf.Effect.Env.{Env}
use open_stack_cnf.Effect.Action.{◌>>=◌, ◌>>◌, Action, pure, with_state, attempt, for_each}
use open_stack_cnf.Effect.Session.{World, with_session}
use open_stack_cnf.OpenStack
use open_stack_cnf.OpenStack.{VmDetails}

-- Equality of the fields, which a dataclass has.
abbrev pub same_snapshot : ClusterSnapshot → ClusterSnapshot → Bool
same_snapshot a b =
    str_eq a.cluster_id b.cluster_id
    && (str_eq a.cluster_name b.cluster_name
        && (str_eq a.grpc_addr b.grpc_addr
            && (a.cpu_used_pct == b.cpu_used_pct
                && (a.ram_used_pct == b.ram_used_pct
                    && (a.disk_used_pct == b.disk_used_pct && a.vm_count == b.vm_count)))))

-- `s in snapshots`
abbrev pub is_among : ClusterSnapshot → List ClusterSnapshot → Bool
unfolding any
is_among s = any (same_snapshot s)

-- `[s for s in snapshots if s not in violating]`
unfoldable pub candidates_of : List ClusterSnapshot → List ClusterSnapshot → List ClusterSnapshot
unfolding keep any
candidates_of snapshots violating = keep (λ s. not (is_among s violating)) snapshots

-- `min(candidates, key=key)` from the best candidate so far on: the first of those that are least.
unfoldable pub least_from :
    (ClusterSnapshot → ℕ) → ClusterSnapshot → List ClusterSnapshot → ClusterSnapshot
least_from key best [] = best
least_from key best (c ∷ cs) = least_from key (if ltb (key c) (key best) then c else best) cs

abbrev pub load : ClusterSnapshot → ℕ
load s = s.cpu_used_pct + s.ram_used_pct

-- `_pick_dest`, for candidates that are not empty.
unfoldable pub pick_dest : ClusterSnapshot → List ClusterSnapshot → String → ClusterSnapshot
unfolding least_from
pick_dest c cs strategy =
    if str_eq strategy "least_loaded"
    then least_from load c cs
    else if str_eq strategy "least_vms"
    then least_from (λ s. s.vm_count) c cs
    else c

-- `rule.get(key, default)`
abbrev pub rule_value : String → String → Policy → String
unfolding lookup
rule_value key d policy = elim (lookup key policy.rule) [ none ↦ d | some v ↦ v ]

-- The row that `_trigger_rebalance` adds.
abbrev pub queued_migration :
    String → ℕ → VmDetails → ClusterSnapshot → ClusterSnapshot → Bool → Migration
queued_migration id now vm src dst is_live = record {
  id = id;
  vm_id = vm.id;
  vm_name = some vm.name;
  source_cluster_id = src.cluster_id;
  dest_cluster_id = dst.cluster_id;
  type = if is_live then live else cold;
  state = pending;
  progress_pct = whole 0;
  error = none;
  rbd_images = none;
  vm_ips = none;
  options = ("dest_host", some "") ∷ ("dest_next_hop", some "") ∷ [];
  initiated_by = some "scheduler";
  started_at = none;
  finished_at = none;
  created_at = now;
}

abbrev pub add_migration : Migration → Action Database (Unit {0})
add_migration m d = (ok tt, record d { migrations = insert m.id m d.migrations })

module _ (env : Env) where
  -- `_eval_trigger`: a trigger that raises does not hold.
  unfoldable pub eval_trigger : String → ClusterSnapshot → Bool
  eval_trigger trigger s =
      elim (env.eval trigger s.cpu_used_pct s.ram_used_pct s.disk_used_pct s.vm_count) [
        | ok b ↦ b
        | err _ ↦ false
      ]

  unfoldable pub violating : String → List ClusterSnapshot → List ClusterSnapshot
  unfolding keep eval_trigger
  violating trigger = keep (eval_trigger trigger)

  abbrev pub active_vms : List VmDetails → List VmDetails
  unfolding keep
  active_vms = keep (λ v. str_eq v.status "ACTIVE")

  -- `_trigger_rebalance` from its list of active machines on.
  unfoldable pub queue_first :
      ClusterSnapshot → ClusterSnapshot → String → List VmDetails → Action World (Unit {0})
  queue_first src dst action [] = pure tt
  queue_first src dst action (vm ∷ _) = with_state λ w. with_session env (
      add_migration (
        queued_migration (env.uuid w.history) (env.now w.history) vm src dst
          (contains "live" action)))

  -- `_trigger_rebalance`; the machines are those of the node's own client.
  unfoldable pub trigger_rebalance :
      ClusterSnapshot → ClusterSnapshot → String → Action World (Unit {0})
  unfolding keep
  trigger_rebalance src dst action = do
    vms ← OpenStack.list_vms env source none
    queue_first src dst action (active_vms vms)

  -- `_apply_policy` once there are violating clusters and candidates.
  unfoldable pub rebalance :
      Policy → List ClusterSnapshot → List ClusterSnapshot → Action World (Unit {0})
  unfolding pick_dest
  rebalance policy sources [] = pure tt
  rebalance policy sources (c ∷ cs) =
      let dst = pick_dest c cs (rule_value "target" "least_loaded" policy) in
      for_each sources (λ src. trigger_rebalance src dst (rule_value "action" "" policy))

  -- `_apply_policy`
  unfoldable pub apply_policy : Policy → List ClusterSnapshot → Action World (Unit {0})
  unfolding violating candidates_of
  apply_policy policy snapshots =
      let bad = violating (rule_value "trigger" "" policy) snapshots in
      if is_empty bad then pure tt else rebalance policy bad (candidates_of snapshots bad)

  -- One round of `_evaluate`: what a policy raises is logged.
  unfoldable pub try_policy : List ClusterSnapshot → Policy → Action World (Unit {0})
  try_policy snapshots policy =
      if policy.enabled then attempt (apply_policy policy snapshots) (λ e. pure tt) else pure tt

  -- `_evaluate`
  unfoldable pub evaluate : Action World (Unit {0})
  evaluate = do
    snapshots ← collect_snapshots env
    policies ← load_policies env
    for_each policies (try_policy snapshots)

  -- The round of `run` that follows a sleep: what it raises is logged.
  unfoldable pub scheduler_round : Bool → Action World (Unit {0})
  scheduler_round is_master = if is_master then attempt evaluate (λ e. pure tt) else pure tt
