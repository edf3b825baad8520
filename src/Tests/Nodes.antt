-- ===== src/Tests/Nodes.antt =====
-- The theorems of the election and of the scheduler at concrete nodes and clusters.
use open_stack_cnf.Prelude.{
  keep, if◌then◌else◌, str_eq, ◌≤◌, String, true, false, none, some, [], ◌∷◌, ◌≡◌, refl, In,
}
use mathlib.Core.List.{Permᴰ}
use open_stack_cnf.Db.Models.{Policy, empty_database}
use open_stack_cnf.Effect.Action.{pure, with_state}
use open_stack_cnf.Effect.Session.{World, with_session}
use open_stack_cnf.Effect.Trace.{Keeps-pure}
use open_stack_cnf.Raft.{master, force_elect, Node, new_election, election_loop}
use open_stack_cnf.Raft.Transfer.{force_elect-election, revoked}
use open_stack_cnf.Effect.Exceptions.{ok}
use open_stack_cnf.Agent.Start.{elect}
use open_stack_cnf.Agent.Informed.{elect-IsInformed, IsInformed}
use open_stack_cnf.Raft.Invariant.{election_loop-IsHeld, IsHeld}
use open_stack_cnf.Scheduler.{
  ClusterSnapshot, pick_dest, load, sort_policies, load_policies, enabled_policies, scheduler_round,
}
use open_stack_cnf.Scheduler.Choice.{pick_dest-least}
use open_stack_cnf.Scheduler.Running.{new_scheduler, set_master, stop, wake, on_events}
use open_stack_cnf.Scheduler.Mastery.{on_events-demoted, on_events-stop}
use open_stack_cnf.Scheduler.Order.{load_policies-IsSorted, IsNoLater}
use open_stack_cnf.Prelude.Sorting.{IsSorted, sort_by, sort_onto, insert_by}
use open_stack_cnf.Tests.Setting.{test_env, test_world}

abbrev test_node : Node
test_node = record {
  world = test_world;
  election = record new_election { running = true };
  scheduler = some false;
}

election_loop-IsHeld_example :
    IsHeld test_env (election_loop test_env (some (pure tt)) none 3 test_node).1.election
    × (0 ≤ (election_loop test_env (some (pure tt)) none 3 test_node).1.election.term)
election_loop-IsHeld_example =
    election_loop-IsHeld test_env (some (pure tt)) none (Keeps-pure tt) (Keeps-pure tt) 3 test_node
      (λ h. cc)

elect-IsInformed_example : IsInformed (elect test_env 3 test_node).1
elect-IsInformed_example = elect-IsInformed test_env 3 test_node (λ h. refl) refl

abbrev busy : ClusterSnapshot
busy = record {
  cluster_id = "a";
  cluster_name = "a";
  grpc_addr = "a:50051";
  cpu_used_pct = 9000;
  ram_used_pct = 8000;
  disk_used_pct = 5000;
  vm_count = 40;
}

abbrev idle : ClusterSnapshot
idle = record {
  cluster_id = "b";
  cluster_name = "b";
  grpc_addr = "b:50051";
  cpu_used_pct = 1000;
  ram_used_pct = 2000;
  disk_used_pct = 5000;
  vm_count = 4;
}

pick_dest-least_example :
    ((strategy : String) → In (pick_dest busy (idle ∷ []) strategy) (busy ∷ idle ∷ []))
    × ((x : ClusterSnapshot)
        → In x (busy ∷ idle ∷ [])
        → load (pick_dest busy (idle ∷ []) "least_loaded") ≤ load x)
    × ((x : ClusterSnapshot)
        → In x (busy ∷ idle ∷ [])
        → (pick_dest busy (idle ∷ []) "least_vms").vm_count ≤ x.vm_count)
pick_dest-least_example = pick_dest-least busy (idle ∷ [])

abbrev late : Policy
late = record { name = "late"; enabled = true; priority = 20; rule = [] }

abbrev early : Policy
early = record { name = "early"; enabled = true; priority = 10; rule = [] }

abbrev policy_world : World
policy_world = record test_world { db = record empty_database { policies = late ∷ early ∷ [] } }

load_policies-IsSorted_example :
    IsSorted IsNoLater (early ∷ late ∷ [])
    × Permᴰ (early ∷ late ∷ []) (enabled_policies (late ∷ early ∷ []))
unfolding load_policies with_state with_session sort_policies sort_by sort_onto insert_by keep
load_policies-IsSorted_example =
    load_policies-IsSorted test_env policy_world (early ∷ late ∷ []) refl

-- A master that names itself.
abbrev test_master : Node
test_master = record test_node {
  election = record new_election {
    role = master;
    master_id = "here";
    term = 1;
    lease = some 7;
    connected = true;
  };
}

force_elect-election_example :
    ((force_elect test_env "there" test_master).0
      ≡ ok (str_eq test_master.election.master_id test_env.settings.cluster_id))
    × ((force_elect test_env "there" test_master).1 ≡ (
        if str_eq test_master.election.master_id test_env.settings.cluster_id
        then record test_master {
          world =
              revoked test_master.election.lease test_master.election.connected test_master.world;
        }
        else test_master))
force_elect-election_example = force_elect-election test_env "there" test_master

on_events-demoted_example :
    ((on_events test_env
        (wake ∷ set_master false ∷ stop ∷ wake ∷ [])
        (record new_scheduler { running = true; sleeping = true })
        test_world).1.db
      ≡ test_world.db)
    × ((on_events test_env
          (wake ∷ set_master false ∷ stop ∷ wake ∷ [])
          (record new_scheduler { running = true; sleeping = true })
          test_world).0.is_master
        ≡ false)
on_events-demoted_example =
    on_events-demoted test_env (wake ∷ set_master false ∷ stop ∷ wake ∷ [])
      (tt, (refl, (tt, (tt, tt)))) (record new_scheduler { running = true; sleeping = true })
      test_world refl

on_events-stop_example :
    ((on_events test_env
        (stop ∷ wake ∷ set_master true ∷ wake ∷ [])
        (record { is_master = true; running = true; sleeping = true })
        test_world).1
      ≡ (scheduler_round test_env true test_world).1)
    × ((on_events test_env
          (stop ∷ wake ∷ set_master true ∷ wake ∷ [])
          (record { is_master = true; running = true; sleeping = true })
          test_world).0.sleeping
        ≡ false)
on_events-stop_example =
    on_events-stop test_env (set_master true ∷ wake ∷ [])
      (record { is_master = true; running = true; sleeping = true }) test_world refl
