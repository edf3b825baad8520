-- ===== src/Tests/Clients.antt =====
-- The theorems of the Ceph, BGP and OpenStack clients at concrete calls.
use open_stack_cnf.Prelude.{ℕ, ◌≤◌, arith, true, some, none, ◌≡◌, ◌↔◌, refl}
use open_stack_cnf.Prelude.Int.{pos, ◌≤ℤ◌}
use open_stack_cnf.Effect.Exceptions.{ok}
use open_stack_cnf.Effect.Action.{◌>>=◌}
use open_stack_cnf.Effect.Call.{source}
use open_stack_cnf.Ceph.{
  preflight_check, wait_for_sync, lag_threshold, sync_loop, sync_round, MirrorStatus,
  get_mirror_status, run_json, get_or, find_member, lag_of, json_in, is_text,
}
use open_stack_cnf.Ceph.Preflight.{
  preflight_check-Accepts, preflight_check-Blames, Blames, Accepts, says_yes, info_read,
  status_read,
}
use open_stack_cnf.Ceph.Sync.{wait_for_sync-synced, sync_loop-fuel}
use open_stack_cnf.OpenStack.{wait_loop, wait_vm_status}
use open_stack_cnf.OpenStack.Waiting.{wait_vm_status-Reached, Reached}
use open_stack_cnf.OpenStack.Rounding.{used_percent, share_of, float_of, rounded_from, nearest}
use open_stack_cnf.Prelude.Text.{contains, partition?, strip_prefix?, trim, trim_start, trim_end}
use open_stack_cnf.Effect.Env.{str}
use open_stack_cnf.Tests.Setting.{test_env, test_world}

preflight_check-Accepts_example :
    (says_yes (preflight_check test_env "vms" "volume-v1" none test_world).0 ≡ true)
    ↔ Accepts
        (lag_threshold test_env none)
        (info_read test_env "vms" "volume-v1" test_world)
        (status_read test_env "vms" "volume-v1" test_world)
preflight_check-Accepts_example = preflight_check-Accepts test_env "vms" "volume-v1" none test_world

preflight_check-Blames_example :
    Blames
      (info_read test_env "vms" "volume-v1" test_world)
      (status_read test_env "vms" "volume-v1" test_world)
      (preflight_check test_env "vms" "volume-v1" none test_world).0
preflight_check-Blames_example = preflight_check-Blames test_env "vms" "volume-v1" none test_world

abbrev in_sync : MirrorStatus
in_sync = record {
  image = "volume-v1";
  pool = "vms";
  state = str "up+replaying";
  description = str "replaying";
  lag_bytes = pos 0;
  lag_seconds = pos 0;
  synced = true;
}

wait_for_sync-synced_example : in_sync.lag_bytes ≤ℤ lag_threshold test_env (some (pos 0))
unfolding wait_for_sync sync_loop sync_round ◌>>=◌ get_mirror_status run_json get_or find_member
    lag_of json_in contains partition? strip_prefix? trim trim_start trim_end is_text
wait_for_sync-synced_example =
    wait_for_sync-synced test_env "vms" "volume-v1" (some (pos 0)) 60 5 test_world in_sync refl

sync_loop-fuel_example :
    sync_loop test_env 60 "vms" "volume-v1" (pos 0) 60 5 0 none
    ≡ sync_loop test_env 100 "vms" "volume-v1" (pos 0) 60 5 0 none
sync_loop-fuel_example =
    sync_loop-fuel test_env "vms" "volume-v1" (pos 0) 60 5 60 100 0 none (omega arith) (omega arith)
      (omega arith)

wait_vm_status-Reached_example :
    ((f : ℕ)
      → 120 ≤ f
      → wait_loop test_env source f "vm" "SHUTOFF" 120 3 0
        ≡ wait_vm_status test_env source "vm" "SHUTOFF" 120 3)
    × ((wait_vm_status test_env source "vm" "SHUTOFF" 120 3 test_world).0 ≡ ok tt
        → Reached test_env source "vm" "SHUTOFF")
wait_vm_status-Reached_example =
    wait_vm_status-Reached test_env source "vm" "SHUTOFF" 120 3 test_world (omega arith)

-- The floats of 203 of 20000 and of a third.
used_percent_test :
    (used_percent 203 20000 ≡ 101)
    × (used_percent 1 3 ≡ 3333)
    × (used_percent 12 8 ≡ 15000)
    × (used_percent 0 8 ≡ 0)
unfolding used_percent share_of float_of rounded_from nearest
used_percent_test = (refl, refl, refl, refl)
