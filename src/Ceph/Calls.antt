-- ===== src/Ceph/Calls.antt =====
-- The calls that the methods of cnf/storage/ceph.py make: runs of `rbd`, sleeps, and the count of
-- promotions.
use open_stack_cnf.Prelude.{ℕ, zero, suc, ◌+◌, String, Bool, Option, none, some, List}
use open_stack_cnf.Prelude.Int.{ℤ}
use open_stack_cnf.Effect.Exceptions.{Exception, Result, ok, err, ceph_error}
use open_stack_cnf.Effect.Call.{Call, subprocess, sleep, metric, rbd_promotion}
use open_stack_cnf.Effect.Env.{Env}
use open_stack_cnf.Effect.Trace.{Keeps, calls, calls_rules}
use open_stack_cnf.Ceph.{
  MirrorStatus, RbdImageInfo, run_plain, run_json, get_image_info, get_mirror_status, sync_timeout,
  sync_round, sync_loop, wait_for_sync, demote, promote, check_lag, check_mirroring,
  preflight_check, refused_with, lag_threshold,
}

module _ (env : Env) {Q : Call → Type 0} (runs : (cmd : List String) → Q (subprocess cmd)) where
  pub run_plain-calls : (args : List String) → Keeps (calls Q) (run_plain env args)
  unfolding run_plain
  run_plain-calls args = search (calls_rules, runs)

  pub run_json-calls : (args : List String) → Keeps (calls Q) (run_json env args)
  unfolding run_json
  run_json-calls args = search (calls_rules, runs)

  pub get_image_info-calls : (pool image : String) → Keeps (calls Q) (get_image_info env pool image)
  unfolding get_image_info
  get_image_info-calls pool image = search (calls_rules, run_json-calls) depth 20

  pub get_mirror_status-calls :
      (pool image : String) → Keeps (calls Q) (get_mirror_status env pool image)
  unfolding get_mirror_status
  get_mirror_status-calls pool image = search (calls_rules, run_json-calls) depth 20

  pub demote-calls : (pool image : String) → Keeps (calls Q) (demote env pool image)
  unfolding demote
  demote-calls pool image = search (calls_rules, run_plain-calls)

  module _ (sleeps : (n : ℕ) → Q (sleep n)) where
    sync_timeout-calls :
        (pool image : String) (timeout : ℕ) (last : Option MirrorStatus)
        → Keeps (calls Q) (sync_timeout env pool image timeout last)
    unfolding sync_timeout
    sync_timeout-calls pool image timeout none = search calls_rules
    sync_timeout-calls pool image timeout (some s) = search calls_rules

    sync_loop-calls :
        (f : ℕ) (pool image : String) (threshold : ℤ) (timeout interval elapsed : ℕ)
        (last : Option MirrorStatus)
        → Keeps (calls Q) (sync_loop env f pool image threshold timeout interval elapsed last)
    unfolding sync_loop sync_round
    sync_loop-calls zero pool image threshold timeout interval elapsed last =
        sync_timeout-calls pool image timeout last
    sync_loop-calls (suc f) pool image threshold timeout interval elapsed last =
        let ih = λ (s : MirrorStatus).
          sync_loop-calls f pool image threshold timeout interval (elapsed + interval) (some s) in
        search (calls_rules, get_mirror_status-calls, sync_timeout-calls, ih, sleeps) depth 12

    pub wait_for_sync-calls :
        (pool image : String) (max_lag : Option ℤ) (timeout interval : ℕ)
        → Keeps (calls Q) (wait_for_sync env pool image max_lag timeout interval)
    unfolding wait_for_sync
    wait_for_sync-calls pool image max_lag timeout interval =
        sync_loop-calls timeout pool image _ timeout interval 0 none

  refused_with-calls : (why : String) (e : Exception) → Keeps (calls Q) (refused_with env why e)
  refused_with-calls why (ceph_error m) = search calls_rules
  refused_with-calls why _ = search calls_rules

  check_lag-calls :
      (pool image : String) (threshold : ℤ) → Keeps (calls Q) (check_lag env pool image threshold)
  unfolding check_lag
  check_lag-calls pool image threshold =
      search (calls_rules, get_mirror_status-calls, refused_with-calls) depth 12

  check_mirroring-calls :
      (pool image : String) (threshold : ℤ) (info : Result RbdImageInfo)
      → Keeps (calls Q) (check_mirroring env pool image threshold info)
  unfolding check_mirroring
  check_mirroring-calls pool image threshold (err e) = refused_with-calls "Image not found: " e
  check_mirroring-calls pool image threshold (ok info) = search (calls_rules, check_lag-calls)

  pub preflight_check-calls :
      (pool image : String) (max_lag : Option ℤ)
      → Keeps (calls Q) (preflight_check env pool image max_lag)
  unfolding preflight_check
  preflight_check-calls pool image max_lag = record {
    at = λ w. (calls Q).join w _ _ ((get_image_info-calls pool image).at w) (
        (check_mirroring-calls pool image (lag_threshold env max_lag)
            (get_image_info env pool image w).0).at
          (get_image_info env pool image w).1);
  }

  pub promote-calls :
      Q (metric rbd_promotion)
      → (pool image : String) (force : Bool) → Keeps (calls Q) (promote env pool image force)
  unfolding promote
  promote-calls counted pool image force = search (calls_rules, run_plain-calls)
