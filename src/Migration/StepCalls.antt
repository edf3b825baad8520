-- ===== src/Migration/StepCalls.antt =====
-- The calls that the steps of both engines make before the cleanup, for a predicate that holds of
-- all calls but the deletions of a machine and the gauge of active migrations.
use open_stack_cnf.Prelude.{
  ℕ, zero, suc, String, true, false, Option, none, some, List, inl, inr, refl,
}
use open_stack_cnf.Prelude.Percent.{Percent, whole}
use open_stack_cnf.Db.Models.{MigrationType}
use open_stack_cnf.Effect.Exceptions.{Exception}
use open_stack_cnf.Effect.Call.{
  Call, Side, Rpc, Libvirt, Metric, Sdk, active_inc, active_dec, delete_server, force_delete_server,
  subprocess, sleep, metric, sdk, rpc, libvirt, db_session, get_server, port_floating_ips,
  stop_server, get_volume, create_volume, rbd_promotion, bgp_announcement, migration_total,
  migration_duration,
}
use open_stack_cnf.Effect.Env.{Env}
use open_stack_cnf.Effect.Action.{Action}
use open_stack_cnf.Effect.Session.{World}
use open_stack_cnf.Effect.Trace.{
  Preorder, keeps_rules, Keeps, Keeps-attempt, Keeps-bind, Keeps-pure, bind_rel, calls, calls_rules,
}
use open_stack_cnf.OpenStack.{VmDetails}
use open_stack_cnf.Ceph.{Verdict}
use open_stack_cnf.Ceph.Calls.{preflight_check-calls, demote-calls, promote-calls}
use open_stack_cnf.Bgp.Calls.{rollback-calls, call_stub-calls}
use open_stack_cnf.Migration.Context.{
  Engine, Rollback, Tunnel, rollback_disk, rollback_cutover, rollback_bgp, abort_tunnel, on_world,
}
use open_stack_cnf.Migration.Tunnel.{
  libvirt_do, read_progress, get_progress_pct, poll_progress, monitor_progress, migrate_monitored,
  migrate_connected, do_migrate, run_tunnel, abort_calls, abort_migration,
}
use open_stack_cnf.Migration.Reported.{IsReported, get_progress_pct-IsRead}
use open_stack_cnf.Migration.Rollback.{
  promote_back, promote_all_back, run_rollback, try_rollback, run_rollbacks,
}
use open_stack_cnf.Migration.Steps.{
  give_up, succeed, verdict_error, preflight_image, preflight_images, demote_image, promote_image,
  promote_images,
}
use open_stack_cnf.Migration.Calls.{
  engine_calls, engine_rules, client_calls, client_rules, engine-of-client, transition-calls,
  fail-calls,
}

-- Neither the gauge of active migrations is changed, nor a machine deleted.
abbrev pub IsStepMetric : Metric → Type 0
IsStepMetric (active_inc t) = ⊥
IsStepMetric (active_dec t) = ⊥
IsStepMetric _ = Unit {0}

abbrev pub IsStepSdk : Sdk → Type 0
IsStepSdk (delete_server i) = ⊥
IsStepSdk (force_delete_server i) = ⊥
IsStepSdk _ = Unit {0}

abbrev pub IsStep : Call → Type 0
IsStep (metric m) = IsStepMetric m
IsStep (sdk side c) = IsStepSdk c
IsStep _ = Unit {0}

pub runs : (cmd : List String) → IsStep (subprocess cmd)
runs cmd = tt

pub sleeps : (n : ℕ) → IsStep (sleep n)
sleeps n = tt

pub rpcs : (side : Side) (r : Rpc) → IsStep (rpc side r)
rpcs side r = tt

pub libvirts : (c : Libvirt) → IsStep (libvirt c)
libvirts c = tt

pub servers : (side : Side) (i : String) → IsStep (sdk side (get_server i))
servers side i = tt

pub addresses : (side : Side) (i : String) → IsStep (sdk side (port_floating_ips i))
addresses side i = tt

pub stops : (side : Side) (i : String) → IsStep (sdk side (stop_server i))
stops side i = tt

pub volumes : (side : Side) (i : String) → IsStep (sdk side (get_volume i))
volumes side i = tt

pub creates :
    (side : Side) (n : String) (s : ℕ) (t : Option String) (p i : String)
    → IsStep (sdk side (create_volume n s t p i))
creates side n s t p i = tt

pub promoted : IsStep (metric rbd_promotion)
promoted = tt

pub announced : (a : String) → IsStep (metric (bgp_announcement a))
announced a = tt

pub totals : (t : MigrationType) (a b c : String) → IsStep (metric (migration_total t a b c))
totals t a b c = tt

pub durations : (t : MigrationType) (n : ℕ) → IsStep (metric (migration_duration t n))
durations t n = tt

pub sessions : IsStep db_session
sessions = tt

module _ (env : Env) where
  pub libvirt_do-calls : (c : Libvirt) → Keeps (calls IsStep) (libvirt_do env c)
  unfolding libvirt_do
  libvirt_do-calls c = search (calls_rules, libvirts)

  pub get_progress_pct-calls : (t : Tunnel) → Keeps (calls IsStep) (get_progress_pct env t)
  unfolding get_progress_pct read_progress
  get_progress_pct-calls t = search (calls_rules, libvirt_do-calls) depth 20

  pub abort_migration-calls : (t : Tunnel) → Keeps (client_calls IsStep) (abort_migration env t)
  unfolding abort_migration abort_calls
  abort_migration-calls t = search (client_rules, calls_rules, libvirt_do-calls) depth 20

  -- What the tunnel keeps, for anything that calls of the world and the callback keep.
  module _ (P : Preorder Engine)
      (worlds : (A : Type 0) (m : Action World A) → Keeps (calls IsStep) m → Keeps P (on_world m))
      (callback : Percent → Action Engine (Unit {0}))
      (back : (p : Percent) → IsReported env p → Keeps P (callback p)) where
    poll_progress-calls : (t : Tunnel) → Keeps P (poll_progress env callback t)
    unfolding poll_progress
    poll_progress-calls t =
        let polls = on_world (get_progress_pct env t) in
        Keeps-attempt _ _
          (record {
            at = λ s.
                bind_rel P polls callback s ((worlds _ _ (get_progress_pct-calls t)).at s) λ p q.
                  (back p (inr (t, s.world, get_progress_pct-IsRead env t s.world p q))).at
                    (polls s).1;
          })
          (λ e. Keeps-pure tt)

    monitor_round-calls :
        (n : ℕ) (t : Tunnel)
        → Keeps P (monitor_progress env callback n t)
        → Keeps P (monitor_progress env callback (suc n) t)
    unfolding monitor_progress
    monitor_round-calls n t rest =
        search (keeps_rules, worlds, calls_rules, poll_progress-calls, sleeps) depth 8

    monitor_progress-calls : (n : ℕ) (t : Tunnel) → Keeps P (monitor_progress env callback n t)
    monitor_progress-calls zero t = unfold monitor_progress in search keeps_rules
    monitor_progress-calls (suc n) t = monitor_round-calls n t (monitor_progress-calls n t)

    pub run_tunnel-kept : (t : Tunnel) → Keeps P (run_tunnel env callback t)
    unfolding run_tunnel do_migrate migrate_connected migrate_monitored
    run_tunnel-kept t =
        Keeps-bind _ _
          (search (keeps_rules, worlds, libvirt_do-calls, monitor_progress-calls) depth 20)
          λ _. back (whole 100) (inl refl)

  pub promote_back-calls : (image : String) → Keeps (calls IsStep) (promote_back env image)
  unfolding promote_back
  promote_back-calls image = search (calls_rules, promote-calls, runs, promoted)

  pub promote_all_back-calls : Keeps (client_calls IsStep) (promote_all_back env)
  unfolding promote_all_back
  promote_all_back-calls = search (client_rules, promote_back-calls)

  pub run_rollback-calls : (r : Rollback) → Keeps (client_calls IsStep) (run_rollback env r)
  unfolding run_rollback
  run_rollback-calls rollback_disk = promote_all_back-calls
  run_rollback-calls rollback_cutover = promote_all_back-calls
  run_rollback-calls (rollback_bgp prefixes) =
      search (client_rules, rollback-calls, runs, announced, rpcs) depth 8
  run_rollback-calls (abort_tunnel t) = abort_migration-calls t

  pub run_rollbacks-calls : Keeps (client_calls IsStep) (run_rollbacks env)
  unfolding run_rollbacks try_rollback
  run_rollbacks-calls = search (client_rules, run_rollback-calls) depth 8

  verdict_error-calls :
      (image : String) (v : Verdict) → Keeps (calls IsStep) (verdict_error env image v)
  verdict_error-calls image (true, reason) = search calls_rules
  verdict_error-calls image (false, reason) = search calls_rules

  pub preflight_image-calls : (image : String) → Keeps (calls IsStep) (preflight_image env image)
  unfolding preflight_image
  preflight_image-calls image =
      search (calls_rules, preflight_check-calls, verdict_error-calls, runs)

  pub preflight_images-calls :
      (vm : VmDetails) → Keeps (client_calls IsStep) (preflight_images env vm)
  unfolding preflight_images
  preflight_images-calls vm = search (client_rules, preflight_image-calls) depth 8

  pub demote_image-calls : (image : String) → Keeps (calls IsStep) (demote_image env image)
  unfolding demote_image
  demote_image-calls image = search (calls_rules, demote-calls, runs)

  pub promote_image-calls :
      (side : Option Side) (image : String) → Keeps (calls IsStep) (promote_image env side image)
  unfolding promote_image
  promote_image-calls none image = search (calls_rules, promote-calls, runs, promoted)
  promote_image-calls (some side) image = search (calls_rules, call_stub-calls, rpcs)

  pub promote_images-calls : Keeps (client_calls IsStep) (promote_images env)
  unfolding promote_images
  promote_images-calls = search (client_rules, promote_image-calls)

  module _ (type : MigrationType) where
    pub give_up-calls : (x : Exception) → Keeps (engine_calls IsStep) (give_up env type x)
    unfolding give_up
    give_up-calls x =
        search (engine_rules, engine-of-client, fail-calls, run_rollbacks-calls, sessions, totals)
          depth 8

    pub succeed-calls : (t0 : ℕ) → Keeps (engine_calls IsStep) (succeed env type t0)
    unfolding succeed
    succeed-calls t0 = search (engine_rules, calls_rules, transition-calls, sessions) depth 12
