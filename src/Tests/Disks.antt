-- ===== src/Tests/Disks.antt =====
-- A cold migration of a machine with two volumes, the second of which is not demoted.
use open_stack_cnf.Prelude.{◌&&◌, [], ◌∷◌, ◌≡◌, refl, some, any, str_eq, keep, if◌then◌else◌}
use open_stack_cnf.Prelude.Int.{pos}
use open_stack_cnf.Prelude.Text.{
  contains, partition?, strip_prefix?, trim, trim_start, trim_end, remove_prefix,
}
use open_stack_cnf.Db.Models.{cold}
use open_stack_cnf.Effect.Exceptions.{ok, err, ceph_error}
use open_stack_cnf.Effect.Env.{Env}
use open_stack_cnf.Effect.Action.{◌>>=◌, ◌>>◌, with_state, attempt, for_each}
use open_stack_cnf.Effect.Session.{with_session}
use open_stack_cnf.Effect.Trace.{Since}
use open_stack_cnf.OpenStack.{get_vm, fetch_server, describe, fetch_texts}
use open_stack_cnf.Ceph
use open_stack_cnf.Migration.Context.{transition, engine_session, record_state}
use open_stack_cnf.Migration.Steps.{preflight_images, preflight_image, demote_image}
use open_stack_cnf.Migration.Frame.{started}
use open_stack_cnf.Migration.NoPromotion.{IsNoPromotion, demotion}
use open_stack_cnf.Migration.Unpromoted.{run-cold_unpromoted}
use open_stack_cnf.Migration.Cold
use open_stack_cnf.Tests.Setting.{test_env, test_engine, test_server}

-- The command that demotes the second image fails.
abbrev stuck_env : Env
stuck_env = record test_env {
  server = λ h side i.
      ok (some (record (test_server "SHUTOFF") { volumes_attached = "v1" ∷ "v2" ∷ [] }));
  run = λ h cmd. ok (record {
    returncode =
        if any (str_eq "demote") cmd && any (contains "volume-v2") cmd then pos 1 else pos 0;
    stdout = "{}";
    stderr = "busy";
  });
}

second_demotion_test :
    ((Cold.step_preflight stuck_env >> demotion stuck_env)
      (started stuck_env cold (test_engine cold))).0
    ≡ err (ceph_error "busy")
unfolding ◌>>=◌ with_state attempt for_each with_session get_vm fetch_server describe fetch_texts
    transition engine_session record_state preflight_images preflight_image demote_image any
    contains partition? strip_prefix? keep Cold.step_preflight Cold.stop_if_active
    Cold.sync_and_demote Cold.wait_image Ceph.get_image_info Ceph.get_mirror_status Ceph.run_json
    Ceph.run_plain Ceph.preflight_check Ceph.demote Ceph.find_member Ceph.get_or Ceph.item
    Ceph.items_have Ceph.members_have Ceph.json_in Ceph.is_text Ceph.lag_of Ceph.lag_of_text trim
    trim_start trim_end remove_prefix Ceph.wait_for_sync Ceph.sync_loop Ceph.sync_round
second_demotion_test = refl

run-cold_unpromoted_example :
    Since IsNoPromotion
      (test_engine cold).world.history
      (Cold.run stuck_env (test_engine cold)).1.world.history
run-cold_unpromoted_example =
    run-cold_unpromoted stuck_env (test_engine cold) (ceph_error "busy") refl second_demotion_test
