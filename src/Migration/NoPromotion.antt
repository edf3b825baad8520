-- ===== src/Migration/NoPromotion.antt =====
-- cnf/migration/engine.py: the first steps of a cold migration make no promotion and register no
-- rollback.
use mathlib.Core.Path.{subst}
use open_stack_cnf.Prelude.{ℕ, String, true, false, List, ◌≡◌, refl, sym, ◌∙◌}
use open_stack_cnf.Prelude.Percent.{Percent, whole}
use open_stack_cnf.Db.Models.{MigrationState, Database, disk}
use open_stack_cnf.Effect.Call.{
  Call, Side, metric, rbd_promotion, rpc, promote_rbd_image, subprocess, sleep, sdk, get_server,
  port_floating_ips, stop_server,
}
use open_stack_cnf.Effect.Env.{Env}
use open_stack_cnf.Effect.Action.{Action, modify, with_state, ◌>>◌}
use open_stack_cnf.Effect.Session.{World}
use open_stack_cnf.Effect.Trace.{
  with_session-history, Preorder, Keeps, Since, Since-trans, calls, keeps_rules, calls_rules,
}
use open_stack_cnf.OpenStack.Calls.{get_vm-calls, stop_vm-calls}
use open_stack_cnf.Ceph.{Verdict}
use open_stack_cnf.Ceph.Calls.{wait_for_sync-calls, preflight_check-calls, demote-calls}
use open_stack_cnf.Migration.Context.{Engine, on_world, engine_session, transition, fail}
use open_stack_cnf.Migration.Steps.{verdict_error, preflight_image, preflight_images, demote_image}
use open_stack_cnf.Migration.Cold

-- No promotion that returned, each of which is counted, and no request for one at a peer.
abbrev pub IsNoPromotion : Call → Type 0
IsNoPromotion (metric rbd_promotion) = ⊥
IsNoPromotion (rpc side (promote_rbd_image pool image)) = ⊥
IsNoPromotion _ = Unit {0}

abbrev pub unpromoted : Preorder Engine
unpromoted = record {
  rel = λ e e'. Since IsNoPromotion e.world.history e'.world.history × (e'.rollbacks ≡ e.rollbacks);
  same = λ e. (Since.same, refl);
  join = λ a b c p q. (Since-trans p.0 q.0, q.1 ∙ p.1);
}

Keeps-on_world :
    {A : Type 0} (m : Action World A)
    → Keeps (calls IsNoPromotion) m
    → Keeps unpromoted (on_world m)
Keeps-on_world m k = record { at = λ e. ((k.at e.world).0, refl) }

Keeps-modify :
    (f : Engine → Engine)
    → ((e : Engine) → (f e).world ≡ e.world)
    → ((e : Engine) → (f e).rollbacks ≡ e.rollbacks)
    → Keeps unpromoted (modify f)
Keeps-modify f hw hr = record {
  at = λ e.
      (subst (λ w. Since IsNoPromotion e.world.history w.history) (sym (hw e)) Since.same, hr e);
}

runs : (cmd : List String) → IsNoPromotion (subprocess cmd)
runs cmd = tt

sleeps : (n : ℕ) → IsNoPromotion (sleep n)
sleeps n = tt

servers : (side : Side) (i : String) → IsNoPromotion (sdk side (get_server i))
servers side i = tt

addresses : (side : Side) (i : String) → IsNoPromotion (sdk side (port_floating_ips i))
addresses side i = tt

stops : (side : Side) (i : String) → IsNoPromotion (sdk side (stop_server i))
stops side i = tt

ruleset unpromoted_rules =
    (keeps_rules, Keeps-on_world, Keeps-modify, refl, runs, sleeps, servers, addresses, stops)

module _ (env : Env) where
  session-Keeps :
      (body : ℕ → Action Database (Unit {0})) → Keeps unpromoted (engine_session env body)
  unfolding engine_session with_state
  session-Keeps body = record {
    at = λ e. (
      subst (Since IsNoPromotion e.world.history)
          (sym (with_session-history env (body (env.now e.world.history)) e.world))
          (Since.more tt Since.same),
      refl,
    );
  }

  transition-Keeps :
      (state : MigrationState) (p : Percent) → Keeps unpromoted (transition env state p)
  unfolding transition
  transition-Keeps state p = search (unpromoted_rules, session-Keeps) depth 8

  pub fail-Keeps : (error : String) → Keeps unpromoted (fail env error)
  unfolding fail
  fail-Keeps error = search (unpromoted_rules, calls_rules, session-Keeps) depth 8

  verdict_error-Keeps :
      (image : String) (v : Verdict) → Keeps (calls IsNoPromotion) (verdict_error env image v)
  verdict_error-Keeps image (true, reason) = search calls_rules
  verdict_error-Keeps image (false, reason) = search calls_rules

  preflight_image-Keeps : (image : String) → Keeps (calls IsNoPromotion) (preflight_image env image)
  unfolding preflight_image
  preflight_image-Keeps image =
      search (calls_rules, preflight_check-calls, verdict_error-Keeps, runs)

  pub preflight-Keeps : Keeps unpromoted (Cold.step_preflight env)
  unfolding Cold.step_preflight preflight_images
  preflight-Keeps =
      search (unpromoted_rules, calls_rules, transition-Keeps, get_vm-calls, preflight_image-Keeps)
        depth 20

  -- The disk step before its rollback is registered.
  abbrev pub demotion : Action Engine (Unit {0})
  demotion = transition env disk (whole 20) >> Cold.stop_if_active env >> Cold.sync_and_demote env

  wait_image-Keeps : (image : String) → Keeps (calls IsNoPromotion) (Cold.wait_image env image)
  unfolding Cold.wait_image
  wait_image-Keeps image = search (calls_rules, wait_for_sync-calls, runs, sleeps)

  demote_image-Keeps : (image : String) → Keeps (calls IsNoPromotion) (demote_image env image)
  unfolding demote_image
  demote_image-Keeps image = search (calls_rules, demote-calls, runs)

  pub demotion-Keeps : Keeps unpromoted demotion
  unfolding Cold.stop_if_active Cold.sync_and_demote
  demotion-Keeps =
      search
        (
          unpromoted_rules, calls_rules, transition-Keeps, stop_vm-calls, wait_image-Keeps,
          demote_image-Keeps,
        )
        depth 20
