-- ===== src/Ceph.antt =====
-- cnf/storage/ceph.py: the client of the `rbd` command. `Json` reads the command's output,
-- `Status` is the mirror status of an image, and the other children have the proofs.
mod Json
mod Status
pub mod Sync
pub mod Preflight
pub mod Calls
unfoldable pub use Json.*
unfoldable pub use Status.*
use open_stack_cnf.Prelude.{
  ℕ, zero, suc, ◌+◌, String, ◌⧺◌, Bool, true, false, not, Option, none, some, List, [], ◌∷◌, ltb,
  if◌then◌else◌, keep, ◌||◌,
}
use open_stack_cnf.Prelude.Int.{ℤ, pos, is_zero, leb_ℤ, ltb_ℤ}
use open_stack_cnf.Prelude.Text.{contains, decimal, show}
use open_stack_cnf.Effect.Exceptions.{
  Exception, Result, ok, err, ceph_error, ceph_sync_timeout, external,
}
use open_stack_cnf.Effect.Call.{sleep, metric, rbd_promotion}
use open_stack_cnf.Effect.Env.{Env}
use open_stack_cnf.Effect.Action.{Action, pure, raise, lift, attempt, ◌>>=◌, ◌>>◌}
use open_stack_cnf.Effect.Session.{World, tell}

-- `f"{pool}/{image}"`
abbrev pub image_spec : String → String → String
image_spec pool image = pool ⧺ "/" ⧺ image

abbrev pub demote_args : String → String → List String
demote_args pool image = "mirror" ∷ "image" ∷ "demote" ∷ image_spec pool image ∷ []

abbrev pub promote_args : String → String → Bool → List String
promote_args pool image force =
    "mirror" ∷ "image" ∷ "promote" ∷ image_spec pool image ∷ (if force then "--force" ∷ [] else [])

-- Why an image may not be migrated, or that it may.
abbrev pub Verdict : Type 0
Verdict = Bool × String

-- `max_lag_bytes or self.cfg.mirror_lag_threshold_bytes`: zero counts as not given
abbrev pub threshold_or : Option ℤ → ℤ → ℤ
threshold_or none d = d
threshold_or (some n) d = if is_zero n then d else n

module _ (env : Env) where
  abbrev pub lag_threshold : Option ℤ → ℤ
  lag_threshold max_lag_bytes =
      threshold_or max_lag_bytes (pos env.settings.ceph.mirror_lag_threshold_bytes)

  abbrev pub enable_mirror : String → String → Action World (Unit {0})
  enable_mirror pool image = do
    run_plain env ("feature" ∷ "enable" ∷ image_spec pool image ∷ "journaling" ∷ [])
    run_plain env ("mirror" ∷ "image" ∷ "enable" ∷ image_spec pool image ∷ "journaling" ∷ [])
    pure tt

  abbrev timeout_text : String → String → ℕ → MirrorStatus → String
  timeout_text pool image timeout status =
      "Image "
      ⧺ image_spec pool image
      ⧺ " did not sync within "
      ⧺ decimal timeout
      ⧺ "s. Last lag: "
      ⧺ show status.lag_bytes
      ⧺ " bytes"

  -- The raise after the loop; with no round made, `status` is unbound.
  pub sync_timeout : String → String → ℕ → Option MirrorStatus → Action World MirrorStatus
  sync_timeout pool image timeout none = raise (external "UnboundLocalError: status")
  sync_timeout pool image timeout (some status) =
      raise (ceph_sync_timeout (timeout_text pool image timeout status))

  -- One round of `wait_for_sync` from the status on.
  unfoldable pub sync_round :
      ℤ → ℕ → (MirrorStatus → Action World MirrorStatus) → MirrorStatus → Action World MirrorStatus
  sync_round threshold interval again status =
      if leb_ℤ status.lag_bytes threshold
      then pure status
      else tell (sleep interval) >> again status

  -- The loop of `wait_for_sync` from `elapsed` on. The fuel is the seconds that are left.
  unfoldable pub sync_loop :
      ℕ → String → String → ℤ → ℕ → ℕ → ℕ → Option MirrorStatus → Action World MirrorStatus
  sync_loop zero pool image threshold timeout interval elapsed last =
      sync_timeout pool image timeout last
  sync_loop (suc fuel) pool image threshold timeout interval elapsed last =
      let again = λ (status : MirrorStatus).
        sync_loop fuel pool image threshold timeout interval (elapsed + interval) (some status) in
      if ltb elapsed timeout
      then get_mirror_status env pool image >>= sync_round threshold interval again
      else sync_timeout pool image timeout last

  unfoldable pub wait_for_sync : String → String → Option ℤ → ℕ → ℕ → Action World MirrorStatus
  wait_for_sync pool image max_lag_bytes timeout interval =
      sync_loop timeout pool image (lag_threshold max_lag_bytes) timeout interval 0 none

  unfoldable pub demote : String → String → Action World (Unit {0})
  demote pool image = do run_plain env (demote_args pool image); pure tt

  unfoldable pub promote : String → String → Bool → Action World (Unit {0})
  promote pool image force = do
    run_plain env (promote_args pool image force)
    tell (metric rbd_promotion)

  abbrev pub snapshot_spec : String → String → String → String
  snapshot_spec pool image snap = image_spec pool image ⧺ "@" ⧺ snap

  abbrev pub snapshot : String → String → String → Action World String
  snapshot pool image snap = do
    run_plain env ("snap" ∷ "create" ∷ snapshot_spec pool image snap ∷ [])
    pure (snapshot_spec pool image snap)

  abbrev pub remove_snapshot : String → String → String → Action World (Unit {0})
  remove_snapshot pool image snap = do
    run_plain env ("snap" ∷ "rm" ∷ snapshot_spec pool image snap ∷ [])
    pure tt

  abbrev pub list_images : String → Action World Elements
  list_images pool = do data' ← run_json env ("ls" ∷ pool ∷ []); pure (elements_of data')

  -- `except CephError`: any other exception goes on.
  abbrev refused_with : String → Exception → Action World Verdict
  refused_with why (ceph_error m) = pure (false, why ⧺ m)
  refused_with why e = raise e

  abbrev lag_verdict : ℤ → MirrorStatus → Verdict
  lag_verdict threshold status =
      if ltb_ℤ threshold status.lag_bytes
      then (
        false,
        "Mirror lag too high: "
            ⧺ show status.lag_bytes
            ⧺ " bytes (threshold: "
            ⧺ show threshold
            ⧺ " bytes)",
      )
      else (true, "ok")

  -- The second `try` of `preflight_check`, and the test of the lag.
  pub check_lag : String → String → ℤ → Action World Verdict
  check_lag pool image threshold =
      attempt (do status ← get_mirror_status env pool image; pure (lag_verdict threshold status))
        (refused_with "Cannot get mirror status: ")

  -- The test of the image's features, after the first `try`.
  pub check_mirroring : String → String → ℤ → Result RbdImageInfo → Action World Verdict
  unfolding check_lag
  check_mirroring pool image threshold (err e) = refused_with "Image not found: " e
  check_mirroring pool image threshold (ok info) =
      if not info.mirroring_enabled
      then pure (false, "Mirroring not enabled on " ⧺ image_spec pool image)
      else check_lag pool image threshold

  unfoldable pub preflight_check : String → String → Option ℤ → Action World Verdict
  unfolding check_mirroring
  preflight_check pool image max_lag_bytes w =
      let (info, w') = get_image_info env pool image w in
      check_mirroring pool image (lag_threshold max_lag_bytes) info w'

  abbrev pub get_vm_rbd_images : String → String → Action World Elements
  get_vm_rbd_images pool vm_id = do
    all_images ← list_images pool
    lift (images_for vm_id all_images)
