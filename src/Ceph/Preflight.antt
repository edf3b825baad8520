-- ===== src/Ceph/Preflight.antt =====
-- `preflight_check`: when it accepts an image, and what it may raise.
use open_stack_cnf.Prelude.{
  ◌≡◌, ◌≢◌, ◌↔◌, refl, ◌⧺◌, ◌∙◌, ap, sym, ◌⊎◌, inl, inr, String, Bool, true, false, Option,
  Bool-cases, arith,
}
use open_stack_cnf.Prelude.Int.{ℤ, ◌≤ℤ◌}
use open_stack_cnf.Effect.Exceptions.{Result, Exception, ok, err, ceph_error}
use open_stack_cnf.Effect.Env.{Env}
use open_stack_cnf.Effect.Action.{attempt, ◌>>=◌}
use open_stack_cnf.Effect.Laws.{Result-cases, attempt-of-err, >>=-of-err}
use open_stack_cnf.Effect.Session.{World}
use open_stack_cnf.Ceph.{
  MirrorStatus, RbdImageInfo, get_mirror_status, get_image_info, lag_threshold, Verdict, check_lag,
  check_mirroring, preflight_check, refused_with,
}

-- The two reads of `preflight_check`, one after the other.
abbrev pub info_read : Env → String → String → World → Result RbdImageInfo
info_read env pool image w = (get_image_info env pool image w).0

abbrev pub status_read : Env → String → String → World → Result MirrorStatus
status_read env pool image w =
    (get_mirror_status env pool image (get_image_info env pool image w).1).0

-- An independent description of the images that may be migrated, from what the two reads give.
abbrev pub Accepts : ℤ → Result RbdImageInfo → Result MirrorStatus → Type 0
Accepts threshold (ok info) (ok status) =
    (info.mirroring_enabled ≡ true) × (status.lag_bytes ≤ℤ threshold)
Accepts threshold (ok info) (err _) = ⊥
Accepts threshold (err _) _ = ⊥

-- A verdict that lets the migration go on.
abbrev pub says_yes : Result Verdict → Bool
says_yes (ok v) = v.0
says_yes (err _) = false

-- What becomes of a failing read.
abbrev pub Blames : Result RbdImageInfo → Result MirrorStatus → Result Verdict → Type 0
Blames info status r =
    ((m : String) → info ≡ err (ceph_error m) → r ≡ ok (false, "Image not found: " ⧺ m))
    × ((i : RbdImageInfo) (m : String)
        → info ≡ ok i
        → i.mirroring_enabled ≡ true
        → status ≡ err (ceph_error m)
        → r ≡ ok (false, "Cannot get mirror status: " ⧺ m))
    × ((e : Exception)
        → r ≡ err e
        → ((info ≡ err e) ⊎ (status ≡ err e)) × ((m : String) → e ≢ ceph_error m))

abbrev blamed : String → Exception → Result Verdict
blamed why (ceph_error m) = ok (false, why ⧺ m)
blamed why e = err e

refused_with-blamed :
    (env : Env) (why : String) (e : Exception) (w : World)
    → (refused_with env why e w).0 ≡ blamed why e
refused_with-blamed env why (ceph_error m) w = refl
refused_with-blamed env why _ w = refl

err_same : {A : Type 0} {a b : Exception} (r : Result A) → r ≡ err a → r ≡ err b → a ≡ b
err_same r p q = cc

blamed-eq-err :
    (why : String) (a b : Exception)
    → blamed why a ≡ err b
    → (a ≡ b) × ((m : String) → b ≢ ceph_error m)
blamed-eq-err why (ceph_error m) b h = absurd cc
blamed-eq-err why _ b h = (err_same _ refl h, λ m q. cc)

module _ (env : Env) (pool image : String) (threshold : ℤ) where
  check_lag-Accepts :
      (w : World) (info : RbdImageInfo)
      → info.mirroring_enabled ≡ true
      → (says_yes (check_lag env pool image threshold w).0 ≡ true)
        ↔ Accepts threshold (ok info) (get_mirror_status env pool image w).0
  unfolding check_lag attempt ◌>>=◌
  check_lag-Accepts w info on = ground arith

  check_lag-of-err :
      (w : World) (e : Exception)
      → (get_mirror_status env pool image w).0 ≡ err e
      → (check_lag env pool image threshold w).0 ≡ blamed "Cannot get mirror status: " e
  unfolding check_lag
  check_lag-of-err w e h =
      let raised = ap (λ r. r.0) (>>=-of-err (get_mirror_status env pool image) _ w h) in
      ap (λ r. r.0) (attempt-of-err _ _ w raised)
      ∙ refused_with-blamed env "Cannot get mirror status: " e _

  check_lag-ne-err :
      (w : World) (status : MirrorStatus) (e : Exception)
      → (get_mirror_status env pool image w).0 ≡ ok status
      → (check_lag env pool image threshold w).0 ≢ err e
  unfolding check_lag attempt ◌>>=◌
  check_lag-ne-err w status e h q = ground arith

  check_lag-Blames :
      (info : RbdImageInfo) (w : World)
      → Blames
          (ok info)
          (get_mirror_status env pool image w).0
          (check_lag env pool image threshold w).0
  check_lag-Blames info w = elim (Result-cases (get_mirror_status env pool image w).0) [
    | inl (status, p) ↦
        (λ m q. absurd cc, λ i m q on r. absurd cc, λ x q. absurd (check_lag-ne-err w status x p q))
    | inr (e, p) ↦
        let b = check_lag-of-err w e p in
        (
          λ m q. absurd cc,
          λ i m q on r. b ∙ ap (blamed "Cannot get mirror status: ") (err_same _ p r),
          λ x q.
              let (same, other) = blamed-eq-err _ e x (sym b ∙ q) in (inr (p ∙ ap err same), other),
        )
  ]

  check_mirroring-Accepts :
      (info : Result RbdImageInfo) (w : World)
      → (says_yes (check_mirroring env pool image threshold info w).0 ≡ true)
        ↔ Accepts threshold info (get_mirror_status env pool image w).0
  unfolding check_mirroring
  check_mirroring-Accepts (err e) w = ground arith
  check_mirroring-Accepts (ok info) w = elim (Bool-cases info.mirroring_enabled) [
    | inl on ↦ simp on (check_lag-Accepts w info on)
    | inr off ↦ ground arith
  ]

  check_mirroring-Blames :
      (info : Result RbdImageInfo) (w : World)
      → Blames info
          (get_mirror_status env pool image w).0
          (check_mirroring env pool image threshold info w).0
  unfolding check_mirroring
  check_mirroring-Blames (err e) w =
      let p = refused_with-blamed env "Image not found: " e w in
      (
        λ m q. p ∙ ap (blamed "Image not found: ") (err_same _ refl q),
        λ i m q. absurd cc,
        λ x q. let (same, other) = blamed-eq-err _ e x (sym p ∙ q) in (inl (ap err same), other),
      )
  check_mirroring-Blames (ok info) w = elim (Bool-cases info.mirroring_enabled) [
    | inl on ↦ simp on (check_lag-Blames info w)
    | inr off ↦ simp off (λ m q. absurd cc, λ i m q on. absurd cc, λ x q. absurd cc)
  ]

-- `preflight_check` accepts an image exactly when both reads succeed, mirroring is enabled on the
-- image, and its lag is at most the threshold in force.
pub preflight_check-Accepts :
    (env : Env) (pool image : String) (max_lag : Option ℤ) (w : World)
    → (says_yes (preflight_check env pool image max_lag w).0 ≡ true)
      ↔ Accepts
          (lag_threshold env max_lag)
          (info_read env pool image w)
          (status_read env pool image w)
unfolding preflight_check
preflight_check-Accepts env pool image max_lag w =
    check_mirroring-Accepts env pool image (lag_threshold env max_lag)
      (get_image_info env pool image w).0 (get_image_info env pool image w).1

-- A failing `rbd` command is a verdict of `preflight_check`: a failure of the first read says that
-- the image was not found, and one of the second, on an image with mirroring enabled, that its
-- status cannot be read, both with the failure's message. What `preflight_check` raises is raised by
-- one of the reads and is no such failure.
pub preflight_check-Blames :
    (env : Env) (pool image : String) (max_lag : Option ℤ) (w : World)
    → Blames
        (info_read env pool image w)
        (status_read env pool image w)
        (preflight_check env pool image max_lag w).0
unfolding preflight_check
preflight_check-Blames env pool image max_lag w =
    check_mirroring-Blames env pool image (lag_threshold env max_lag)
      (get_image_info env pool image w).0 (get_image_info env pool image w).1
