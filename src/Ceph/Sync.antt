-- ===== src/Ceph/Sync.antt =====
-- The polling loop of `wait_for_sync`: it ends, and what it returns is in sync.
use mathlib.Core.Path.{fun_ext, subst}
use open_stack_cnf.Prelude.{
  ℕ, zero, suc, ◌+◌, ◌≤◌, ◌<◌, ◌≡◌, refl, ap, inl, inr, String, true, Option, none, some, ltb,
  if◌then◌else◌, Bool-cases, arith,
}
use open_stack_cnf.Prelude.Int.{ℤ, pos, leb_ℤ, ◌≤ℤ◌}
use open_stack_cnf.Effect.Exceptions.{ok}
use open_stack_cnf.Effect.Env.{Env}
use open_stack_cnf.Effect.Action.{Action, ◌>>=◌}
use open_stack_cnf.Effect.Session.{World}
use open_stack_cnf.Effect.Laws.{>>=-eq-ok, ok-injective}
use open_stack_cnf.Ceph.{
  MirrorStatus, get_mirror_status, sync_timeout, sync_round, sync_loop, wait_for_sync,
  lag_threshold,
}

leb_ℤ-le : (a b : ℤ) → leb_ℤ a b ≡ true → a ≤ℤ b
leb_ℤ-le a b h = ground arith

module _ (env : Env) (pool image : String) (threshold : ℤ) (timeout interval : ℕ) where
  -- Where the loop stops by its own test, its fuel does not matter.
  sync_loop_stopped :
      (f elapsed : ℕ) (last : Option MirrorStatus)
      → timeout ≤ elapsed
      → sync_loop env f pool image threshold timeout interval elapsed last
        ≡ sync_timeout env pool image timeout last
  unfolding sync_loop
  sync_loop_stopped zero elapsed last h = refl
  sync_loop_stopped (suc f) elapsed last h = elim (Bool-cases (ltb elapsed timeout)) [
    | inl more ↦ absurd (ground arith)
    | inr stop ↦ rw stop
  ]

  -- With an interval of a second or more, any fuel from the seconds left on gives the same run:
  -- the loop ends by its own test before the fuel is used up.
  pub sync_loop-fuel :
      (f g elapsed : ℕ) (last : Option MirrorStatus)
      → 0 < interval
      → timeout ≤ elapsed + f
      → timeout ≤ elapsed + g
      → sync_loop env f pool image threshold timeout interval elapsed last
        ≡ sync_loop env g pool image threshold timeout interval elapsed last
  unfolding sync_loop
  sync_loop-fuel zero g elapsed last p hf hg = rw (sync_loop_stopped g elapsed last (omega arith))
  sync_loop-fuel (suc f) zero elapsed last p hf hg =
      sync_loop_stopped (suc f) elapsed last (omega arith)
  sync_loop-fuel (suc f) (suc g) elapsed last p hf hg =
      ap
        (λ (again : MirrorStatus → Action World MirrorStatus).
          if ltb elapsed timeout
          then get_mirror_status env pool image >>= sync_round env threshold interval again
          else sync_timeout env pool image timeout last)
        (fun_ext
          λ s. sync_loop-fuel f g (elapsed + interval) (some s) p (omega arith) (omega arith))

  sync_timeout-err :
      (last : Option MirrorStatus) (w : World) {s : MirrorStatus}
      → (sync_timeout env pool image timeout last w).0 ≡ ok s
      → s.lag_bytes ≤ℤ threshold
  unfolding sync_timeout
  sync_timeout-err none w h = cc
  sync_timeout-err (some x) w h = cc

  sync_round-synced :
      (again : MirrorStatus → Action World MirrorStatus) (status : MirrorStatus) (w : World)
      {s : MirrorStatus}
      → (sync_round env threshold interval again status w).0 ≡ ok s
      → ((w' : World) → (again status w').0 ≡ ok s → s.lag_bytes ≤ℤ threshold)
      → s.lag_bytes ≤ℤ threshold
  unfolding sync_round ◌>>=◌
  sync_round-synced again status w h next = elim (Bool-cases (leb_ℤ status.lag_bytes threshold)) [
    | inl within ↦
        subst (λ x. x.lag_bytes ≤ℤ threshold) (ok-injective (rw within at h))
          (leb_ℤ-le status.lag_bytes threshold within)
    | inr behind ↦ next _ (rw behind at h)
  ]

  pub sync_loop-synced :
      (f elapsed : ℕ) (last : Option MirrorStatus) (w : World) {s : MirrorStatus}
      → (sync_loop env f pool image threshold timeout interval elapsed last w).0 ≡ ok s
      → s.lag_bytes ≤ℤ threshold
  unfolding sync_loop
  sync_loop-synced zero elapsed last w h = sync_timeout-err last w h
  sync_loop-synced (suc f) elapsed last w h = elim (Bool-cases (ltb elapsed timeout)) [
    | inl more ↦
        let (status, _, r) = >>=-eq-ok (get_mirror_status env pool image) _ w (rw more at h) in
        sync_round-synced _ status (get_mirror_status env pool image w).1 r
          (λ w'. sync_loop-synced f (elapsed + interval) (some status) w')
    | inr stop ↦ sync_timeout-err last w (rw stop at h)
  ]

-- What `wait_for_sync` returns is the status of an image whose lag is at most the threshold that
-- is in force, whatever the cluster answers.
pub wait_for_sync-synced :
    (env : Env) (pool image : String) (max_lag : Option ℤ) (timeout interval : ℕ) (w : World)
    (s : MirrorStatus)
    → (wait_for_sync env pool image max_lag timeout interval w).0 ≡ ok s
    → s.lag_bytes ≤ℤ lag_threshold env max_lag
unfolding wait_for_sync
wait_for_sync-synced env pool image max_lag timeout interval w s h =
    sync_loop-synced env pool image (lag_threshold env max_lag) timeout interval timeout 0 none w h

-- A maximal lag of zero is not a request for zero lag: the call is the one with no maximum.
pub wait_for_sync_zero :
    (env : Env) (pool image : String) (timeout interval : ℕ) (w : World)
    → wait_for_sync env pool image (some (pos 0)) timeout interval w
      ≡ wait_for_sync env pool image none timeout interval w
unfolding wait_for_sync
wait_for_sync_zero env pool image timeout interval w = refl
