-- ===== src/OpenStack/Waiting.antt =====
-- cnf/openstack/client.py: the polling loop of `_wait_vm_status`, and the rounding of `pct`.
use open_stack_cnf.Prelude.{
  ℕ, zero, suc, ◌+◌, ◌≤◌, ◌<◌, ◌≡◌, refl, sym, ap, inl, inr, String, Option, none, some, ltb,
  str_eq, eq_iff, if◌then◌else◌, Bool-cases, arith,
}
use open_stack_cnf.Effect.Exceptions.{Exception, ok, err}
use open_stack_cnf.Effect.Call.{Side, History, sleep}
use open_stack_cnf.Effect.Env.{Env, Server}
use open_stack_cnf.Effect.Action.{Action, ◌>>=◌, ◌>>◌}
use open_stack_cnf.Effect.Session.{World, tell}
use open_stack_cnf.Effect.Laws.{>>=-eq-ok}
use open_stack_cnf.OpenStack.{fetch_server, check_status, wait_timeout, wait_loop, wait_vm_status}

err-ne-ok : {A : Type 0} {x : Exception} {a : A} → err x ≡ ok a → ⊥
err-ne-ok h = cc

-- The server was seen in the state that is waited for.
abbrev pub Reached : Env → Side → String → String → Type 0
Reached env side vm_id target =
    (h : History) × (s : Server) × (env.server h side vm_id ≡ ok (some s)) × (s.status ≡ target)

module _ (env : Env) (side : Side) (vm_id target : String) (timeout interval : ℕ) where
  wait_loop_stopped :
      (f elapsed : ℕ)
      → timeout ≤ elapsed
      → wait_loop env side f vm_id target timeout interval elapsed
        ≡ wait_timeout env side vm_id target timeout
  unfolding wait_loop
  wait_loop_stopped zero elapsed h = refl
  wait_loop_stopped (suc f) elapsed h = elim (Bool-cases (ltb elapsed timeout)) [
    | inl more ↦ absurd (ground arith)
    | inr stop ↦ rw stop
  ]

  check_status-Reached :
      (again : Action World (Unit {0})) (o : Option Server) (h : History)
      → env.server h side vm_id ≡ ok o
      → ((w : World) → (again w).0 ≡ ok tt → Reached env side vm_id target)
      → (w : World) → (check_status env side vm_id target again o w).0 ≡ ok tt
      → Reached env side vm_id target
  unfolding check_status
  check_status-Reached again none h e next w r = cc
  check_status-Reached again (some s) h e next w r = elim (Bool-cases (str_eq s.status target)) [
    | inl there ↦ (h, s, e, (eq_iff s.status target).0 there)
    | inr away ↦ elim (Bool-cases (str_eq s.status "ERROR")) [
      | inl broken ↦ absurd (err-ne-ok (rw (away, broken) at r))
      | inr fine ↦ next w (rw (away, fine) at r)
    ]
  ]

  wait_loop-Reached :
      (f elapsed : ℕ) (w : World)
      → (wait_loop env side f vm_id target timeout interval elapsed w).0 ≡ ok tt
      → Reached env side vm_id target
  unfolding wait_loop wait_timeout fetch_server check_status ◌>>=◌
  wait_loop-Reached zero elapsed w r = absurd (err-ne-ok r)
  wait_loop-Reached (suc f) elapsed w r = elim (Bool-cases (ltb elapsed timeout)) [
    | inl more ↦
        let (o, p, q) = >>=-eq-ok (fetch_server env side vm_id) _ w (rw more at r) in
        check_status-Reached _ o w.history p (λ w'. wait_loop-Reached f (elapsed + interval) _)
          (fetch_server env side vm_id w).1 q
    | inr stop ↦ absurd (err-ne-ok (rw stop at r))
  ]

  wait_loop-fuel :
      (f g elapsed : ℕ)
      → 0 < interval
      → timeout ≤ elapsed + f
      → timeout ≤ elapsed + g
      → wait_loop env side f vm_id target timeout interval elapsed
        ≡ wait_loop env side g vm_id target timeout interval elapsed
  unfolding wait_loop
  wait_loop-fuel zero g elapsed p hf hg = sym (wait_loop_stopped g elapsed (omega arith))
  wait_loop-fuel (suc f) zero elapsed p hf hg = wait_loop_stopped (suc f) elapsed (omega arith)
  wait_loop-fuel (suc f) (suc g) elapsed p hf hg =
      ap
        (λ (rest : Action World (Unit {0})).
          if ltb elapsed timeout
          then fetch_server env side vm_id
            >>= check_status env side vm_id target (tell (sleep interval) >> rest)
          else wait_timeout env side vm_id target timeout)
        (wait_loop-fuel f g (elapsed + interval) p (omega arith) (omega arith))

-- With an interval of a second or more, the polling loop ends by its own test: any fuel from the
-- seconds of its timeout on gives the same run. When it returns, the server was seen in the state
-- that was waited for.
pub wait_vm_status-Reached :
    (env : Env) (side : Side) (vm_id target : String) (timeout interval : ℕ) (w : World)
    → 0 < interval
    → ((f : ℕ)
        → timeout ≤ f
        → wait_loop env side f vm_id target timeout interval 0
          ≡ wait_vm_status env side vm_id target timeout interval)
      × ((wait_vm_status env side vm_id target timeout interval w).0 ≡ ok tt
          → Reached env side vm_id target)
unfolding wait_vm_status
wait_vm_status-Reached env side vm_id target timeout interval w p = (
  λ f enough.
      wait_loop-fuel env side vm_id target timeout interval f timeout 0 p (omega arith)
        (omega arith),
  wait_loop-Reached env side vm_id target timeout interval timeout 0 w,
)
