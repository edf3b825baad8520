-- ===== src/Migration/Reported.antt =====
-- cnf/migration/engine.py: the progress that the tunnel of a live migration reports.
use open_stack_cnf.Prelude.{ℕ, Option, ◌≡◌, sym, ◌∙◌, ap, ◌⊎◌, inl, inr}
use open_stack_cnf.Prelude.Percent.{Percent, whole}
use open_stack_cnf.Effect.Exceptions.{Exception, ok, err}
use open_stack_cnf.Effect.Env.{Env}
use open_stack_cnf.Effect.Session.{World}
use open_stack_cnf.Effect.Laws.{
  Result-cases, ok-injective, >>=-of-ok, >>=-of-err, attempt-of-ok, attempt-of-err,
}
use open_stack_cnf.Migration.Context.{Tunnel}
use open_stack_cnf.Migration.Tunnel.{percent_of, read_progress, get_progress_pct}

-- A percentage that a read of the hypervisor gives: the share of its answer, or 0 where it raises.
abbrev pub IsRead : Env → Tunnel → World → Percent → Type 0
IsRead env t w p =
    ((info : Option (ℕ × ℕ)) × ((read_progress env t w).0 ≡ ok info) × (p ≡ percent_of info))
    ⊎ ((x : Exception) × ((read_progress env t w).0 ≡ err x) × (p ≡ whole 0))

-- What the callback of the tunnel is given: what a read gave, or 100 at the end.
abbrev pub IsReported : Env → Percent → Type 0
IsReported env p = (p ≡ whole 100) ⊎ ((t : Tunnel) × (w : World) × IsRead env t w p)

pub get_progress_pct-IsRead :
    (env : Env) (t : Tunnel) (w : World) (p : Percent)
    → (get_progress_pct env t w).0 ≡ ok p
    → IsRead env t w p
unfolding get_progress_pct
get_progress_pct-IsRead env t w p h = elim (Result-cases (read_progress env t w).0) [
  | inl (info, r) ↦
      let q = ap (λ x. x.0) (>>=-of-ok (read_progress env t) _ w r) in
      inl (info, r, ok-injective (sym h ∙ ap (λ x. x.0) (attempt-of-ok _ _ w q)))
  | inr (x, r) ↦
      let q = ap (λ y. y.0) (>>=-of-err (read_progress env t) _ w r) in
      inr (x, r, ok-injective (sym h ∙ ap (λ y. y.0) (attempt-of-err _ _ w q)))
]
