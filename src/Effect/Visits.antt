-- ===== src/Effect/Visits.antt =====
-- A call that is made stays in the history: through a sequence, and through a loop that makes one
-- for each element.
use mathlib.Core.Path.{subst}
use open_stack_cnf.Prelude.{List, [], ◌∷◌, ◌≡◌, sym, inl, inr, In}
use open_stack_cnf.Effect.Exceptions.{ok}
use open_stack_cnf.Effect.Call.{Call, History}
use open_stack_cnf.Effect.Action.{Action, for_each, continue, ◌>>=◌}
use open_stack_cnf.Effect.Session.{World}
use open_stack_cnf.Effect.Laws.{Result-cases, >>=-of-ok, >>=-of-err}
use open_stack_cnf.Effect.Trace.{Keeps, Since, same, more, calls, Keeps-for_each}

pub Since-In : {Q : Call → Type 0} {a b : History} (c : Call) → Since Q a b → In c a → In c b
Since-In c same i = i
Since-In c (more q s) i = inr (Since-In c s i)

-- A call of the first part of a sequence stays in the history.
pub bind-In :
    {Q : Call → Type 0} {A B : Type 0} (c : Call) (m : Action World A) (f : A → Action World B)
    (w : World)
    → In c (m w).1.history
    → ((a : A) → Keeps (calls Q) (f a))
    → In c ((m >>= f) w).1.history
bind-In c m f w i k = elim (Result-cases (m w).0) [
  | inl (a, p) ↦
      subst (λ r. In c r.1.history) (sym (>>=-of-ok m f w p)) (Since-In c ((k a).at (m w).1).0 i)
  | inr (x, p) ↦ subst (λ r. In c r.1.history) (sym (>>=-of-err m f w p)) i
]

module _ {A : Type 0} {Q : Call → Type 0} (f : A → Action World (Unit {0})) (c : A → Call)
    (returns : (x : A) (w : World) → (f x w).0 ≡ ok tt) (keeps : (x : A) → Keeps (calls Q) (f x))
    (visits : (x : A) (w : World) → In (c x) (f x w).1.history) where
  first-In :
      (y : A) (ys : List A) (x : A) (w : World)
      → In x (y ∷ ys)
      → (In x ys → In (c x) (for_each ys f (f y w).1).1.history)
      → In (c x) (for_each (y ∷ ys) f w).1.history
  unfolding for_each
  first-In y ys x w i later =
      let next = (f y w).1 in
      subst (λ r. In (c x) (continue r (λ _. for_each ys f) next).1.history) (sym (returns y w))
        (elim i [
          | inl p ↦
              Since-In (c x) ((Keeps-for_each ys f keeps).at next).0
                (subst (λ z. In (c z) next.history) (sym p) (visits y w))
          | inr j ↦ later j
        ])

  -- A loop whose rounds return has made the call of each element.
  pub for_each-In :
      (xs : List A) (x : A) (w : World) → In x xs → In (c x) (for_each xs f w).1.history
  for_each-In [] x w i = absurd i
  for_each-In (y ∷ ys) x w i = first-In y ys x w i (for_each-In ys x (f y w).1)
