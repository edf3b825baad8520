-- ===== src/Effect/Action.antt =====
-- Methods that change an object and may raise: what was written before a raise stays written.
use open_stack_cnf.Prelude.{Bool, List, [], ◌∷◌, if◌then◌else◌}
use open_stack_cnf.Effect.Exceptions.{Exception, Result, ok, err}

abbrev pub Action : Type 0 → Type 0 → Type 0
Action S A = S → Result A × S

module _ {S A : Type 0} where
  abbrev pub pure : A → Action S A
  pure a s = (ok a, s)

  abbrev pub raise : Exception → Action S A
  raise e s = (err e, s)

  abbrev pub lift : Result A → Action S A
  lift r s = (r, s)

  abbrev pub gets : (S → A) → Action S A
  gets f s = (ok (f s), s)

  -- An action that depends on the state in which it begins.
  unfoldable pub with_state : (S → Action S A) → Action S A
  with_state k s = k s s

  -- `try: m` with `except Exception as e: h e`
  unfoldable pub attempt : Action S A → (Exception → Action S A) → Action S A
  attempt m h s = let (r, s') = m s in elim r [ ok a ↦ (ok a, s') | err e ↦ h e s' ]

abbrev pub modify : {S : Type 0} → (S → S) → Action S (Unit {0})
modify f s = (ok tt, f s)

module _ {S A B : Type 0} where
  abbrev pub continue : Result A → (A → Action S B) → Action S B
  continue (ok a) f s = f a s
  continue (err e) f s = (err e, s)

  infixl 10 ◌>>=◌ ◌>>◌
  unfoldable pub ◌>>=◌ : Action S A → (A → Action S B) → Action S B
  ◌>>=◌ m f s = let (r, s') = m s in continue r f s'

  abbrev pub ◌>>◌ : Action S A → Action S B → Action S B
  m >> n = m >>= λ _. n

abbrev pub after_result : {A : Type 0} → Result A → Result (Unit {0}) → Result A
after_result r (ok _) = r
after_result r (err e) = err e

-- `try: m` with `finally: f`
unfoldable pub finally : {S A : Type 0} → Action S A → Action S (Unit {0}) → Action S A
finally m f s = let (r, s') = m s in let (q, s'') = f s' in (after_result r q, s'')

-- `for x in xs: f x`
unfoldable pub for_each : {S A : Type 0} → List A → (A → Action S (Unit {0})) → Action S (Unit {0})
for_each [] f s = (ok tt, s)
for_each (x ∷ xs) f s = let (r, s') = f x s in continue r (λ _. for_each xs f) s'

abbrev pub when : {S : Type 0} → Bool → Action S (Unit {0}) → Action S (Unit {0})
when b m = if b then m else pure tt
