-- ===== src/Effect/Laws.antt =====
-- Laws of the monad of state and exceptions: how a run that returns, or that raises, came about.
use open_stack_cnf.Prelude.{◌≡◌, refl, ap, ◌⊎◌, inl, inr, List, [], ◌∷◌}
use open_stack_cnf.Effect.Exceptions.{Exception, Result, ok, err}
use open_stack_cnf.Effect.Action.{Action, pure, continue, attempt, for_each, ◌>>=◌}

pub Result-cases {ℓ} :
    {A : Type ℓ} (r : Result A) → ((a : A) × (r ≡ ok a)) ⊎ ((e : Exception) × (r ≡ err e))
Result-cases (ok a) = inl (a, refl)
Result-cases (err e) = inr (e, refl)

pub ok-injective : {A : Type 0} {a b : A} → ok a ≡ ok b → a ≡ b
ok-injective h = cc

module _ {S A B : Type 0} where
  continue-eq-ok :
      (r : Result A) (f : A → Action S B) (s : S) {b : B}
      → (continue r f s).0 ≡ ok b
      → (a : A) × (r ≡ ok a) × ((f a s).0 ≡ ok b)
  continue-eq-ok (ok a) f s h = (a, refl, h)
  continue-eq-ok (err e) f s h = cc

  -- A sequence that returns: both parts do.
  pub >>=-eq-ok :
      (m : Action S A) (f : A → Action S B) (s : S) {b : B}
      → ((m >>= f) s).0 ≡ ok b
      → (a : A) × ((m s).0 ≡ ok a) × ((f a (m s).1).0 ≡ ok b)
  unfolding ◌>>=◌
  >>=-eq-ok m f s h = continue-eq-ok (m s).0 f (m s).1 h

  -- A sequence whose first part returns goes on from there.
  pub >>=-of-ok :
      (m : Action S A) (f : A → Action S B) (s : S) {a : A}
      → (m s).0 ≡ ok a
      → (m >>= f) s ≡ f a (m s).1
  unfolding ◌>>=◌
  >>=-of-ok m f s h = rw h

  -- A sequence whose first part raises ends there.
  pub >>=-of-err :
      (m : Action S A) (f : A → Action S B) (s : S) {e : Exception}
      → (m s).0 ≡ err e
      → (m >>= f) s ≡ (err e, (m s).1)
  unfolding ◌>>=◌
  >>=-of-err m f s h = rw h

module _ {S A : Type 0} where
  -- A handler that always returns makes a `try` that always returns.
  pub attempt_returns :
      (m : Action S A) (h : Exception → Action S A)
      → ((e : Exception) (s : S) → (a : A) × ((h e s).0 ≡ ok a))
      → (s : S) → (a : A) × ((attempt m h s).0 ≡ ok a)
  unfolding attempt
  attempt_returns m h total s = elim (Result-cases (m s).0) [
    | inl (a, p) ↦ (a, rw (p, attempt))
    | inr (e, p) ↦ let (a, q) = total e (m s).1 in (a, rw (p, attempt) q)
  ]

  -- A `try` whose body returns.
  pub attempt-of-ok :
      (m : Action S A) (h : Exception → Action S A) (s : S) {a : A}
      → (m s).0 ≡ ok a
      → attempt m h s ≡ (ok a, (m s).1)
  unfolding attempt
  attempt-of-ok m h s p = rw (p, attempt) refl

  -- A `try` whose body raises goes on with its handler.
  pub attempt-of-err :
      (m : Action S A) (h : Exception → Action S A) (s : S) {e : Exception}
      → (m s).0 ≡ err e
      → attempt m h s ≡ h e (m s).1
  unfolding attempt
  attempt-of-err m h s p = rw (p, attempt) refl

  -- A `try` whose handler does nothing leaves the state that its body left.
  pub attempt-pure-state :
      (m : Action S A) (a : A) (s : S) → (attempt m (λ _. pure a) s).1 ≡ (m s).1
  attempt-pure-state m a s = elim (Result-cases (m s).0) [
    | inl (b, p) ↦ ap (λ r. r.1) (attempt-of-ok m (λ _. pure a) s p)
    | inr (e, p) ↦ ap (λ r. r.1) (attempt-of-err m (λ _. pure a) s p)
  ]

  -- A loop of rounds that always return always returns.
  pub for_each_returns :
      (xs : List A) (f : A → Action S (Unit {0}))
      → ((x : A) (s : S) → (f x s).0 ≡ ok tt)
      → (s : S) → (for_each xs f s).0 ≡ ok tt
  unfolding for_each
  for_each_returns [] f total s = refl
  for_each_returns (x ∷ xs) f total s = rw (total x s) (for_each_returns xs f total (f x s).1)
