-- ===== src/Migration/Events.antt =====
-- cnf/migration/engine.py: the events that a cold migration records.
use mathlib.Core.Path.{subst}
use mathlib.Core.List.{append_assoc, append-nil}
use open_stack_cnf.Prelude.{
  String, Bool, true, List, [], ◌∷◌, ◌++◌, ◌≡◌, refl, sym, ◌∙◌, ap, inl, inr,
}
use open_stack_cnf.Prelude.Percent.{Percent}
use open_stack_cnf.Db.Models.{MigrationState, MigrationEvent}
use open_stack_cnf.Effect.Exceptions.{Result, ok}
use open_stack_cnf.Effect.Env.{Env}
use open_stack_cnf.Effect.Session.{with_session}
use open_stack_cnf.Effect.Action.{Action, with_state, ◌>>=◌}
use open_stack_cnf.Effect.Laws.{Result-cases, >>=-of-ok, >>=-of-err}
use open_stack_cnf.Effect.Trace.{Keeps}
use open_stack_cnf.Migration.Context.{Engine, transition, event_of, engine_session, record_state}
use open_stack_cnf.Migration.Calls.{client_calls}
use open_stack_cnf.Migration.Row.{with_session-of-ok, with_session-of-err}

-- `xs` is a prefix of `ys`.
pub data Prefix {A : Type 0} : List A → List A → Type 0 where
  start : {ys : List A} → Prefix [] ys
  next : {x : A} {xs ys : List A} → Prefix xs ys → Prefix (x ∷ xs) (x ∷ ys)

Prefix-append :
    {A : Type 0} (xs : List A) {ys zs : List A} → Prefix ys zs → Prefix (xs ++ ys) (xs ++ zs)
Prefix-append [] p = p
Prefix-append (x ∷ xs) p = next (Prefix-append xs p)

Prefix-extend : {A : Type 0} {xs ys : List A} (zs : List A) → Prefix xs ys → Prefix xs (ys ++ zs)
Prefix-extend zs start = start
Prefix-extend zs (next p) = next (Prefix-extend zs p)

-- The events recorded from `s` to a result: the first of the events `xs`, and all of them if a value
-- is returned that is `full`. The migration is still `id`.
abbrev pub RecordsTo :
    {A : Type 0} → String → List MigrationEvent → (A → Bool) → Engine → Result A × Engine → Type 0
RecordsTo {A} id xs full s r =
    (r.1.ctx.migration_id ≡ id)
    × (ys : List MigrationEvent) × (r.1.world.db.events ≡ s.world.db.events ++ ys)
    × Prefix ys xs
    × ((a : A) → r.0 ≡ ok a → full a ≡ true → ys ≡ xs)

pub record Records {A : Type 0} (id : String) (xs : List MigrationEvent) (full : A → Bool)
    (m : Action Engine A) : Type 0 where
  pub at : (s : Engine) → s.ctx.migration_id ≡ id → RecordsTo id xs full s (m s)

abbrev pub always : {A : Type 0} → A → Bool
always a = true

module _ {A : Type 0} (id : String) where
  pub Records-client :
      {Q : _ → Type 0} {full : A → Bool} (m : Action Engine A)
      → Keeps (client_calls Q) m
      → Records id [] full m
  Records-client m k = record {
    at = λ s here. (
      ap (λ i. i.0) (k.at s).1 ∙ here,
      [],
      ap (λ d. d.events) (k.at s).2 ∙ sym (append-nil s.world.db.events),
      start,
      λ a p f. refl,
    );
  }

module _ {A B : Type 0} (id : String) {xs ys : List MigrationEvent} {full : B → Bool} where
  pub Records-bind :
      (m : Action Engine A) (f : A → Action Engine B)
      → Records id xs always m
      → ((a : A) → Records id ys full (f a))
      → Records id (xs ++ ys) full (m >>= f)
  Records-bind m f rm rf = record {
    at = λ s here.
        let (here', us, eq, pre, all) = rm.at s here in
        elim (Result-cases (m s).0) [
          | inl (a, p) ↦
              let (here'', vs, eq', pre', all') = (rf a).at (m s).1 here' in
              subst (RecordsTo id (xs ++ ys) full s) (sym (>>=-of-ok m f s p)) (
                here'',
                us ++ vs,
                eq' ∙ ap (λ l. l ++ vs) eq ∙ append_assoc s.world.db.events us vs,
                subst (λ l. Prefix (l ++ vs) (xs ++ ys)) (sym (all a p refl))
                    (Prefix-append xs pre'),
                λ b q fb. ap (λ l. l ++ vs) (all a p refl) ∙ ap (λ l. xs ++ l) (all' b q fb),
              )
          | inr (x, p) ↦
              subst (RecordsTo id (xs ++ ys) full s) (sym (>>=-of-err m f s p))
                (here', us, eq, Prefix-extend ys pre, λ b q fb. cc)
        ];
  }

module _ (env : Env) (state : MigrationState) (p : Percent) where
  pub transition_records :
      (s : Engine)
      → RecordsTo s.ctx.migration_id
          (event_of s.ctx.migration_id state p ∷ [])
          always
          s
          (transition env state p s)
  unfolding transition ◌>>=◌ with_state engine_session record_state
  transition_records s =
      let body = record_state s.ctx.migration_id state p (env.now s.world.history) in
      elim (Result-cases (with_session env body s.world).0) [
        | inl (a, q) ↦ (
          refl,
          event_of s.ctx.migration_id state p ∷ [],
          ap (λ d. d.events) (with_session-of-ok env body s.world q),
          next start,
          λ b h f. refl,
        )
        | inr (x, q) ↦ (
          refl,
          [],
          ap (λ d. d.events) (with_session-of-err env body s.world q)
              ∙ sym (append-nil s.world.db.events),
          start,
          λ b h f. cc,
        )
      ]

  pub Records-transition :
      (id : String) → Records id (event_of id state p ∷ []) always (transition env state p)
  Records-transition id = record {
    at = λ s here.
        subst (λ i. RecordsTo i (event_of i state p ∷ []) always s (transition env state p s)) here
          (transition_records s);
  }
