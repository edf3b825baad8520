-- ===== src/Migration/Stages.antt =====
-- The events of a run as a sequence of stages: one event, or any number of events of a kind.
use mathlib.Core.Path.{subst}
use mathlib.Core.List.{append_assoc}
use open_stack_cnf.Prelude.{
  String, Bool, List, [], ◌∷◌, ◌++◌, map, ◌≡◌, refl, sym, ◌∙◌, ap, inl, inr, true, All,
}
use open_stack_cnf.Db.Models.{MigrationEvent}
use open_stack_cnf.Effect.Exceptions.{Result, ok}
use open_stack_cnf.Effect.Action.{Action, ◌>>=◌}
use open_stack_cnf.Effect.Laws.{Result-cases, >>=-of-ok, >>=-of-err}
use open_stack_cnf.Migration.Context.{Engine}
use open_stack_cnf.Migration.Events.{Prefix, start, next, Records, always}

pub data Stage : Type 1 where
  once : MigrationEvent → Stage
  many : (MigrationEvent → Type 0) → Stage

-- The events go through all stages.
pub data Covers : List Stage → List MigrationEvent → Type 1 where
  finished : Covers [] []
  one :
      {e : MigrationEvent} {ss : List Stage} {es : List MigrationEvent}
      → Covers ss es
      → Covers (once e ∷ ss) (e ∷ es)
  leave :
      {P : MigrationEvent → Type 0} {ss : List Stage} {es : List MigrationEvent}
      → Covers ss es
      → Covers (many P ∷ ss) es
  again :
      {P : MigrationEvent → Type 0} {e : MigrationEvent} {ss : List Stage}
      {es : List MigrationEvent}
      → P e
      → Covers (many P ∷ ss) es
      → Covers (many P ∷ ss) (e ∷ es)

-- The events go through the first stages and stop in one of them.
pub data Begins : List Stage → List MigrationEvent → Type 1 where
  stopped : {ss : List Stage} → Begins ss []
  one :
      {e : MigrationEvent} {ss : List Stage} {es : List MigrationEvent}
      → Begins ss es
      → Begins (once e ∷ ss) (e ∷ es)
  leave :
      {P : MigrationEvent → Type 0} {ss : List Stage} {es : List MigrationEvent}
      → Begins ss es
      → Begins (many P ∷ ss) es
  again :
      {P : MigrationEvent → Type 0} {e : MigrationEvent} {ss : List Stage}
      {es : List MigrationEvent}
      → P e
      → Begins (many P ∷ ss) es
      → Begins (many P ∷ ss) (e ∷ es)

Covers-append :
    {ss tt' : List Stage} {es fs : List MigrationEvent}
    → Covers ss es
    → Covers tt' fs
    → Covers (ss ++ tt') (es ++ fs)
Covers-append Covers.finished d = d
Covers-append (Covers.one c) d = Covers.one (Covers-append c d)
Covers-append (Covers.leave c) d = Covers.leave (Covers-append c d)
Covers-append (Covers.again p c) d = Covers.again p (Covers-append c d)

Begins-append :
    {ss tt' : List Stage} {es fs : List MigrationEvent}
    → Covers ss es
    → Begins tt' fs
    → Begins (ss ++ tt') (es ++ fs)
Begins-append Covers.finished d = d
Begins-append (Covers.one c) d = Begins.one (Begins-append c d)
Begins-append (Covers.leave c) d = Begins.leave (Begins-append c d)
Begins-append (Covers.again p c) d = Begins.again p (Begins-append c d)

Begins-extend :
    {ss : List Stage} {es : List MigrationEvent} (tt' : List Stage)
    → Begins ss es
    → Begins (ss ++ tt') es
Begins-extend t Begins.stopped = Begins.stopped
Begins-extend t (Begins.one b) = Begins.one (Begins-extend t b)
Begins-extend t (Begins.leave b) = Begins.leave (Begins-extend t b)
Begins-extend t (Begins.again p b) = Begins.again p (Begins-extend t b)

abbrev pub PassesTo :
    {A : Type 0} → String → List Stage → (A → Bool) → Engine → Result A × Engine → Type 1
PassesTo {A} id ss full s r =
    (r.1.ctx.migration_id ≡ id)
    × (ys : List MigrationEvent) × (r.1.world.db.events ≡ s.world.db.events ++ ys)
    × Begins ss ys
    × ((a : A) → r.0 ≡ ok a → full a ≡ true → Covers ss ys)

-- What an action records of migration `id` goes through the stages `ss`.
pub record Passes {A : Type 0} (id : String) (ss : List Stage) (full : A → Bool)
    (m : Action Engine A) : Type 1 where
  pub at : (s : Engine) → s.ctx.migration_id ≡ id → PassesTo id ss full s (m s)

pub Prefix-Begins : {ys xs : List MigrationEvent} → Prefix ys xs → Begins (map once xs) ys
Prefix-Begins start = Begins.stopped
Prefix-Begins (next p) = Begins.one (Prefix-Begins p)

pub Covers-once : (xs : List MigrationEvent) → Covers (map once xs) xs
Covers-once [] = Covers.finished
Covers-once (x ∷ xs) = Covers.one (Covers-once xs)

pub All-Begins :
    (P : MigrationEvent → Type 0) (ys : List MigrationEvent) → All P ys → Begins (many P ∷ []) ys
All-Begins P [] a = Begins.stopped
All-Begins P (y ∷ ys) a = Begins.again a.0 (All-Begins P ys a.1)

pub All-Covers :
    (P : MigrationEvent → Type 0) (ys : List MigrationEvent) → All P ys → Covers (many P ∷ []) ys
All-Covers P [] a = Covers.leave Covers.finished
All-Covers P (y ∷ ys) a = Covers.again a.0 (All-Covers P ys a.1)

module _ {A : Type 0} (id : String) where
  pub Passes-Records :
      {xs : List MigrationEvent} {full : A → Bool} (m : Action Engine A)
      → Records id xs full m
      → Passes id (map once xs) full m
  Passes-Records {xs} m r = record {
    at = λ s here.
        let (here', ys, eq, pre, all) = r.at s here in
        (
          here',
          ys,
          eq,
          Prefix-Begins pre,
          λ a p f. subst (Covers (map once xs)) (sym (all a p f)) (Covers-once xs),
        );
  }

module _ {A B : Type 0} (id : String) {ss tt' : List Stage} {full : B → Bool} where
  pub Passes-bind :
      (m : Action Engine A) (f : A → Action Engine B)
      → Passes id ss always m
      → ((a : A) → Passes id tt' full (f a))
      → Passes id (ss ++ tt') full (m >>= f)
  Passes-bind m f rm rf = record {
    at = λ s here.
        let (here', us, eq, pre, all) = rm.at s here in
        elim (Result-cases (m s).0) [
          | inl (a, p) ↦
              let (here'', vs, eq', pre', all') = (rf a).at (m s).1 here' in
              subst (PassesTo id (ss ++ tt') full s) (sym (>>=-of-ok m f s p)) (
                here'',
                us ++ vs,
                eq' ∙ ap (λ l. l ++ vs) eq ∙ append_assoc s.world.db.events us vs,
                Begins-append (all a p refl) pre',
                λ b q fb. Covers-append (all a p refl) (all' b q fb),
              )
          | inr (x, p) ↦
              subst (PassesTo id (ss ++ tt') full s) (sym (>>=-of-err m f s p))
                (here', us, eq, Begins-extend tt' pre, λ b q fb. cc)
        ];
  }
