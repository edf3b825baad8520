-- ===== src/Migration/Calls.antt =====
-- The calls that the engines of cnf/migration/engine.py make, for a predicate that the calls of
-- the steps satisfy.
use mathlib.Core.Path.{subst}
use open_stack_cnf.Prelude.{
  ℕ, String, ◌≡◌, refl, sym, ◌∙◌, Bool, true, false, inl, inr, Option, none, some, is_some,
  Option-cases, Bool-cases, if◌then◌else◌, str_eq,
}
use open_stack_cnf.Prelude.Dict.{Dict, lookup, lookup-insert}
use open_stack_cnf.Prelude.Percent.{Percent}
use open_stack_cnf.Db.Models.{MigrationType, MigrationState, Migration, Database}
use open_stack_cnf.Effect.Call.{Call, metric, db_session, migration_total}
use open_stack_cnf.Effect.Env.{Env}
use open_stack_cnf.Effect.Action.{Action, modify, with_state}
use open_stack_cnf.Effect.Session.{World}
use open_stack_cnf.Effect.Trace.{
  with_session-history, with_session-db, Preorder, Keeps, Since, Since-trans, Since-map, calls,
  keeps_rules, calls_rules, Keeps-pure,
}
use open_stack_cnf.Migration.Context.{
  Engine, Rollback, on_world, engine_session, transition, fail, register_rollback, update_row,
  put_row, record_state, record_failure,
}

-- A migration has a row in the database.
abbrev pub HasRow : String → World → Type 0
HasRow id w = is_some (lookup id w.db.migrations) ≡ true

insert_keeps :
    (b : Bool) (o : Option Migration) (m : Migration)
    → is_some o ≡ true
    → is_some (if b then some m else o) ≡ true
insert_keeps true o m h = refl
insert_keeps false o m h = h

-- An update of one row loses none.
pub is_some-update_row :
    (i id : String) (f : Migration → Migration) (rows : Dict Migration)
    → is_some (lookup i rows) ≡ true
    → is_some (lookup i (update_row id f rows)) ≡ true
unfolding update_row put_row
is_some-update_row i id f rows h = go (lookup id rows)
  where
    go : (o : Option Migration) → is_some (lookup i (put_row id f o rows)) ≡ true
    go none = h
    go (some m) =
        subst (λ o. is_some o ≡ true) (sym (lookup-insert id i (f m) rows))
          (insert_keeps (str_eq id i) (lookup i rows) (f m) h)

-- What no step changes: the migration, and whether it was aborted.
abbrev pub identity : Engine → String × Bool
identity e = (e.ctx.migration_id, e.aborted)

-- What an action of the engine keeps: every call that it adds to the history satisfies `Q`, the
-- migration and its flag stay, and its row is not lost.
abbrev pub engine_calls : (Call → Type 0) → Preorder Engine
engine_calls Q = record {
  rel = λ e e'.
      Since Q e.world.history e'.world.history
      × (identity e' ≡ identity e)
      × (HasRow e.ctx.migration_id e.world → HasRow e.ctx.migration_id e'.world);
  same = λ e. (Since.same, refl, λ h. h);
  join = λ a b c p q. (
    Since-trans p.0 q.0,
    q.1 ∙ p.1,
    λ h.
        subst (λ i. HasRow i.0 c.world) p.1
          (q.2 (subst (λ i. HasRow i.0 b.world) (sym p.1) (p.2 h))),
  );
}

module _ {Q : Call → Type 0} where
  pub Keeps-on_world :
      {A : Type 0} (m : Action World A) → Keeps (calls Q) m → Keeps (engine_calls Q) (on_world m)
  Keeps-on_world m k = record {
    at = λ e. (
      (k.at e.world).0,
      refl,
      λ h.
          subst (λ d. is_some (lookup e.ctx.migration_id d.migrations) ≡ true)
            (sym (k.at e.world).1) h,
    );
  }

  -- An update of the engine's fields.
  pub Keeps-modify :
      (f : Engine → Engine)
      → ((e : Engine) → (f e).world ≡ e.world)
      → ((e : Engine) → identity (f e) ≡ identity e)
      → Keeps (engine_calls Q) (modify f)
  Keeps-modify f hw hi = record {
    at = λ e. (
      subst (λ w. Since Q e.world.history w.history) (sym (hw e)) Since.same,
      hi e,
      λ h. subst (λ w. HasRow e.ctx.migration_id w) (sym (hw e)) h,
    );
  }

  pub register_rollback-calls : (r : Rollback) → Keeps (engine_calls Q) (register_rollback r)
  unfolding register_rollback
  register_rollback-calls r = record { at = λ e. (Since.same, refl, λ h. h) }

pub ruleset engine_rules =
    (keeps_rules, Keeps-on_world, Keeps-modify, refl, register_rollback-calls)

-- What an action of the engine keeps that writes nothing to the database.
abbrev pub client_calls : (Call → Type 0) → Preorder Engine
client_calls Q = record {
  rel = λ e e'.
      Since Q e.world.history e'.world.history
      × (identity e' ≡ identity e)
      × (e'.world.db ≡ e.world.db);
  same = λ e. (Since.same, refl, refl);
  join = λ a b c p q. (Since-trans p.0 q.0, q.1 ∙ p.1, q.2 ∙ p.2);
}

module _ {Q : Call → Type 0} where
  pub client-on_world :
      {A : Type 0} (m : Action World A) → Keeps (calls Q) m → Keeps (client_calls Q) (on_world m)
  client-on_world m k = record { at = λ e. ((k.at e.world).0, refl, (k.at e.world).1) }

  pub client-modify :
      (f : Engine → Engine)
      → ((e : Engine) → (f e).world ≡ e.world)
      → ((e : Engine) → identity (f e) ≡ identity e)
      → Keeps (client_calls Q) (modify f)
  client-modify f hw hi = record {
    at = λ e. (
      subst (λ w. Since Q e.world.history w.history) (sym (hw e)) Since.same,
      hi e,
      subst (λ w. w.db ≡ e.world.db) (sym (hw e)) refl,
    );
  }

  pub client-register_rollback : (r : Rollback) → Keeps (client_calls Q) (register_rollback r)
  unfolding register_rollback
  client-register_rollback r = record { at = λ e. (Since.same, refl, refl) }

  -- Such an action loses no row.
  pub engine-of-client :
      {A : Type 0} (m : Action Engine A) → Keeps (client_calls Q) m → Keeps (engine_calls Q) m
  engine-of-client m k = record {
    at = λ e. (
      (k.at e).0,
      (k.at e).1,
      λ h. subst (λ d. is_some (lookup e.ctx.migration_id d.migrations) ≡ true) (sym (k.at e).2) h,
    );
  }

  -- A weaker predicate of the calls.
  pub engine_calls-map :
      {R : Call → Type 0} {A : Type 0} (m : Action Engine A)
      → ((c : Call) → Q c → R c)
      → Keeps (engine_calls Q) m
      → Keeps (engine_calls R) m
  engine_calls-map m f k = record { at = λ e. (Since-map f (k.at e).0, (k.at e).1, (k.at e).2) }

pub ruleset client_rules =
    (keeps_rules, client-on_world, client-modify, refl, client-register_rollback)

module _ (env : Env) {Q : Call → Type 0} (sessions : Q db_session) where
  engine_session-calls :
      (body : ℕ → Action Database (Unit {0}))
      → ((id : String) (now : ℕ) (d : Database)
          → is_some (lookup id d.migrations) ≡ true
          → is_some (lookup id (body now d).1.migrations) ≡ true)
      → Keeps (engine_calls Q) (engine_session env body)
  unfolding engine_session with_state
  engine_session-calls body kept = record {
    at = λ e.
        let b = body (env.now e.world.history) in
        (
          subst (Since Q e.world.history) (sym (with_session-history env b e.world))
              (Since.more sessions Since.same),
          refl,
          λ h.
              with_session-db env b e.world
                (λ d. is_some (lookup e.ctx.migration_id d.migrations) ≡ true) h
                (kept e.ctx.migration_id (env.now e.world.history) e.world.db h),
        );
  }

  pub transition-calls :
      (state : MigrationState) (p : Percent) → Keeps (engine_calls Q) (transition env state p)
  unfolding transition record_state
  transition-calls state p = search (engine_rules, engine_session-calls, is_some-update_row) depth 8

  pub fail-calls :
      ((t : MigrationType) (a b c : String) → Q (metric (migration_total t a b c)))
      → (error : String) → Keeps (engine_calls Q) (fail env error)
  unfolding fail record_failure
  fail-calls counted error =
      search (engine_rules, calls_rules, engine_session-calls, is_some-update_row, counted) depth 8
