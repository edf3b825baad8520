-- ===== src/Api/Pages.antt =====
-- cnf/api/v1/migrations.py: the pages of `list_migrations`.
use mathlib.Core.Path.{subst}
use mathlib.Core.List.{Permᴰ}
use open_stack_cnf.Prelude.{
  ℕ, ◌≤◌, arith, String, Bool, true, false, Option, none, some, List, map, ◌≡◌, refl, sym, ap, inl,
  inr, if◌then◌else◌, Bool-cases, Option-cases, str_eq, keep, take, drop,
}
use open_stack_cnf.Prelude.Dict.{rows}
use open_stack_cnf.Prelude.Sorting.{sort_by-IsSorted, sort_by-Permᴰ, IsSorted}
use open_stack_cnf.Db.Models.{Migration, MigrationState, Database, state_named, state_value}
use open_stack_cnf.Db.Names.{state_named-state_value}
use open_stack_cnf.Effect.Exceptions.{ok}
use open_stack_cnf.Effect.Env.{Env}
use open_stack_cnf.Effect.Action.{with_state}
use open_stack_cnf.Effect.Session.{World}
use open_stack_cnf.Effect.Sessions.{with_session-value}
use open_stack_cnf.Effect.Laws.{ok-injective}
use open_stack_cnf.Api.Migrations.{
  MigrationSummary, summary_of, migration_before, newest_first, filtered, page_from, list_query,
  list_migrations,
}

-- One migration was not created before another.
abbrev pub IsNoOlder : Migration → Migration → Type 0
IsNoOlder x y = y.created_at ≤ x.created_at

before-IsNoOlder :
    (first : String → String → Bool) (x y : Migration)
    → migration_before first x y ≡ true
    → IsNoOlder x y
before-IsNoOlder first x y h = ground arith

after-IsNoOlder :
    (first : String → String → Bool) (x y : Migration)
    → migration_before first x y ≡ false
    → IsNoOlder y x
after-IsNoOlder first x y h = ground arith

-- The rows that the text of a filter stands for: all of them where there is none or it is blank, and
-- else those whose state has this text as its value.
abbrev pub asked_for : Option String → List Migration → List Migration
asked_for none ms = ms
asked_for (some t) ms = if str_eq t "" then ms else keep (λ m. str_eq (state_value m.state) t) ms

-- A page of the rows that are asked for, the newest first.
abbrev pub IsPage : Option String → ℕ → ℕ → List Migration → List MigrationSummary → Type 0
IsPage state limit offset ms xs =
    (ordered : List Migration) × Permᴰ ordered (asked_for state ms)
    × IsSorted IsNoOlder ordered
    × (xs ≡ map summary_of (take limit (drop offset ordered)))

module _ (first : String → String → Bool) (limit offset : ℕ) (d : Database)
    (xs : List MigrationSummary) where
  select-IsPage :
      (s : Option MigrationState) (state : Option String)
      → filtered s (rows d.migrations) ≡ asked_for state (rows d.migrations)
      → ok (page_from first limit offset s (rows d.migrations)) ≡ ok xs
      → IsPage state limit offset (rows d.migrations) xs
  unfolding page_from newest_first
  select-IsPage s state same h =
      let ms = filtered s (rows d.migrations) in
      (
        newest_first first ms,
        subst (Permᴰ (newest_first first ms)) same (sort_by-Permᴰ (migration_before first) ms),
        sort_by-IsSorted IsNoOlder (migration_before first) (λ x y z p q. omega (arith, p, q))
            (before-IsNoOlder first) (after-IsNoOlder first) ms,
        sym (ok-injective h),
      )

  query-IsPage :
      (state : Option String)
      → (list_query first state limit offset d).0 ≡ ok xs
      → IsPage state limit offset (rows d.migrations) xs
  unfolding list_query
  query-IsPage none h = select-IsPage none none refl h
  query-IsPage (some t) h = elim (Bool-cases (str_eq t "")) [
    | inl p ↦ select-IsPage none (some t) (rw p refl) (rw p at h)
    | inr p ↦ elim (Option-cases (state_named t)) [
      | inl q ↦ absurd (cc (rw (p, q) at h))
      | inr (s, q) ↦
          select-IsPage (some s) (some t)
            (rw p (
              ap (λ u. keep (λ m. str_eq (state_value m.state) u) (rows d.migrations))
                ((state_named-state_value t s).0 q)))
            (rw (p, q) at h)
    ]
  ]

-- Where `list_migrations` answers, its answer is the page at the offset, of at most `limit`, of the
-- rows in the state that is asked for, or of all rows if none is, the newest first. In which order
-- migrations of the same time stand is up to the database.
pub list_migrations-IsPage :
    (env : Env) (state : Option String) (limit offset : ℕ) (w : World) (xs : List MigrationSummary)
    → (list_migrations env state limit offset w).0 ≡ ok xs
    → IsPage state limit offset (rows w.db.migrations) xs
unfolding list_migrations with_state
list_migrations-IsPage env state limit offset w xs h =
    let (_, p) = with_session-value env _ w h in
    query-IsPage (env.first w.history) limit offset w.db xs state p
