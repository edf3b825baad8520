-- ===== src/Api/Migrations.antt =====
-- cnf/api/v1/migrations.py: the status of migrations, and their control. The events of a
-- migration are in the order of insertion. A text is a page's
-- answer as the record of its fields; a timestamp of an event is left out. `limit` and `offset` are
-- not negative.
use open_stack_cnf.Prelude.{
  ℕ, String, ◌⧺◌, Bool, true, false, Option, none, some, List, map, ltb, ◌==◌, ◌||◌, ◌&&◌,
  if◌then◌else◌, str_eq, keep, take, drop,
}
use open_stack_cnf.Prelude.Dict.{Dict, lookup, rows}
use open_stack_cnf.Prelude.Percent.{Percent}
use open_stack_cnf.Prelude.Sorting.{sort_by}
use open_stack_cnf.Db.Models.{
  Migration, MigrationEvent, MigrationState, Database, type_value, state_value, state_named,
  aborted, done, failed,
}
use open_stack_cnf.Effect.Exceptions.{Exception, http_error}
use open_stack_cnf.Effect.Env.{Env}
use open_stack_cnf.Effect.Action.{Action, pure, raise, gets, modify, with_state, ◌>>=◌, ◌>>◌}
use open_stack_cnf.Effect.Session.{World, with_session}
use open_stack_cnf.Migration.Context.{update_row}

pub record MigrationSummary : Type 0 where
  pub id : String
  pub vm_id : String
  pub source_cluster_id : String
  pub dest_cluster_id : String
  pub type : String
  pub state : String
  pub progress_pct : Percent
  pub error : Option String
  pub started_at : Option ℕ
  pub finished_at : Option ℕ

abbrev pub summary_of : Migration → MigrationSummary
summary_of m = record {
  id = m.id;
  vm_id = m.vm_id;
  source_cluster_id = m.source_cluster_id;
  dest_cluster_id = m.dest_cluster_id;
  type = type_value m.type;
  state = state_value m.state;
  progress_pct = m.progress_pct;
  error = m.error;
  started_at = m.started_at;
  finished_at = m.finished_at;
}

pub record MigrationPage : Type 0 where
  pub summary : MigrationSummary
  pub options : Dict (Option String)
  pub rbd_images : Option (List String)
  pub vm_ips : Option (List String)

abbrev pub page_of : Migration → MigrationPage
page_of m = record {
  summary = summary_of m;
  options = m.options;
  rbd_images = m.rbd_images;
  vm_ips = m.vm_ips;
}

-- `order_by(Migration.created_at.desc())`; migrations of the same time come as the database gives
-- them.
abbrev pub migration_before : (String → String → Bool) → Migration → Migration → Bool
migration_before first x y =
    ltb y.created_at x.created_at || (x.created_at == y.created_at && first x.id y.id)

unfoldable pub newest_first : (String → String → Bool) → List Migration → List Migration
unfolding sort_by
newest_first first = sort_by (migration_before first)

-- `Migration.state == MigrationState(state)`
abbrev pub is_state : MigrationState → MigrationState → Bool
is_state a b = str_eq (state_value a) (state_value b)

-- The rows that a filter lets through, if the text of the filter is a state or is blank.
abbrev pub filtered : Option MigrationState → List Migration → List Migration
filtered none ms = ms
filtered (some s) ms = keep (λ m. is_state m.state s) ms

module _ (first : String → String → Bool) where
  unfoldable pub page_from : ℕ → ℕ → Option MigrationState → List Migration → List MigrationSummary
  unfolding newest_first take drop
  page_from limit offset state ms =
      map summary_of (take limit (drop offset (newest_first first (filtered state ms))))

  abbrev pub select_page : ℕ → ℕ → Option MigrationState → Action Database (List MigrationSummary)
  select_page limit offset state = gets (λ d. page_from limit offset state (rows d.migrations))

  -- The branch for a text that is not blank.
  abbrev pub select_state :
      String → ℕ → ℕ → Option MigrationState → Action Database (List MigrationSummary)
  select_state text limit offset none = raise (http_error 400 ("Invalid state: " ⧺ text))
  select_state text limit offset (some s) = select_page limit offset (some s)

  -- The body of the session of `list_migrations`.
  unfoldable pub list_query : Option String → ℕ → ℕ → Action Database (List MigrationSummary)
  unfolding state_named
  list_query none limit offset = select_page limit offset none
  list_query (some t) limit offset =
      if str_eq t ""
      then select_page limit offset none
      else select_state t limit offset (state_named t)

abbrev pub not_found : Exception
not_found = http_error 404 "Migration not found"

-- `state in (DONE, FAILED, ABORTED)`
abbrev pub is_terminal : MigrationState → Bool
is_terminal done = true
is_terminal failed = true
is_terminal aborted = true
is_terminal _ = false

abbrev pub abort_row : Migration → Migration
abort_row m = record m { state = aborted; error = some "Aborted by user" }

-- The tests of the first session of `abort_migration`.
abbrev pub may_abort : Option Migration → Action Database (Unit {0})
may_abort none = raise not_found
may_abort (some m) =
    if is_terminal m.state
    then raise (http_error 409 ("Migration already in terminal state: " ⧺ state_value m.state))
    else pure tt

unfoldable pub check_abort : String → Action Database (Unit {0})
unfolding lookup
check_abort id d = may_abort (lookup id d.migrations) d

unfoldable pub mark_aborted : String → Action Database (Unit {0})
unfolding update_row
mark_aborted id = modify (λ d. record d { migrations = update_row id abort_row d.migrations })

module _ (env : Env) where
  unfoldable pub list_migrations : Option String → ℕ → ℕ → Action World (List MigrationSummary)
  list_migrations state limit offset =
      with_state λ w. with_session env (list_query (env.first w.history) state limit offset)

  abbrev found : {A : Type 0} → (Migration → A) → Option Migration → Action World A
  found f none = raise not_found
  found f (some m) = pure (f m)

  unfoldable pub get_migration : String → Action World MigrationPage
  unfolding lookup
  get_migration id = do
    migration ← with_session env (gets (λ d. lookup id d.migrations))
    found page_of migration

  unfoldable pub get_migration_events : String → Action World (List MigrationEvent)
  unfolding keep
  get_migration_events id =
      with_session env (gets (λ d. keep (λ e. str_eq e.migration_id id) d.events))

  unfoldable pub abort_migration : String → Action World (Unit {0})
  abort_migration id = with_session env (check_abort id) >> with_session env (mark_aborted id)
