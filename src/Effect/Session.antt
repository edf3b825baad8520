-- ===== src/Effect/Session.antt =====
-- The state that all components share, calls of the outside, and the sessions of
-- cnf/db/session.py.
use open_stack_cnf.Prelude.{Option, none, some, ◌∷◌}
use open_stack_cnf.Db.Models.{Database}
use open_stack_cnf.Effect.Exceptions.{Exception, Result, ok, err}
use open_stack_cnf.Effect.Call.{Call, History, db_session}
use open_stack_cnf.Effect.Env.{Env}
use open_stack_cnf.Effect.Action.{Action}

pub record World : Type 0 where
  pub history : History
  pub db : Database

-- A call of the outside: it is recorded, and answered from the calls before it.
abbrev pub ask : {A : Type 0} → Call → (History → Result A) → Action World A
ask c reply w = (reply w.history, record w { history = c ∷ w.history })

-- A call with no answer that the program reads.
abbrev pub tell : Call → Action World (Unit {0})
tell c w = (ok tt, record w { history = c ∷ w.history })

-- `session.commit()` after a body that returns; `session.rollback()` after one that raises
abbrev pub settle : {A : Type 0} → World → Result A × Database → Result A × World
settle w (ok a, d) = (ok a, record w { db = d })
settle w (err e, d) = (err e, w)

-- A session that a fault of the database breaks.
abbrev pub faulty : {A : Type 0} → Option Exception → World → Result A × World → Result A × World
faulty none w r = r
faulty (some e) w r = (err e, w)

-- `async with get_session() as session: body`. A fault of the database, in a query or in the
-- commit, leaves the tables as they were, and so does a body that raises.
unfoldable pub with_session : {A : Type 0} → Env → Action Database A → Action World A
with_session env body w =
    let w' = record w { history = db_session ∷ w.history } in
    faulty (env.db_fault w.history) w' (settle w' (body w.db))
