-- ===== src/Effect.antt =====
-- The effects of the program. `Exceptions` has its exceptions and results, `Call` what it asks of
-- the outside, `Env` how the outside answers, `Action` the monad of state and exceptions, and
-- `Session` the database sessions of cnf/db/session.py; the other children have laws of these.
pub mod Exceptions
pub mod Call
pub mod Env
pub mod Action
pub mod Session
pub mod Sessions
pub mod Laws
pub mod Trace
pub mod Visits
