-- ===== src/Db.antt =====
-- The database: the rows of cnf/db/models.py in `Models`. The sessions of cnf/db/session.py stand
-- with the effects, in Effect/Session.
pub mod Models
pub mod Names
