-- ===== src/Migration.antt =====
-- cnf/migration/engine.py: `Context` has the state of an engine and the updates of the database,
-- `Tunnel` the QEMU tunnel, `Rollback` the rollbacks, `Cold` and `Live` the two engines.
pub mod Context
pub mod Tunnel
pub mod Rollback
pub mod Steps
pub mod Calls
pub mod StepCalls
pub mod ColdCalls
pub mod LiveCalls
pub mod Frame
pub mod Gauge
pub mod Row
pub mod Outcome
pub mod Events
pub mod ColdEvents
pub mod Stages
pub mod LiveEvents
mod MemoryEvents
pub mod Returns
pub mod Promotion
pub mod Progress
pub mod Deletion
pub mod Cold
pub mod Live
pub mod Start
pub mod Protocol
pub mod Reported
pub mod Recorded
pub mod NoPromotion
pub mod Unpromoted
pub mod Finish
