-- ===== src/Outbox/Enqueue.antt =====
-- app/services/decision_outbox.py, `persist_decision_events`: decision events are recorded and, where
-- they are worth a message, enqueued for delivery. Data holds the rows, Keys what is computed of a
-- payload, History the last delivered decision, Insert the unique columns, Merge
-- what a known notification does, Ladder the loop body and the loop, and Between what may
-- happen to the tables from one call to the next.
mod Tests
pub mod Data
pub mod Keys
pub mod History
pub mod Insert
pub mod Merge
pub mod Ladder
pub mod Cases
pub mod Kept
pub mod Deliveries
pub mod Once
pub mod Between
pub mod Twice
