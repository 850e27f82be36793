-- ===== src/Outbox.antt =====
-- app/services/decision_outbox.py: the transactional outbox of Telegram notifications.
pub mod Row
mod Tests
pub mod Claim
pub mod Send
pub mod Reconcile
pub mod Passes
pub mod Enqueue
