-- ===== src/Risk.antt =====
-- The risk layer: app/engines/risk_override.py and app/engines/position_assessment.py.
pub mod Weakness
pub mod Priority
pub mod Assessment
mod Tests
