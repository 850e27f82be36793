-- ===== src/ShortAlert.antt =====
-- app/engines/short_alert_state.py: the bearish 15-minute alert. Prices, buffers and the ATR are
-- ticks of 0.01, so that the least tolerance is 1, and a zone that would begin below 0 begins at 0;
-- the reward-to-risk ratio is in hundredths. A value that is not a number, and a negative buffer,
-- are none. The message text is left out; the topic keeps its three parts.
pub mod State
pub mod Zones
pub mod Evaluate
pub mod Alerts
pub mod Confirmation
mod Tests
