-- ===== src/Replicas.antt =====
-- Who runs what: one analysis for each key (app/services/single_flight.py) and one scheduler among the
-- replicas (app/services/scheduler_ownership.py). Calls, tasks and replicas are interleaved in any order.
mod Tests
pub mod SingleFlight
pub mod Ownership
