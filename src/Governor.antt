-- ===== src/Governor.antt =====
-- The MIG slack governor, runtime/mig_slack_governor.py.
pub mod Workload
pub mod Placement
pub mod Feedback
pub mod Guard
pub mod Pipes
pub mod Results
pub mod Thermal
pub mod Epoch
pub mod Envelope
mod Tests
