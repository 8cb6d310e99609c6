-- ===== src/Scheduler.antt =====
-- The drift-corrected scheduler (sovereign_agent/scheduler/drift_corrected.py). A datetime is its
-- number of microseconds since the epoch; the years that `datetime` cannot hold are not modelled.
-- croniter and zoneinfo are the parameter `next_cron`.
pub mod Task
pub mod Tick
pub mod Interval
pub mod Firing
mod Examples
