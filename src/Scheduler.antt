-- ===== src/Scheduler.antt =====
-- local_agent/core/scheduler.py: scheduled jobs, their firing, and their file.
pub mod Time
pub mod Jobs
pub mod Firing
pub mod Due
pub mod Reload
mod Examples
