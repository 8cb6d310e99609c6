-- ===== src/Orchestrator.antt =====
-- orchestrator/main.py: what becomes of a session between the queue, the halves and the watcher.
pub mod Process
pub mod Callbacks
pub mod Settling
pub mod Processed
pub mod Advancing
pub mod Handing
pub mod Task
pub mod TaskEnding
pub mod Completing
mod Examples
