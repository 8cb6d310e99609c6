-- ===== src/Queue.antt =====
-- SessionQueue (sovereign_agent/session/queue.py): per-session serialisation, the global cap on
-- concurrency, priorities, retries with backoff, idle preemption.
--
-- The event loop around the queue is explicit. `World.running` holds the `_run_task` coroutines that
-- were created and have not ended, `World.delayed` the `_delayed_retry` coroutines with their delay,
-- and `World.closes` the directories that the `_close` sentinel was written to. No method awaits
-- while it holds `_lock`, so each `async with self._lock` body is one step; an event of `Step` is one
-- such step, and an interleaving is a list of events.
pub mod Sort
pub mod State
pub mod Enqueue
pub mod Finish
pub mod Events
pub mod Invariant
pub mod Enqueueing
pub mod Finishing
pub mod Frame
pub mod Serial
pub mod Conserve
pub mod Waiting
pub mod Priority
pub mod Retries
mod Examples
