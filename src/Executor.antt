-- ===== src/Executor.antt =====
-- executor/__init__.py, with the tools of tools/registry.py that it calls: how the tool calls of one turn
-- are dispatched, and the loop of turns.
pub mod Tool
pub mod Dispatch
pub mod Batching
pub mod Pool
pub mod Sequential
pub mod Dispatching
pub mod Loop
pub mod React
pub mod Outcome
pub mod Resume
pub mod Ticketed
mod Examples
mod RunExamples
