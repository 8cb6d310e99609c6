-- ===== src/Halves.antt =====
-- halves/: the structured half evaluates rules, the loop half runs subgoals.
pub mod Structured
pub mod Rules
pub mod Loop
pub mod Subgoals
mod Examples
mod LoopExamples
