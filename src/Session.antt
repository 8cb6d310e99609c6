-- ===== src/Session.antt =====
-- Sessions: the state document of session/state.py, the handle and the directory of
-- session/directory.py, and session/resume.py.
pub mod State
pub mod RoundTrip
pub mod Handle
pub mod Transitions
pub mod Persistence
pub mod Store
pub mod Resume
pub mod Ancestors
pub mod Directory
pub mod Examples
mod DirectoryExamples
