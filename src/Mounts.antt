-- ===== src/Mounts.antt =====
-- orchestrator/mounts.py: which paths of the host a worker may mount.
pub mod Allowlist
pub mod Safety
mod Examples
