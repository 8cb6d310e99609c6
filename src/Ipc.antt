-- ===== src/Ipc.antt =====
-- ipc/approval.py, ipc/protocol.py and ipc/watcher.py: messages as files, and the watcher that dispatches them.
pub mod Consume
pub mod Names
pub mod Delivery
pub mod Watcher
pub mod Handoffs
pub mod Approval
pub mod Deciding
mod Examples
pub mod ApprovalExamples
