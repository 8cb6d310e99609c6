-- ===== src/Tickets.antt =====
-- Tickets (sovereign_agent/tickets/): the state machine, the manifest that a success needs, and the
-- files of a ticket's directory.
pub mod State
pub mod Manifest
pub mod Ticket
pub mod Lifecycle
pub mod Verified
mod Examples
