-- ===== src/Tickets/State.antt =====
-- tickets/state.py
use module_agents_part.Prelude.{Bool, true, false, String}

pub data TicketState : Type 0 where
  pending running success skipped error : TicketState

-- TicketState.value
abbrev pub value : TicketState → String
value pending = "pending"
value running = "running"
value success = "success"
value skipped = "skipped"
value error = "error"

-- TERMINAL_TICKET_STATES
abbrev pub is_terminal : TicketState → Bool
is_terminal success = true
is_terminal skipped = true
is_terminal error = true
is_terminal _ = false

-- is_ticket_transition_allowed: ALLOWED_TICKET_TRANSITIONS, a clause for each pair in the table
unfoldable pub is_ticket_transition_allowed : TicketState → TicketState → Bool
is_ticket_transition_allowed pending running = true
is_ticket_transition_allowed pending skipped = true
is_ticket_transition_allowed pending error = true
is_ticket_transition_allowed running success = true
is_ticket_transition_allowed running skipped = true
is_ticket_transition_allowed running error = true
is_ticket_transition_allowed _ _ = false
