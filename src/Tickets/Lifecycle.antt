-- ===== src/Tickets/Lifecycle.antt =====
-- What holds of a ticket after any calls.
use module_agents_part.Prelude.{
  ◌≡◌, ◌≢◌, refl, ap, ◌∙◌, String, Bool, true, false, none, is_some, List, [], ◌∷◌, arith, ◌⊎◌,
  if_ind,
}
use module_agents_part.Tickets.State.{
  TicketState, pending, running, success, skipped, error, is_terminal, is_ticket_transition_allowed,
}
use module_agents_part.Tickets.Manifest.{Manifest, Files, Time, verify}
use module_agents_part.Tickets.Ticket.{
  Ticket, Outcome, done, Call, create, start, succeed, skip, fail, call, calls, is_blank,
  record_success, invalid_transition,
}

-- A terminal state has no way out.
terminal_closed :
    (s p : TicketState) → is_terminal s ≡ true → is_ticket_transition_allowed s p ≡ false
unfolding is_ticket_transition_allowed
terminal_closed s p h = ground arith

-- the result of a call that `_enforce_transition` ended
refused :
    (s : TicketState) (t : Ticket) {r : Ticket × Outcome} (p : TicketState)
    → r ≡ (t, invalid_transition s p)
    → (r.0 ≡ t) × (r.1 ≢ done)
refused s t p e =
    (ap (λ (x : Ticket × Outcome). x.0) e, λ d. cc (ap (λ (x : Ticket × Outcome). x.1) e))

-- A finished ticket refuses every call, and neither the object nor its files change.
call-terminal :
    (sha256 : String → String) (c : Call) (t : Ticket)
    → is_terminal t.state ≡ true
    → ((call sha256 c t).0 ≡ t) × ((call sha256 c t).1 ≢ done)
unfolding call
call-terminal sha256 (Call.start_at now) t h =
    refused t.state t running (rw (terminal_closed t.state running h))
call-terminal sha256 (Call.succeed_with files now m summary) t h =
    refused t.state t success (rw (terminal_closed t.state success h))
call-terminal sha256 (Call.skip_for now reason) t h =
    refused t.state t skipped (rw (terminal_closed t.state skipped h))
call-terminal sha256 (Call.fail_with now error_code message) t h =
    refused t.state t error (rw (terminal_closed t.state error h))

-- Whatever calls follow, a finished ticket and its files stay as they are.
pub calls-terminal :
    (sha256 : String → String) (cs : List Call) (t : Ticket)
    → is_terminal t.state ≡ true
    → calls sha256 cs t ≡ t
unfolding calls
calls-terminal sha256 [] t h = refl
calls-terminal sha256 (c ∷ cs) t h =
    ap (calls sha256 cs) (call-terminal sha256 c t h).0 ∙ calls-terminal sha256 cs t h

abbrev pub is_success : TicketState → Bool
is_success success = true
is_success _ = false

abbrev pub is_error : TicketState → Bool
is_error error = true
is_error _ = false

-- Object and files agree, and each file holds what the state calls for.
pub record IsValid (t : Ticket) : Type 0 where
  pub same_state : t.state_file.state ≡ t.state
  pub same_id : t.state_file.ticket_id ≡ t.ticket_id
  pub same_start : t.state_file.started_at ≡ t.started_at
  -- a ticket has a start exactly if it was started: one that runs or succeeded was
  pub unstarted : t.state ≡ pending → t.started_at ≡ none
  pub started : (t.state ≡ running) ⊎ (t.state ≡ success) → is_some t.started_at ≡ true
  pub completed : is_some t.state_file.completed_at ≡ is_terminal t.state
  pub summarised : is_some t.summary_file ≡ is_terminal t.state
  pub proved : is_some t.manifest_file ≡ is_success t.state
  pub coded : is_some t.state_file.error_code ≡ is_error t.state

create-IsValid : (ticket_id operation : String) → IsValid (create ticket_id operation)
unfolding create
create-IsValid ticket_id operation = ground arith

start-IsValid : (now : Time) (t : Ticket) → IsValid t → IsValid (start now t).0
unfolding start
start-IsValid now t h = ground arith

skip-IsValid :
    (now : Time) (reason : String) (t : Ticket) → IsValid t → IsValid (skip now reason t).0
unfolding skip
skip-IsValid now reason t h = ground arith

fail-IsValid :
    (now : Time) (code message : String) (t : Ticket)
    → IsValid t
    → IsValid (fail now code message t).0
unfolding fail
fail-IsValid now code message t h = ground arith

record_success-IsValid :
    (now : Time) (m : Manifest) (summary : String) (t : Ticket)
    → is_ticket_transition_allowed t.state success ≡ true
    → IsValid t
    → IsValid (record_success now m summary t)
unfolding record_success is_ticket_transition_allowed
record_success-IsValid now m summary t allowed h = ground arith

succeed-IsValid :
    (sha256 : String → String) (files : Files) (now : Time) (m : Manifest) (summary : String)
    (t : Ticket)
    → IsValid t
    → IsValid (succeed sha256 files now m summary t).0
unfolding succeed
succeed-IsValid sha256 files now m summary t h =
    if_ind Good (is_ticket_transition_allowed t.state success)
      (λ allowed.
        if_ind Good (is_blank summary) (λ _. h)
          (λ _.
            if_ind Good (verify sha256 files m)
              (λ _. record_success-IsValid now m summary t allowed h) (λ _. h)))
      (λ _. h)
  where
    Good : Ticket × Outcome → Type 0
    Good r = IsValid r.0

call-IsValid :
    (sha256 : String → String) (c : Call) (t : Ticket) → IsValid t → IsValid (call sha256 c t).0
unfolding call
call-IsValid sha256 (Call.start_at now) t h = start-IsValid now t h
call-IsValid sha256 (Call.succeed_with files now m summary) t h =
    succeed-IsValid sha256 files now m summary t h
call-IsValid sha256 (Call.skip_for now reason) t h = skip-IsValid now reason t h
call-IsValid sha256 (Call.fail_with now code message) t h = fail-IsValid now code message t h

calls_from-IsValid :
    (sha256 : String → String) (cs : List Call) (t : Ticket)
    → IsValid t
    → IsValid (calls sha256 cs t)
unfolding calls
calls_from-IsValid sha256 [] t h = h
calls_from-IsValid sha256 (c ∷ cs) t h =
    calls_from-IsValid sha256 cs (call sha256 c t).0 (call-IsValid sha256 c t h)

-- After any calls on a new ticket, accepted or refused: the state file agrees with the object; there is
-- a start time if it runs or succeeded, and none while it is pending; completion time and summary are
-- there exactly if it is finished, a manifest exactly if it succeeded, an error code exactly if it
-- failed.
pub calls-IsValid :
    (sha256 : String → String) (ticket_id operation : String) (cs : List Call)
    → IsValid (calls sha256 cs (create ticket_id operation))
calls-IsValid sha256 ticket_id operation cs =
    calls_from-IsValid sha256 cs (create ticket_id operation) (create-IsValid ticket_id operation)
