-- ===== src/Tickets/Ticket.antt =====
-- tickets/ticket.py: a ticket with the files of its directory. `state.json` is kept as the record that
-- is written to it, `manifest.json` as the manifest.
use Prim.Native.Char.{code}
use Prim.Native.String.{◌++◌ as concat}
use module_agents_part.Prelude.{
  ℕ, String, Bool, true, false, Option, none, some, List, [], ◌∷◌, leb, eqb, ◌||◌, ◌&&◌,
  if◌then◌else◌,
}
use module_agents_part.Tickets.State.{
  TicketState, pending, running, success, skipped, error, is_ticket_transition_allowed,
}
use module_agents_part.Tickets.Manifest.{Manifest, Files, Time, verify}

-- the payload of `_write_state`
pub record StateFile : Type 0 where
  pub ticket_id : String
  pub operation : String
  pub state : TicketState
  pub started_at : Option Time
  pub completed_at : Option Time
  pub error_code : Option String
  pub error_message : Option String

-- The object, and the three files of its directory.
pub record Ticket : Type 0 where
  pub ticket_id : String
  pub operation : String
  pub started_at : Option Time
  pub state : TicketState
  pub state_file : StateFile
  pub manifest_file : Option Manifest
  pub summary_file : Option String

-- the exceptions: the two codes of ValidationError, and IOError for a manifest that does not verify
pub data Outcome : Type 0 where
  done : Outcome
  invalid_transition : TicketState → TicketState → Outcome
  missing_summary manifest_invalid : Outcome

-- `str.isspace` of a character, by its code point
abbrev pub is_space : ℕ → Bool
is_space c =
    (leb 9 c && leb c 13)
    || (leb 28 c && leb c 32)
    || eqb c 133
    || eqb c 160
    || eqb c 5760
    || (leb 8192 c && leb c 8202)
    || eqb c 8232
    || eqb c 8233
    || eqb c 8239
    || eqb c 8287
    || eqb c 12288

-- not s.strip()
unfoldable pub is_blank : String → Bool
is_blank String.[] = true
is_blank (String.◌∷◌ c s) = let rest = is_blank s in if is_space (code c) then rest else false

-- _write_state
unfoldable pub write_state :
    TicketState → Option Time → Option Time → Option String → Option String → Ticket → Ticket
write_state state started_at completed_at error_code error_message t = record t {
  state = state;
  state_file = record {
    ticket_id = t.ticket_id;
    operation = t.operation;
    state = state;
    started_at = started_at;
    completed_at = completed_at;
    error_code = error_code;
    error_message = error_message;
  };
}

-- Ticket.__init__, in a directory that did not exist
unfoldable pub create : String → String → Ticket
create ticket_id operation = record {
  ticket_id = ticket_id;
  operation = operation;
  started_at = none;
  state = pending;
  state_file = record {
    ticket_id = ticket_id;
    operation = operation;
    state = pending;
    started_at = none;
    completed_at = none;
    error_code = none;
    error_message = none;
  };
  manifest_file = none;
  summary_file = none;
}

-- _enforce_transition, before the rest of a method
abbrev pub enforce : TicketState → Ticket → Ticket × Outcome → Ticket × Outcome
enforce proposed t rest =
    if is_ticket_transition_allowed t.state proposed
    then rest
    else (t, invalid_transition t.state proposed)

unfoldable pub start : Time → Ticket → Ticket × Outcome
unfolding is_ticket_transition_allowed write_state
start now t =
    enforce running t
      (write_state running (some now) none none none (record t { started_at = some now }), done)

-- the files of a success, then its state
unfoldable pub record_success : Time → Manifest → String → Ticket → Ticket
unfolding write_state
record_success now m summary t =
    write_state success t.started_at (some now) none none
      (record t { manifest_file = some m; summary_file = some summary })

unfoldable pub succeed :
    (String → String) → Files → Time → Manifest → String → Ticket → Ticket × Outcome
unfolding is_ticket_transition_allowed record_success is_blank
succeed sha256 files now m summary t = enforce success t (
    if is_blank summary
    then (t, missing_summary)
    else if verify sha256 files m
    then (record_success now m summary t, done)
    else (t, manifest_invalid))

unfoldable pub skip : Time → String → Ticket → Ticket × Outcome
unfolding is_ticket_transition_allowed write_state
skip now reason t = enforce skipped t (
  write_state skipped t.started_at (some now) none none
      (record t { summary_file = some (concat "Skipped: " reason) }),
  done,
)

-- f"Error [{error_code}]: {error_message}"
abbrev pub error_summary : String → String → String
error_summary error_code error_message =
    concat "Error [" (concat error_code (concat "]: " error_message))

unfoldable pub fail : Time → String → String → Ticket → Ticket × Outcome
unfolding is_ticket_transition_allowed write_state
fail now error_code error_message t = enforce error t (
  write_state error t.started_at (some now) (some error_code) (some error_message)
      (record t { summary_file = some (error_summary error_code error_message) }),
  done,
)

-- read_summary: "" without the file
abbrev pub read_summary : Ticket → String
read_summary t = elim t.summary_file [ none ↦ "" | some s ↦ s ]

pub record TicketResult : Type 0 where
  pub ticket_id : String
  pub state : TicketState
  pub summary : String
  pub manifest : Option Manifest
  pub error_code : Option String
  pub error_message : Option String
  pub started_at : Option Time
  pub completed_at : Option Time

-- read_result; `raw_output_path` is a file that other code writes, and is left out
unfoldable pub read_result : Ticket → TicketResult
read_result t = record {
  ticket_id = t.ticket_id;
  state = t.state_file.state;
  summary = read_summary t;
  manifest = t.manifest_file;
  error_code = t.state_file.error_code;
  error_message = t.state_file.error_message;
  started_at = t.state_file.started_at;
  completed_at = t.state_file.completed_at;
}

-- One call on a ticket. Each call of `succeed` comes with the files as they are at that moment.
pub data Call : Type 0 where
  start_at : Time → Call
  succeed_with : Files → Time → Manifest → String → Call
  skip_for : Time → String → Call
  fail_with : Time → String → String → Call

unfoldable pub call : (String → String) → Call → Ticket → Ticket × Outcome
unfolding start succeed skip fail
call sha256 (start_at now) t = start now t
call sha256 (succeed_with files now m summary) t = succeed sha256 files now m summary t
call sha256 (skip_for now reason) t = skip now reason t
call sha256 (fail_with now error_code message) t = fail now error_code message t

unfoldable pub calls : (String → String) → List Call → Ticket → Ticket
unfolding call
calls sha256 [] t = t
calls sha256 (c ∷ cs) t = calls sha256 cs (call sha256 c t).0
