-- ===== src/Executor/Loop.antt =====
-- executor/__init__.py: _react_loop. What the language model answers is the parameter chat; a session is
-- the state that the tools work on, the trace, and the files in ipc/awaiting_approval.
use Prim.Native.String.{◌++◌ as concat}
use module_agents_part.Prelude.{
  ℕ, zero, suc, String, Bool, true, false, Option, none, some, List, [], ◌∷◌, ◌&&◌, ◌==◌,
  if◌then◌else◌,
}
use module_agents_part.Prelude.Dict.{Dict, put}
use module_agents_part.Prelude.Json.{Json, str, Fields, end, member}
use module_agents_part.Errors.{Exception}
use module_agents_part.Executor.Tool.{Failure}
use module_agents_part.Executor.Dispatch.{
  ToolCall, ToolOutput, tool_result, unknown_tool, TraceEvent,
}

-- planner/__init__.py: Subgoal, the fields that the executor and the loop half read
pub record Subgoal : Type 0 where
  pub id : String
  pub description : String
  pub success_criterion : String
  pub assigned_half : String

pub record ChatMessage : Type 0 where
  pub role : String
  pub content : Option String
  pub tool_calls : List ToolCall
  pub tool_call_id : Option String
  pub name : Option String

-- a ChatResponse, or the exception that the client raised
pub data Reply : Type 0 where
  response : Option String → List ToolCall → Reply
  chat_raised : Failure → Reply

-- an entry of `tool_calls_made`
pub record CallRecord : Type 0 where
  pub name : String
  pub arguments : Fields
  pub success : Bool
  pub summary : String
  pub requires_human_approval : Bool

-- ipc/approval.py: ApprovalRequest, without the session's id, the hash of the arguments and the time
pub record ApprovalRequest : Type 0 where
  pub request_id : String
  pub subgoal_id : String
  pub ticket_id : String
  pub tool_name : String
  pub tool_arguments : Fields
  pub proposed_output : Fields
  pub tool_summary : String
  pub reason : Json

pub record ExecutorResult : Type 0 where
  pub subgoal_id : String
  pub success : Bool
  pub final_answer : String
  pub tool_calls_made : List CallRecord
  pub handoff_requested : Bool
  pub handoff_payload : Option Fields
  pub turns_used : ℕ
  pub awaiting_approval : Option String
  pub approval_request : Option ApprovalRequest

pub record Session (W : Type 0) : Type 0 where
  pub world : W
  pub trace : List TraceEvent
  pub awaiting : Dict ApprovalRequest

-- the local variables of the loop, with the session
pub record Progress (W : Type 0) : Type 0 where
  pub messages : List ChatMessage
  pub tool_calls_made : List CallRecord
  pub turn : ℕ
  pub session : Session W

-- How the loop ends: with a result, an exception of the client or of the writes of an approval request, or
-- the failed assertion of the dispatch.
pub data LoopEnd : Type 0 where
  returned : ExecutorResult → LoopEnd
  raised : Failure → LoopEnd
  write_raised : Exception → LoopEnd
  assertion_failed : LoopEnd

-- What a turn comes to.
pub data Turn (W : Type 0) : Type 0 where
  go_on : Progress W → Turn W
  ended : LoopEnd → Session W → Turn W

-- tool_output.get("success", True), and so on
abbrev pub success_of : ToolOutput → Bool
success_of (tool_result r) = r.success
success_of (unknown_tool e summary) = false

abbrev pub summary_of : ToolOutput → String
summary_of (tool_result r) = r.summary
summary_of (unknown_tool e summary) = summary

abbrev pub asks_approval : ToolOutput → Bool
asks_approval (tool_result r) = r.requires_human_approval
asks_approval (unknown_tool e summary) = false

abbrev pub output_of : ToolOutput → Fields
output_of (tool_result r) = r.output
output_of (unknown_tool e summary) = end

abbrev pub Answered : Type 0
Answered = ToolCall × ToolOutput

unfoldable pub zip_calls : List ToolCall → List ToolOutput → List Answered
zip_calls (c ∷ cs) (o ∷ os) = (c, o) ∷ zip_calls cs os
zip_calls _ _ = []

-- the first output that asks for approval, with its call
unfoldable pub first_approval : List Answered → Option Answered
first_approval [] = none
first_approval ((c, o) ∷ xs) =
    let rest = first_approval xs in if asks_approval o then some (c, o) else rest

-- the arguments of the last handoff that succeeded, if there is one
unfoldable pub handoff_payload_of : List Answered → Option Fields
handoff_payload_of [] = none
handoff_payload_of ((c, o) ∷ xs) = elim (handoff_payload_of xs) [
  | some later ↦ some later
  | none ↦ if (c.name == "handoff_to_structured") && success_of o then some c.arguments else none
]

abbrev pub call_record : Answered → CallRecord
call_record (c, o) = record {
  name = c.name;
  arguments = c.arguments;
  success = success_of o;
  summary = summary_of o;
  requires_human_approval = asks_approval o;
}

-- len(s) <= n
unfoldable pub fits : ℕ → String → Bool
fits n String.[] = true
fits zero (String.◌∷◌ c s) = false
fits (suc n) (String.◌∷◌ c s) = fits n s

-- s[-8:]
unfoldable pub last8 : String → String
unfolding fits
last8 String.[] = String.[]
last8 (String.◌∷◌ c s) =
    let rest = last8 s in if fits 8 (String.◌∷◌ c s) then String.◌∷◌ c s else rest

-- ipc/approval.py: make_request_id
unfoldable pub make_request_id : String → String → String
unfolding last8
make_request_id ticket_id tool_call_id =
    concat "appr_" (concat (last8 ticket_id) (concat "_" (last8 tool_call_id)))

abbrev pub reason_of : Option Json → Json
reason_of none = str ""
reason_of (some v) = v

-- ipc/approval.py: build_request_from_tool_result
unfoldable pub build_request : String → String → Answered → ApprovalRequest
unfolding make_request_id member
build_request subgoal_id ticket_id (c, o) = record {
  request_id = make_request_id ticket_id c.id;
  subgoal_id = subgoal_id;
  ticket_id = ticket_id;
  tool_name = c.name;
  tool_arguments = c.arguments;
  proposed_output = output_of o;
  tool_summary = summary_of o;
  reason = reason_of (member "approval_reason" (output_of o));
}

-- What the two atomic writes of write_approval_request end in: the file that is read again, and its copy
-- in logs/, which nothing reads.
pub data Writing : Type 0 where
  both_written : Writing
  awaiting_fails : Exception → Writing
  log_fails : Exception → Writing

-- ipc/approval.py: write_approval_request, with the exception that it raises
abbrev pub write_request :
    {W : Type 0} → Writing → ApprovalRequest → Session W → Session W × Option Exception
write_request both_written request s =
    (record s { awaiting = put request.request_id request s.awaiting }, none)
write_request (awaiting_fails x) request s = (s, some x)
write_request (log_fails x) request s =
    (record s { awaiting = put request.request_id request s.awaiting }, some x)

abbrev pub plain_message : String → String → ChatMessage
plain_message role content = record {
  role = role;
  content = some content;
  tool_calls = [];
  tool_call_id = none;
  name = none;
}

-- the ExecutorResult of an answer; the other fields are the defaults
abbrev pub answered : String → Bool → String → List CallRecord → ℕ → ExecutorResult
answered subgoal_id success final_answer made turn = record {
  subgoal_id = subgoal_id;
  success = success;
  final_answer = final_answer;
  tool_calls_made = made;
  handoff_requested = false;
  handoff_payload = none;
  turns_used = turn;
  awaiting_approval = none;
  approval_request = none;
}
