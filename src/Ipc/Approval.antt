-- ===== src/Ipc/Approval.antt =====
-- ipc/approval.py: the documents of requests and decisions, and the three boxes of a session. A box is a
-- dictionary from request ids to what its file holds; files with other endings are left out.
use module_agents_part.Prelude.{String, Option, none, some, List, [], ◌∷◌, ◌==◌, if◌then◌else◌}
use module_agents_part.Prelude.Dict.{Dict, get, put, remove}
use module_agents_part.Prelude.Int.{pos}
use module_agents_part.Prelude.Json.{Json, Fields, null, num, str, obj, end, field, member}
use module_agents_part.Session.State.{
  key_error, type_error, value_error, Result, ok, raise, ◌>>=◌, required, default, as_str,
}
use module_agents_part.Ipc.Consume.{Content, parsed, invalid_json, unreadable, undecodable}

-- ApprovalRequest, as it is in a file
pub record ApprovalRequest : Type 0 where
  pub request_id : Json
  pub session_id : Json
  pub subgoal_id : Json
  pub ticket_id : Json
  pub tool_name : Json
  pub tool_arguments : Json
  pub arguments_sha256 : Json
  pub proposed_output : Json
  pub tool_summary : Json
  pub created_at : Json
  pub reason : Json

-- ApprovalRequest.to_dict
unfoldable pub request_to_dict : ApprovalRequest → Fields
request_to_dict r = field "version" (num (pos 1)) (
    field "request_id" r.request_id (
      field "session_id" r.session_id (
        field "subgoal_id" r.subgoal_id (
          field "ticket_id" r.ticket_id (
            field "tool_name" r.tool_name (
              field "tool_arguments" r.tool_arguments (
                field "arguments_sha256" r.arguments_sha256 (
                  field "proposed_output" r.proposed_output (
                    field "tool_summary" r.tool_summary
                      (field "created_at" r.created_at (field "reason" r.reason end)))))))))))

-- ApprovalRequest.from_dict
unfoldable pub request_from_dict : Fields → Result ApprovalRequest
unfolding member
request_from_dict d = do
  request_id ← required (member "request_id" d)
  session_id ← required (member "session_id" d)
  subgoal_id ← required (member "subgoal_id" d)
  ticket_id ← required (member "ticket_id" d)
  tool_name ← required (member "tool_name" d)
  created_at ← required (member "created_at" d)
  ok (record {
    request_id = request_id;
    session_id = session_id;
    subgoal_id = subgoal_id;
    ticket_id = ticket_id;
    tool_name = tool_name;
    tool_arguments = default (obj end) (member "tool_arguments" d);
    arguments_sha256 = default (str "") (member "arguments_sha256" d);
    proposed_output = default (obj end) (member "proposed_output" d);
    tool_summary = default (str "") (member "tool_summary" d);
    created_at = created_at;
    reason = default (str "") (member "reason" d);
  })

pub record ApprovalResponse : Type 0 where
  pub request_id : String
  pub decision : String
  pub approver : Json
  pub decided_at : Json
  pub reason : Json
  pub override_output : Json

-- ApprovalResponse.to_dict
unfoldable pub response_to_dict : ApprovalResponse → Fields
response_to_dict r = field "version" (num (pos 1)) (
    field "request_id" (str r.request_id) (
      field "decision" (str r.decision) (
        field "approver" r.approver (
          field "decided_at" r.decided_at
            (field "reason" r.reason (field "override_output" r.override_output end))))))

-- the decision, or ValueError
abbrev pub checked_decision : Json → Result String
checked_decision (str s) =
    if s == "granted" then ok s else if s == "denied" then ok s else raise value_error
checked_decision _ = raise value_error

-- ApprovalResponse.from_dict; a request id that is no string is outside the model
unfoldable pub response_from_dict : Fields → Result ApprovalResponse
unfolding member
response_from_dict d = do
  decision ← required (member "decision" d) >>= checked_decision
  request_id ← required (member "request_id" d) >>= as_str
  decided_at ← required (member "decided_at" d)
  ok (record {
    request_id = request_id;
    decision = decision;
    approver = default (str "unknown") (member "approver" d);
    decided_at = decided_at;
    reason = default (str "") (member "reason" d);
    override_output = default null (member "override_output" d);
  })

-- v[k] of a JSON value and a string key
abbrev pub index : String → Json → Result Json
index k (obj d) = required (member k d)
index k _ = raise type_error

-- a dict, or the TypeError of its first use
abbrev pub as_dict : Json → Result Fields
as_dict (obj d) = ok d
as_dict _ = raise type_error

-- _approval_dirs: the boxes in ipc/ and the copies of decisions in logs/approvals
pub record Boxes : Type 0 where
  pub awaiting : Dict Content
  pub granted : Dict Content
  pub denied : Dict Content
  pub logs : Dict Json

-- What a read of a request's file gives; an exception that is not caught ends the caller.
pub data Request : Type 0 where
  request : ApprovalRequest → Request
  no_request : Request
  request_raises : Request

-- from_dict of a parsed request, after the except clause
abbrev pub caught : Result ApprovalRequest → Request
caught (ok r) = request r
caught (raise key_error) = no_request
caught (raise e) = request_raises

unfoldable pub read_request : Content → Request
unfolding request_from_dict
read_request (parsed v) = caught (as_dict v >>= request_from_dict)
read_request invalid_json = no_request
read_request unreadable = no_request
read_request undecodable = request_raises

-- get_pending_approval
unfoldable pub get_pending_approval : Boxes → String → Request
unfolding get read_request
get_pending_approval b id = elim (get id b.awaiting) [ none ↦ no_request | some c ↦ read_request c ]

-- one more file of the listing
abbrev pub listed : Request → Option (List ApprovalRequest) → Option (List ApprovalRequest)
listed (request r) (some rs) = some (r ∷ rs)
listed (request r) none = none
listed no_request rest = rest
listed request_raises rest = none

-- list_pending_approvals of the files in the order of their names; none where it raises
unfoldable pub list_pending_approvals : Dict Content → Option (List ApprovalRequest)
unfolding read_request
list_pending_approvals [] = some []
list_pending_approvals ((name, c) ∷ files) =
    let rest = list_pending_approvals files in listed (read_request c) rest

abbrev pub merged : Json → ApprovalResponse → Json
merged v r = obj (field "request" v (field "response" (obj (response_to_dict r)) end))

-- the three writes of record_decision
abbrev pub write_target : Json → ApprovalResponse → Boxes → Boxes
write_target v r b =
    if r.decision == "granted"
    then record b { granted = put r.request_id (parsed v) b.granted }
    else record b { denied = put r.request_id (parsed v) b.denied }

abbrev pub write_log : Json → ApprovalResponse → Boxes → Boxes
write_log v r b = record b { logs = put r.request_id v b.logs }

abbrev pub unlink_awaiting : ApprovalResponse → Boxes → Boxes
unlink_awaiting r b = record b { awaiting = remove r.request_id b.awaiting }

-- How record_decision ends.
pub data Recorded : Type 0 where
  recorded : Boxes → Recorded
  not_pending : String → Recorded
  unreadable_request : Recorded

abbrev pub record_parsed : ApprovalResponse → Boxes → Content → Recorded
record_parsed r b (parsed v) =
    let m = merged v r in recorded (unlink_awaiting r (write_log m r (write_target m r b)))
record_parsed r b _ = unreadable_request

-- record_decision
unfoldable pub record_decision : Boxes → ApprovalResponse → Recorded
unfolding get put remove response_to_dict
record_decision b r = elim (get r.request_id b.awaiting) [
  | none ↦ not_pending r.request_id
  | some c ↦ record_parsed r b c
]

-- What find_decision gives: `goes_on` with the next box, a decision, or an exception.
pub data Look : Type 0 where
  decided : ApprovalResponse → Look
  goes_on : Look
  look_raises : Look

abbrev pub caught_decision : Result ApprovalResponse → Look
caught_decision (ok r) = decided r
caught_decision (raise key_error) = goes_on
caught_decision (raise value_error) = goes_on
caught_decision (raise e) = look_raises

-- one box's file; UnicodeDecodeError is a ValueError
unfoldable pub look_at : Option Content → Look
unfolding response_from_dict
look_at none = goes_on
look_at (some (parsed v)) = caught_decision (index "response" v >>= as_dict >>= response_from_dict)
look_at (some invalid_json) = goes_on
look_at (some unreadable) = goes_on
look_at (some undecodable) = goes_on

abbrev pub or_next : Look → Look → Look
or_next goes_on next = next
or_next l next = l

-- find_decision: the box of grants, then that of denials
unfoldable pub find_decision : Boxes → String → Look
unfolding get look_at
find_decision b id = or_next (look_at (get id b.granted)) (look_at (get id b.denied))
