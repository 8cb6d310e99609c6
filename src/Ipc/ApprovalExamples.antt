-- ===== src/Ipc/ApprovalExamples.antt =====
-- The theorems about decisions at a concrete request.
use module_agents_part.Prelude.{◌≡◌, refl, [], ◌∷◌}
use module_agents_part.Prelude.Json.{null, str, obj, end}
use module_agents_part.Ipc.Consume.{parsed, undecodable}
use module_agents_part.Ipc.Approval.{
  ApprovalRequest, request_to_dict, ApprovalResponse, Boxes, record_decision, not_pending,
}
use module_agents_part.Ipc.Deciding.{FindsAfter, find_decision-FindsAfter}

abbrev deposit : ApprovalRequest
deposit = record {
  request_id = str "appr_1";
  session_id = str "sess_1";
  subgoal_id = str "sg_1";
  ticket_id = str "tk_1";
  tool_name = str "pay";
  tool_arguments = obj end;
  arguments_sha256 = str "00";
  proposed_output = obj end;
  tool_summary = str "payment proposed";
  created_at = str "now";
  reason = str "above the threshold";
}

abbrev pub boxes : Boxes
boxes = record {
  awaiting = ("appr_1", parsed (obj (request_to_dict deposit))) ∷ ("appr_2", undecodable) ∷ [];
  granted = [];
  denied = [];
  logs = [];
}

abbrev pub denial : ApprovalResponse
denial = record {
  request_id = "appr_1";
  decision = "denied";
  approver = str "ann";
  decided_at = str "later";
  reason = str "too much";
  override_output = null;
}

unknown : record_decision boxes (record denial { request_id = "appr_3" }) ≡ not_pending "appr_3"
unfolding record_decision
unknown = refl

find_decision-FindsAfter_example : FindsAfter boxes denial (record_decision boxes denial)
find_decision-FindsAfter_example = find_decision-FindsAfter boxes denial
