-- ===== src/Executor/React.antt =====
-- executor/__init__.py: the turns of _react_loop.
use Prim.Native.String.{◌++◌ as concat}
use module_agents_part.Prelude.{
  ℕ, zero, suc, String, true, false, Option, none, some, List, [], ◌∷◌, ◌++◌, map,
}
use module_agents_part.Prelude.Json.{Fields}
use module_agents_part.Errors.{Exception}
use module_agents_part.Executor.Tool.{Registry}
use module_agents_part.Executor.Dispatch.{ToolCall, ToolOutput, Effect, Indexed, Policy, dispatch}
use module_agents_part.Executor.Loop.{
  Subgoal, ChatMessage, Reply, response, chat_raised, ExecutorResult, Session, Progress, LoopEnd,
  returned, raised, write_raised, Writing, assertion_failed, Turn, go_on, ended, Answered,
  zip_calls, first_approval, handoff_payload_of, call_record, build_request, write_request,
  plain_message, answered, ApprovalRequest,
}

-- The executor, and what it calls: repr, json.dumps and str of Python, the order of concurrent calls,
-- and the client of the language model.
pub record Executor (W : Type 0) : Type 0 where
  pub system_prompt : String
  pub tools : Registry W
  pub policy : Policy
  pub preview : Fields → String
  pub dumps : ToolOutput → String
  pub str_nat : ℕ → String
  pub schedule : List Indexed → W → List ℕ
  pub chat : List ChatMessage → Reply
  -- what writing an approval request ends in
  pub writing : ApprovalRequest → Writing

abbrev pub or_empty : Option String → String
or_empty none = ""
or_empty (some s) = s

module _ {W : Type 0} (executor : Executor W) where
  abbrev pub tool_message : Answered → ChatMessage
  tool_message (c, o) = record {
    role = "tool";
    content = some (executor.dumps o);
    tool_calls = [];
    tool_call_id = some c.id;
    name = some c.name;
  }

  -- the messages, records and trace after a dispatched turn
  unfoldable pub record_calls :
      Option String
      → List ToolCall
      → List Answered
      → Effect (Option (List ToolOutput)) W
      → Progress W
      → Progress W
  record_calls content calls pairs e s = record s {
    messages =
        s.messages
        ++ record {
          role = "assistant";
          content = content;
          tool_calls = calls;
          tool_call_id = none;
          name = none;
        }
          ∷ map tool_message pairs;
    tool_calls_made = s.tool_calls_made ++ map call_record pairs;
    session = record {
      world = e.world;
      trace = s.session.trace ++ e.events;
      awaiting = s.session.awaiting;
    };
  }

  -- the result of a turn that pauses for approval
  abbrev pub paused : Subgoal → ApprovalRequest → Progress W → ExecutorResult
  paused subgoal request s =
      record (answered subgoal.id true
        (concat "(awaiting human approval: " (concat request.request_id ")")) s.tool_calls_made
        s.turn) { awaiting_approval = some request.request_id; approval_request = some request }

  abbrev pub handed_off : Subgoal → Fields → Progress W → ExecutorResult
  handed_off subgoal payload s =
      record (answered subgoal.id true "(handoff requested)" s.tool_calls_made s.turn) {
        handoff_requested = true;
        handoff_payload = some payload;
      }

  -- the return of a paused loop, which an exception of the writes comes before
  abbrev pub pause_end : Option Exception → ExecutorResult → LoopEnd
  pause_end none r = returned r
  pause_end (some x) r = write_raised x

  -- after the calls of a turn: approval, handoff, or the next turn
  unfoldable pub after_calls : Subgoal → String → List Answered → Progress W → Turn W
  unfolding first_approval handoff_payload_of build_request
  after_calls subgoal ticket_id pairs s = elim (first_approval pairs) [
    | some asked ↦
        let request = build_request subgoal.id ticket_id asked in
        let (session, failed) = write_request (executor.writing request) request s.session in
        ended (pause_end failed (paused subgoal request s)) session
    | none ↦ elim (handoff_payload_of pairs) [
      | some payload ↦ ended (returned (handed_off subgoal payload s)) s.session
      | none ↦ go_on s
    ]
  ]

  -- a turn whose response has tool calls
  unfoldable pub call_turn : Subgoal → String → Option String → List ToolCall → Progress W → Turn W
  unfolding dispatch zip_calls record_calls after_calls
  call_turn subgoal ticket_id content calls s =
      let e =
        dispatch executor.preview executor.tools executor.schedule executor.policy calls
          s.session.world in
      elim e.outputs [
        | none ↦ ended assertion_failed s.session
        | some outputs ↦
            let pairs = zip_calls calls outputs in
            after_calls subgoal ticket_id pairs (record_calls content calls pairs e s)
      ]

  -- a turn, after the client has answered
  unfoldable pub on_reply : Subgoal → String → Progress W → Reply → Turn W
  unfolding call_turn
  on_reply subgoal ticket_id s (chat_raised e) = ended (raised e) s.session
  on_reply subgoal ticket_id s (response content []) =
      ended (returned (answered subgoal.id true (or_empty content) s.tool_calls_made s.turn))
        s.session
  on_reply subgoal ticket_id s (response content (c ∷ cs)) =
      call_turn subgoal ticket_id content (c ∷ cs) s

  -- the body of `while turn < max_turns`
  unfoldable pub one_turn : Subgoal → String → Progress W → Turn W
  unfolding on_reply
  one_turn subgoal ticket_id s =
      on_reply subgoal ticket_id (record s { turn = suc s.turn }) (executor.chat s.messages)

  -- the loop: its fuel is max_turns - turn
  unfoldable pub turns : ℕ → Subgoal → String → String → Progress W → LoopEnd × Session W
  unfolding one_turn
  turns zero subgoal ticket_id exhausted s =
      (returned (answered subgoal.id false exhausted s.tool_calls_made s.turn), s.session)
  turns (suc n) subgoal ticket_id exhausted s = elim (one_turn subgoal ticket_id s) [
    | ended e session ↦ (e, session)
    | go_on s' ↦ turns n subgoal ticket_id exhausted s'
  ]

  abbrev pub opening : Subgoal → List ChatMessage
  opening subgoal =
      plain_message "system" executor.system_prompt
      ∷ plain_message "user" (
          concat "SUBGOAL " (
            concat subgoal.id (
              concat ": " (
                concat subgoal.description (
                  concat "\nSUCCESS CRITERION: " (
                    concat subgoal.success_criterion
                      "\nComplete this subgoal using the tools available to you."))))))
      ∷ []

  -- _react_loop
  unfoldable pub react_loop : Subgoal → Session W → ℕ → LoopEnd × Session W
  unfolding turns
  react_loop subgoal session max_turns =
      turns max_turns subgoal (concat "exec_" subgoal.id)
        (concat "(max_turns="
          (concat (executor.str_nat max_turns) " exhausted without final answer)"))
        (record { messages = opening subgoal; tool_calls_made = []; turn = 0; session = session })
