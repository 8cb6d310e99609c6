-- ===== src/Halves/LoopExamples.antt =====
-- The theorems about the loop half at concrete subgoals.
use module_agents_part.Prelude.{ℕ, ◌+◌, ◌≡◌, refl, String, true, some, [], ◌∷◌, arith}
use module_agents_part.Prelude.Json.{end, null}
use module_agents_part.Prelude.Dict.{put}
use module_agents_part.Executor.Loop.{Subgoal, ExecutorResult, Session, ApprovalRequest, answered}
use module_agents_part.Executor.Outcome.{IsOutcome}
use module_agents_part.Halves.Loop.{done, Services, run_subgoals}
use module_agents_part.Halves.Subgoals.{pause_not_seen}

abbrev step : String → Subgoal
step id = record { id = id; description = "d"; success_criterion = "c"; assigned_half = "loop" }

abbrev request : ApprovalRequest
request = record {
  request_id = "appr_1";
  subgoal_id = "sg_1";
  ticket_id = "exec_sg_1";
  tool_name = "pay";
  tool_arguments = end;
  proposed_output = end;
  tool_summary = "payment proposed";
  reason = null;
}

-- a run that waits for approval after one turn
abbrev waiting : ExecutorResult
waiting = record (answered "sg_1" true "(awaiting human approval: appr_1)" [] 1) {
  awaiting_approval = some "appr_1";
  approval_request = some request;
}

-- the state counts the runs; every run waits
abbrev services : Services ℕ
services = record {
  plan = λ s. done (step "sg_1" ∷ step "sg_2" ∷ []) s;
  set_executing = λ sgs s. done tt s;
  execute = λ sg s. done waiting (s + 1);
  str_nat = λ n. "2";
}

abbrev quiet_session : Session ℕ
quiet_session = record { world = 0; trace = []; awaiting = [] }

abbrev asking_session : Session ℕ
asking_session = record { world = 0; trace = []; awaiting = ("appr_1", request) ∷ [] }

waits : IsOutcome 8 quiet_session waiting asking_session
unfolding put
waits = record {
  bounded = omega arith;
  gave_up = λ e. cc;
  not_both = λ _. refl;
  payload = refl;
  quiet = λ e. cc;
  asked = λ _. (request, refl, refl, refl);
}

pause_not_seen_example :
    run_subgoals services (step "sg_1" ∷ step "sg_2" ∷ []) [] 0
    ≡ run_subgoals services (step "sg_2" ∷ []) (waiting ∷ []) 1
pause_not_seen_example =
    pause_not_seen services quiet_session asking_session 8 (step "sg_1") (step "sg_2" ∷ []) [] 0 1
      waiting refl refl waits refl
