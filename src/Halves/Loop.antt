-- ===== src/Halves/Loop.antt =====
-- halves/loop.py. The planner, the session and the executor are the interface Services: each of their
-- calls gives a result or an exception, with the new state.
use Prim.Native.String.{◌++◌ as concat}
use module_agents_part.Prelude.{
  ℕ, zero, suc, String, Bool, true, false, Option, none, some, List, [], ◌∷◌, ◌++◌, length, ◌==◌,
  if◌then◌else◌,
}
use module_agents_part.Prelude.Json.{Fields, end}
use module_agents_part.Errors.{Exception}
use module_agents_part.Executor.Loop.{Subgoal, ExecutorResult}
use module_agents_part.Halves.Structured.{
  NextAction, complete, handoff_to_structured, handoff_to_loop, escalate,
}

pub data Attempt (A S : Type 0) : Type 0 where
  done : A → S → Attempt A S
  raises : Exception → S → Attempt A S

-- Planner.plan, Session.update_state(state="executing", planner=...), Executor.execute, and str.
pub record Services (S : Type 0) : Type 0 where
  pub plan : S → Attempt (List Subgoal) S
  pub set_executing : List Subgoal → S → Attempt Unit S
  pub execute : Subgoal → S → Attempt ExecutorResult S
  pub str_nat : ℕ → String

-- the `output` dicts
pub data LoopOutput : Type 0 where
  assigned_elsewhere : String → String → List ExecutorResult → LoopOutput
  stopped_at : String → List ExecutorResult → LoopOutput
  completed : String → List ExecutorResult → LoopOutput

-- handoff_payload: a dict of the executor, or the subgoal with the results before it
pub data Payload : Type 0 where
  no_payload : Payload
  executor_payload : Fields → Payload
  subgoal_payload : Subgoal → List ExecutorResult → Payload

pub record LoopResult : Type 0 where
  pub success : Bool
  pub output : LoopOutput
  pub summary : String
  pub next_action : NextAction
  pub handoff_payload : Payload

-- s[:n]
unfoldable pub prefix : ℕ → String → String
prefix n String.[] = String.[]
prefix zero (String.◌∷◌ c s) = String.[]
prefix (suc n) (String.◌∷◌ c s) = String.◌∷◌ c (prefix n s)

-- executor_results[-1].final_answer if executor_results else ""
abbrev pub last_answer : List ExecutorResult → String
last_answer [] = ""
last_answer (r ∷ []) = r.final_answer
last_answer (r ∷ q ∷ rs) = last_answer (q ∷ rs)

abbrev pub handed_over : Subgoal → List ExecutorResult → LoopResult
handed_over sg results = record {
  success = true;
  output = assigned_elsewhere sg.id sg.assigned_half results;
  summary =
      concat "subgoal "
        (concat sg.id (concat " is assigned to " (concat sg.assigned_half "; handing off")));
  next_action = if sg.assigned_half == "structured" then handoff_to_structured else handoff_to_loop;
  handoff_payload = subgoal_payload sg results;
}

-- result.handoff_payload or {}
abbrev pub payload_or_empty : Option Fields → Fields
payload_or_empty none = end
payload_or_empty (some d) = d

abbrev pub requested : Subgoal → ExecutorResult → List ExecutorResult → LoopResult
requested sg r results = record {
  success = true;
  output = stopped_at sg.id results;
  summary = concat "executor requested handoff to structured from " sg.id;
  next_action = handoff_to_structured;
  handoff_payload = executor_payload (payload_or_empty r.handoff_payload);
}

abbrev pub gave_up_at : Subgoal → ExecutorResult → List ExecutorResult → LoopResult
gave_up_at sg r results = record {
  success = false;
  output = stopped_at sg.id results;
  summary = concat "executor failed on " (concat sg.id (concat ": " r.final_answer));
  next_action = escalate;
  handoff_payload = no_payload;
}

module _ {S : Type 0} (services : Services S) where
  unfoldable pub all_done : List ExecutorResult → LoopResult
  unfolding prefix
  all_done results = record {
    success = true;
    output = completed (last_answer results) results;
    summary = concat "loop half completed " (
        concat (services.str_nat (length results))
          (concat " subgoal(s); final answer: " (prefix 120 (last_answer results))));
    next_action = complete;
    handoff_payload = no_payload;
  }

  -- the rest of the body of the loop, after a subgoal ran; `rest` goes on with the results so far
  abbrev pub after_execute :
      Subgoal
      → List ExecutorResult
      → (List ExecutorResult → S → Attempt LoopResult S)
      → Attempt ExecutorResult S
      → Attempt LoopResult S
  after_execute sg results rest (raises e s) = raises e s
  after_execute sg results rest (done r s) =
      if r.handoff_requested
      then done (requested sg r (results ++ r ∷ [])) s
      else if r.success
      then rest (results ++ r ∷ []) s
      else done (gave_up_at sg r (results ++ r ∷ [])) s

  -- the loop over the subgoals, with the results so far
  unfoldable pub run_subgoals : List Subgoal → List ExecutorResult → S → Attempt LoopResult S
  unfolding all_done
  run_subgoals [] results s = done (all_done results) s
  run_subgoals (sg ∷ sgs) results s =
      let rest = run_subgoals sgs in
      if sg.assigned_half == "loop"
      then after_execute sg results rest (services.execute sg s)
      else done (handed_over sg results) s

  -- after the change of state
  abbrev pub after_set : List Subgoal → Attempt Unit S → Attempt LoopResult S
  after_set sgs (raises e s) = raises e s
  after_set sgs (done u s) = run_subgoals sgs [] s

  -- after the planner
  unfoldable pub after_plan : Attempt (List Subgoal) S → Attempt LoopResult S
  unfolding run_subgoals
  after_plan (raises e s) = raises e s
  after_plan (done sgs s) = after_set sgs (services.set_executing sgs s)

  -- LoopHalf.run; the two trace events are left out
  unfoldable pub run : S → Attempt LoopResult S
  unfolding after_plan
  run s = after_plan (services.plan s)
