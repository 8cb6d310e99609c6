-- ===== src/Orchestrator/Process.antt =====
-- orchestrator/main.py: process_session with its dispatchers, and advance_session_once. The planner and
-- the executor are the interface Engine. While one of them runs, others may write the session's document:
-- what it then holds comes with the result.
use Prim.Native.String.{◌++◌ as concat}
use module_agents_part.Prelude.{
  ℕ, String, Bool, true, false, Option, none, some, List, [], ◌∷◌, ◌==◌, ◌||◌, not, if◌then◌else◌,
}
use module_agents_part.Prelude.Json.{Json, Fields, end}
use module_agents_part.Errors.{Exception, structured, wrap_unexpected}
use module_agents_part.Executor.Loop.{Subgoal, ExecutorResult}
use module_agents_part.Halves.Structured.{
  NextAction, complete, handoff_to_structured, handoff_to_loop, escalate,
}
use module_agents_part.Halves.Loop.{Attempt, done, raises, Services, LoopOutput, LoopResult, run}
use module_agents_part.Session.State.{Iso, Time, is_terminal}
use module_agents_part.Session.Handle.{
  Change, Changes, Handle, Outcome, invalid_transition, attribute_error, update_state,
  mark_complete, mark_failed, mark_escalated,
}
use module_agents_part.Session.Store.{
  Document, readable, Session, Loaded, loaded, read_entry, read_document,
}

-- a session that is being worked on: the object with its document, and the rest of the world
pub record Live (W : Type 0) : Type 0 where
  pub handle : Handle
  pub world : W

-- the document with the world
abbrev pub Around : Type 0 → Type 0
Around W = Fields × W

-- The planner and the executor, which see the session and never call update_state, and the values that
-- to_dict and str give.
pub record Engine (W : Type 0) : Type 0 where
  pub plan : Live W → Attempt (List Subgoal) (Around W)
  pub execute : Subgoal → Live W → Attempt ExecutorResult (Around W)
  pub planner_dict : List Subgoal → Json
  pub output_dict : LoopOutput → Json
  pub str_nat : ℕ → String

abbrev pub moved_on : {W : Type 0} → Live W → Around W → Live W
moved_on l (d, w) = record { handle = record l.handle { disk = d }; world = w }

abbrev pub attempted :
    {W : Type 0} {A : Type 0} → Live W → Attempt A (Around W) → Attempt A (Live W)
attempted l (done a r) = done a (moved_on l r)
attempted l (raises e r) = raises e (moved_on l r)

abbrev pub state_change : String → List Change → Changes
state_change name after = record { before = []; state = some name; after = after }

-- the exception of an update_state that does not return
abbrev pub update_error : Outcome → Exception
update_error Outcome.done = Exception.other "" ""
update_error (invalid_transition current proposed) = structured (record {
  code = "SA_VAL_INVALID_STATE_TRANSITION";
  message = concat "invalid session state transition: '" (
      concat current (
        concat "' -> '" (
          concat proposed
            "'. State transitions are forward-only and must follow ALLOWED_TRANSITIONS.")));
})
update_error attribute_error = Exception.other "AttributeError" ""

-- the call as a step that gives a value or raises
abbrev pub updated : {W : Type 0} {A : Type 0} → A → Live W → Handle × Outcome → Attempt A (Live W)
updated a l (h, Outcome.done) = done a (record l { handle = h })
updated a l (h, o) = raises (update_error o) (record l { handle = h })

abbrev pub reason_of : Exception → String
reason_of e = concat (wrap_unexpected e).code (concat ": " (wrap_unexpected e).message)

abbrev pub fields_of : Option Document → Fields
fields_of (some (readable d)) = d
fields_of _ = end

abbrev pub live : {W : Type 0} → Option Document → W → Session → Live W
live doc w s = record { handle = record { state = s.state; disk = fields_of doc }; world = w }

module _ (iso : Iso) (now : Time) {W : Type 0} (engine : Engine W) where
  -- the services of the loop half
  abbrev pub services : Services (Live W)
  services = record {
    plan = λ l. attempted l (engine.plan l);
    set_executing = λ sgs l. updated tt l (
        update_state iso now
          (state_change "executing" (Change.planner (engine.planner_dict sgs) ∷ [])) l.handle);
    execute = λ sg l. attempted l (engine.execute sg l);
    str_nat = engine.str_nat;
  }

  -- what follows the loop half, by its next action
  unfoldable pub after_loop_half : LoopResult → NextAction → Live W → Attempt Bool (Live W)
  after_loop_half r complete l =
      updated true l (mark_complete iso now (engine.output_dict r.output) l.handle)
  after_loop_half r handoff_to_structured l =
      updated true l (update_state iso now (state_change "handed_off_to_structured" []) l.handle)
  after_loop_half r escalate l = updated true l (mark_escalated iso now r.summary l.handle)
  after_loop_half r handoff_to_loop l = done true l

  abbrev pub after_run : Attempt LoopResult (Live W) → Attempt Bool (Live W)
  after_run (done r l) = after_loop_half r r.next_action l
  after_run (raises e l) = raises e l

  -- _dispatch_loop_half
  unfoldable pub dispatch_loop_half : Live W → Attempt Bool (Live W)
  unfolding run after_loop_half
  dispatch_loop_half l = after_run (run services l)

  -- _dispatch_structured_half
  unfoldable pub dispatch_structured_half : Live W → Attempt Bool (Live W)
  dispatch_structured_half l = updated true l (
      mark_escalated iso now
        "handoff to structured half received, but no structured rules are registered" l.handle)

  -- the try block of process_session
  unfoldable pub dispatch : String → Live W → Attempt Bool (Live W)
  unfolding dispatch_loop_half dispatch_structured_half
  dispatch state l =
      if state == "planning" || state == "executing"
      then dispatch_loop_half l
      else if state == "handed_off_to_structured"
      then dispatch_structured_half l
      else if state == "completed" || (state == "failed" || state == "escalated")
      then done true l
      else done true l

  -- the except blocks: mark_failed, whose own exception is dropped
  unfoldable pub settle : Attempt Bool (Live W) → Bool × Live W
  unfolding mark_failed
  settle (done b l) = (b, l)
  settle (raises e l) =
      (false, record l { handle = (mark_failed iso now (reason_of e) l.handle).0 })

  -- What process_session leaves: its result, the object, or nothing where the session did not load.
  abbrev pub process_loaded : Option Document → W → Loaded → Bool × Option (Live W)
  process_loaded doc w (loaded s) =
      let r = settle (dispatch s.state.state (live doc w s)) in (r.0, some r.1)
  process_loaded doc w failure = (false, none)

  unfoldable pub process_session : String → Option Document → W → Bool × Option (Live W)
  unfolding dispatch settle read_document
  process_session id doc w = process_loaded doc w (read_entry iso id doc)

-- orchestrator/worker.py: WorkerOutcome, without its summary and its raw dict
pub record WorkerOutcome : Type 0 where
  pub terminal : Bool
  pub advanced : Bool

-- How advance_session_once ends: an outcome, or an exception of appending the event of the step to the
-- trace, of mark_failed or of the last load.
pub data Advanced (W : Type 0) : Type 0 where
  outcome : WorkerOutcome → Option (Live W) → Advanced W
  failed_to_trace : Exception → Live W → Advanced W
  failed_to_mark : Outcome → Live W → Advanced W
  failed_to_reload : Loaded → Live W → Advanced W

abbrev pub worker_outcome : Bool → Bool → WorkerOutcome
worker_outcome terminal advanced = record { terminal = terminal; advanced = advanced }

module _ (iso : Iso) (now : Time) {W : Type 0} (engine : Engine W) where
  -- the last lines: what the document says now
  abbrev pub report : String → Live W → Loaded → Advanced W
  report before l (loaded s) =
      outcome
        (worker_outcome (is_terminal s.state)
          (not (s.state.state == before) || is_terminal s.state))
        (some l)
  report before l failure = failed_to_reload failure l

  abbrev pub marked : Live W → Handle × Outcome → Advanced W
  marked l (h, Outcome.done) = outcome (worker_outcome true true) (some (record l { handle = h }))
  marked l (h, o) = failed_to_mark o (record l { handle = h })

  unfoldable pub after_step : String → String → Attempt Bool (Live W) → Advanced W
  unfolding read_document is_terminal mark_failed
  after_step id before (done b l) =
      report before l (read_entry iso id (some (readable l.handle.disk)))
  after_step id before (raises e l) = marked l (mark_failed iso now (reason_of e) l.handle)

  -- the try block, by the state
  unfoldable pub advance_step : String → String → Live W → Advanced W
  unfolding dispatch_loop_half dispatch_structured_half after_step
  advance_step id state l =
      if state == "planning" || state == "executing"
      then after_step id state (dispatch_loop_half iso now engine l)
      else if state == "handed_off_to_structured"
      then after_step id state (dispatch_structured_half iso now engine l)
      else outcome (worker_outcome false false) (some l)

  -- append_trace_event, outside the try block, and what follows it
  abbrev pub after_begin : Option Exception → String → String → Live W → Advanced W
  after_begin none id state l = advance_step id state l
  after_begin (some x) id state l = failed_to_trace x l

  -- After the load; `begin` is the exception of append_trace_event, if it raises one. The writes of
  -- the document by mark_failed are taken to succeed.
  unfoldable pub advance_loaded :
      Option Exception → String → Option Document → W → Loaded → Advanced W
  unfolding advance_step is_terminal
  advance_loaded begin id doc w (loaded s) =
      let l = live doc w s in
      if is_terminal s.state
      then outcome (worker_outcome true false) (some l)
      else after_begin begin id s.state.state l
  advance_loaded begin id doc w failure = outcome (worker_outcome false false) none

  -- advance_session_once
  unfoldable pub advance_session_once : Option Exception → String → Option Document → W → Advanced W
  unfolding advance_loaded read_document
  advance_session_once begin id doc w = advance_loaded begin id doc w (read_entry iso id doc)
